-- ===== src/Watcher/Spacing.antt =====
-- packages/plugin-file-watcher/src/index.ts: the time between two restarts.
use Prim.Native.String.{String}
use clusterkit.Common.{
  ℕ, subst, ◌∙◌, ◌+◌, ◌≤◌, ◌<◌, ◌≡◌, refl, Bool, true, false, Option, none, some, List, [], ◌∷◌,
  ◌++◌, All, if_cases, arith,
}
use clusterkit.EnvVars.{EnvVars}
use clusterkit.Watcher.{
  reported, Flush, rehearses, holds, fires, decide, flushed, flush_restart, flushed_if,
  trigger_restart, step, run, start_watchers, delayed_start, ticked, begin_teardown, end_teardown,
}
use clusterkit.Watcher.Sources.{
  is_due, Event, installed, start_delay_due, file_changed, env_file_changed, poll_due, debounce_due,
  max_wait_due, trailing_due, teardown_begins, teardown_ends, change_of,
}
use clusterkit.Watcher.Record.{Settings, Change, Call, Watcher}

-- Every call stands `min` after the one before it, the first after `last`.
abbrev pub Spaced : ℕ → ℕ → List Call → Type 0
Spaced gap last [] = Unit
Spaced gap last (c ∷ cs) = (last + gap ≤ c.called_at) × Spaced gap c.called_at cs

-- The time of the last call.
abbrev pub latest : ℕ → List Call → ℕ
latest last [] = last
latest last (c ∷ cs) = latest c.called_at cs

Spaced-append :
    (gap last : ℕ) (xs ys : List Call)
    → Spaced gap last xs
    → Spaced gap (latest last xs) ys
    → Spaced gap last (xs ++ ys)
Spaced-append gap last [] ys h k = k
Spaced-append gap last (x ∷ xs) ys (a, b) k = (a, Spaced-append gap x.called_at xs ys b k)

-- The calls of a step are spaced, and the state knows the last of them.
abbrev Keeps : ℕ → ℕ → Watcher × List Call → Type 0
Keeps gap last r = Spaced gap last r.1 × (r.0.last_restart_at ≡ latest last r.1)

-- Anything but a new installation.
abbrev pub is_running : Event → Bool
is_running (installed p f g env) = false
is_running e = true

module _ (s : Settings) (positive : 0 < s.min_restart_interval_ms) where
  decide_fires : (now last : ℕ) → decide s now last ≡ fires → last + s.min_restart_interval_ms ≤ now
  unfolding decide
  decide_fires now last h = ground (arith, positive)

  flushed_lem :
      (f : Flush) (now : ℕ) (w : Watcher)
      → (f ≡ fires → w.last_restart_at + s.min_restart_interval_ms ≤ now)
      → Keeps s.min_restart_interval_ms w.last_restart_at (flushed f s now w)
  unfolding flushed
  flushed_lem rehearses now w e = (tt, refl)
  flushed_lem holds now w e = (tt, refl)
  flushed_lem fires now w e = ((e refl, tt), refl)

  flushed_if_lem :
      (b : Bool) (now : ℕ) (w : Watcher)
      → Keeps s.min_restart_interval_ms w.last_restart_at (flushed_if b s now w)
  unfolding flushed_if flush_restart
  flushed_if_lem false now w = (tt, refl)
  flushed_if_lem true now w =
      flushed_lem (decide s now w.last_restart_at) now w (decide_fires now w.last_restart_at)

  reported_lem :
      (o : Option Change) (now : ℕ) (w : Watcher)
      → (reported s now o w).last_restart_at ≡ w.last_restart_at
  unfolding reported trigger_restart
  reported_lem none now w = refl
  reported_lem (some (reason, env)) now w = refl

  started_lem :
      (now : ℕ) (f g : Bool) (env : EnvVars) (w : Watcher)
      → (start_watchers s now f g env w).last_restart_at ≡ w.last_restart_at
  unfolding start_watchers
  started_lem now f g env w =
      if_cases (λ (v : Watcher). v.last_restart_at ≡ w.last_restart_at) w.closed _ _ (λ _. refl)
        (λ _. refl)

  delayed_lem :
      (now : ℕ) (f g : Bool) (env : EnvVars) (w : Watcher)
      → (delayed_start s now f g env w).last_restart_at ≡ w.last_restart_at
  unfolding delayed_start
  delayed_lem now f g env w =
      let ran : Watcher = record w { start_delay_timer = none } in
      if_cases (λ (v : Watcher). v.last_restart_at ≡ w.last_restart_at)
        (is_due now w.start_delay_timer) _ _ (λ _. started_lem now f g env ran) (λ _. refl)

  ticked_lem :
      (now : ℕ) (env : EnvVars) (w : Watcher)
      → (ticked s now env w).last_restart_at ≡ w.last_restart_at
  unfolding ticked
  ticked_lem now env w =
      if_cases (λ (v : Watcher). v.last_restart_at ≡ w.last_restart_at)
        (is_due now w.env_poll_interval) _ _ (λ _. refl) (λ _. refl)

  module _ (resolve : String → String) where
    step_lem :
        (now : ℕ) (e : Event) (w : Watcher)
        → is_running e ≡ true
        → Keeps s.min_restart_interval_ms w.last_restart_at (step s resolve now e w)
    unfolding step begin_teardown end_teardown
    step_lem now (installed p f g env) w h = cc
    step_lem now (start_delay_due f g env) w h = (tt, delayed_lem now f g env w)
    step_lem now (file_changed path) w h =
        (tt, reported_lem (change_of s resolve now (file_changed path) w) now w)
    step_lem now (env_file_changed content) w h =
        (tt, reported_lem (change_of s resolve now (env_file_changed content) w) now w)
    step_lem now (poll_due env) w h = (
      tt,
      reported_lem (change_of s resolve now (poll_due env) w) now (ticked s now env w)
          ∙ ticked_lem now env w,
    )
    step_lem now debounce_due w h = flushed_if_lem (is_due now w.debounce_timer) now w
    step_lem now max_wait_due w h = flushed_if_lem (is_due now w.max_wait_timer) now w
    step_lem now trailing_due w h = flushed_if_lem (is_due now w.trailing_timer) now w
    step_lem now teardown_begins w h = (tt, refl)
    step_lem now teardown_ends w h = (tt, refl)

    -- With a positive minimum interval, and whatever the events and their times, as long as the
    -- plugin is not installed again two calls of restartWorkers are at least that interval apart,
    -- and so is the first from the last restart before.
    pub run-Spaced :
        (es : List (ℕ × Event)) (w : Watcher)
        → All (λ (e : ℕ × Event). is_running e.1 ≡ true) es
        → Spaced s.min_restart_interval_ms w.last_restart_at (run s resolve es w).1
    unfolding run
    run-Spaced [] w h = tt
    run-Spaced ((now, e) ∷ es) w (h, hs) =
        let one = step_lem now e w h in
        let v = (step s resolve now e w).0 in
        Spaced-append s.min_restart_interval_ms w.last_restart_at (step s resolve now e w).1
          (run s resolve es v).1 one.0
          (subst (λ (t : ℕ). Spaced s.min_restart_interval_ms t (run s resolve es v).1) one.1
            (run-Spaced es v hs))
