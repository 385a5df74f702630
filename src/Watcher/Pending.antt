-- ===== src/Watcher/Pending.antt =====
-- packages/plugin-file-watcher/src/index.ts: what becomes of the changes that are reported. The
-- abstract view is the list of those since the last restart, the newest first.
use Prim.Native.String.{String}
use clusterkit.Common.{
  ℕ, ltb, ◌≡◌, refl, sym, Bool, true, false, Option, none, some, List, [], ◌∷◌, ◌++◌, if_cases,
  arith, subst,
}
use clusterkit.EnvVars.{EnvVars}
use clusterkit.Watcher.{
  reported, Flush, rehearses, holds, fires, decide, flushed, flush_restart, flushed_if,
  trigger_restart, step, run, install, start, start_watchers, delayed_start, ticked, begin_teardown,
  end_teardown,
}
use clusterkit.Watcher.Sources.{
  is_due, Event, installed, start_delay_due, file_changed, env_file_changed, poll_due, debounce_due,
  max_wait_due, trailing_due, teardown_begins, teardown_ends, change_of,
}
use clusterkit.Watcher.Reports.{cause, payload, changes_in, change_of-change_for, trigger-Holds}
use clusterkit.Watcher.Record.{Settings, Change, Call, Watcher, or_else}

-- One step of the abstract watcher, on an event that reports a change or none, with the calls it
-- makes.
pub data Step (s : Settings) : Option Change → List Change → List Call → List Change → Type 0 where
  idle : {cs : List Change} → Step s none cs [] cs
  report : {cs : List Change} (c : Change) → Step s (some c) cs [] (c ∷ cs)
  deliver :
      {c : Change} {cs : List Change} (now : ℕ)
      → s.dry_run ≡ false
      → Step s none
          (c ∷ cs)
          (record {
            called_at = now;
            env = payload (c ∷ cs);
            stagger_ms = s.stagger_ms;
            reason = c.0;
          }
            ∷ [])
          []
  rehearse : {c : Change} {cs : List Change} → s.dry_run ≡ true → Step s none (c ∷ cs) [] []

pub data Steps (s : Settings)
    : List (Option Change) → List Change → List Call → List Change → Type 0 where
  done : {cs : List Change} → Steps s [] cs [] cs
  then :
      {o : Option Change} {os : List (Option Change)} {us vs cs : List Change} {xs ys : List Call}
      → Step s o us xs vs
      → Steps s os vs ys cs
      → Steps s (o ∷ os) us (xs ++ ys) cs

-- Without a change no timer is set.
abbrev pub Unset : List Change → Option ℕ → Option ℕ → Option ℕ → Type 0
Unset [] debounce max_wait trailing = (debounce ≡ none) × (max_wait ≡ none) × (trailing ≡ none)
Unset (c ∷ cs) debounce max_wait trailing = Unit

abbrev pub Shows : List Change → Watcher → Type 0
Shows cs w =
    (w.pending_reason ≡ cause cs)
    × (w.pending_env ≡ payload cs)
    × Unset cs w.debounce_timer w.max_wait_timer w.trailing_timer

-- What a step leads to.
abbrev pub Simulates : Settings → Option Change → List Change → Watcher × List Call → Type 0
Simulates s o cs r = (cs' : List Change) × Step s o cs r.1 cs' × Shows cs' r.0

Unset-timers :
    (cs : List Change) (t u v : Option ℕ)
    → cs ≡ []
    → Unset cs t u v
    → (t ≡ none) × (u ≡ none) × (v ≡ none)
Unset-timers [] t u v e h = h
Unset-timers (c ∷ cs) t u v e h = cc

module _ (s : Settings) where
  decide_dry : (now last : ℕ) → decide s now last ≡ rehearses → s.dry_run ≡ true
  unfolding decide
  decide_dry now last h = ground arith

  decide_wet : (now last : ℕ) → decide s now last ≡ fires → s.dry_run ≡ false
  unfolding decide
  decide_wet now last h = ground arith

  flushed_lem :
      (f : Flush) (now : ℕ) (c : Change) (cs : List Change) (w : Watcher)
      → (f ≡ rehearses → s.dry_run ≡ true)
      → (f ≡ fires → s.dry_run ≡ false)
      → Shows (c ∷ cs) w
      → Simulates s none (c ∷ cs) (flushed f s now w)
  unfolding flushed or_else
  flushed_lem rehearses now c cs w d e h = ([], rehearse (d refl), (refl, refl, (refl, refl, refl)))
  flushed_lem holds now c cs w d e h = (c ∷ cs, idle, (h.0, h.1, tt))
  flushed_lem fires now c cs w d e h = (
    [],
    subst
        (λ (r : Option String × Option EnvVars).
          Step s none (c ∷ cs)
            (record {
              called_at = now;
              env = r.1;
              stagger_ms = s.stagger_ms;
              reason = or_else "file-change" r.0;
            }
              ∷ [])
            [])
        (λ i. (sym h.0 i, sym h.1 i)) (deliver now (e refl)),
    (refl, refl, (refl, refl, refl)),
  )

  due_lem :
      (b : Bool) (now : ℕ) (c : Change) (cs : List Change) (w : Watcher)
      → Shows (c ∷ cs) w
      → Simulates s none (c ∷ cs) (flushed_if b s now w)
  unfolding flushed_if flush_restart
  due_lem false now c cs w h = (c ∷ cs, idle, h)
  due_lem true now c cs w h =
      flushed_lem (decide s now w.last_restart_at) now c cs w (decide_dry now w.last_restart_at)
        (decide_wet now w.last_restart_at) h

  -- A timer that is not set does nothing, and without a change none is set.
  timer_lem :
      (cs : List Change) (now : ℕ) (t : Option ℕ) (w : Watcher)
      → (cs ≡ [] → t ≡ none)
      → Shows cs w
      → Simulates s none cs (flushed_if (is_due now t) s now w)
  unfolding flushed_if is_due
  timer_lem [] now t w e h =
      subst (λ (t : Option ℕ). Simulates s none [] (flushed_if (is_due now t) s now w))
        (sym (e refl)) ([], idle, h)
  timer_lem (c ∷ cs) now t w e h = due_lem (is_due now t) now c cs w h

  reported_lem :
      (o : Option Change) (cs : List Change) (now : ℕ) (w : Watcher)
      → Shows cs w
      → Simulates s o cs (reported s now o w, [])
  unfolding reported trigger_restart
  reported_lem none cs now w h = (cs, idle, h)
  reported_lem (some (reason, env)) cs now w h =
      let k = trigger-Holds s now (reason, env) cs w (h.0, h.1) in
      ((reason, env) ∷ cs, report (reason, env), (k.0, k.1, tt))

  started_lem :
      (cs : List Change) (now : ℕ) (f g : Bool) (env : EnvVars) (w : Watcher)
      → Shows cs w
      → Shows cs (start_watchers s now f g env w)
  unfolding start_watchers
  started_lem cs now f g env w h =
      if_cases (λ (v : Watcher). Shows cs v) w.closed _ _ (λ _. h) (λ _. h)

  start_lem :
      (cs : List Change) (now : ℕ) (f g : Bool) (env : EnvVars) (w : Watcher)
      → Shows cs w
      → Shows cs (start s now f g env w)
  unfolding start
  start_lem cs now f g env w h =
      if_cases (λ (v : Watcher). Shows cs v) (ltb 0 s.start_delay_ms) _ _ (λ _. h)
        (λ _. started_lem cs now f g env w h)

  install_lem :
      (cs : List Change) (now : ℕ) (p f g : Bool) (env : EnvVars) (w : Watcher)
      → Shows cs w
      → Shows cs (install s now p f g env w)
  unfolding install
  install_lem cs now p f g env w h =
      let opened : Watcher = record w { closed = false; last_restart_at = 0 } in
      if_cases (λ (v : Watcher). Shows cs v) p _ _ (λ _. start_lem cs now f g env opened h) (λ _. h)

  delayed_lem :
      (cs : List Change) (now : ℕ) (f g : Bool) (env : EnvVars) (w : Watcher)
      → Shows cs w
      → Shows cs (delayed_start s now f g env w)
  unfolding delayed_start
  delayed_lem cs now f g env w h =
      let ran : Watcher = record w { start_delay_timer = none } in
      if_cases (λ (v : Watcher). Shows cs v) (is_due now w.start_delay_timer) _ _
        (λ _. started_lem cs now f g env ran h) (λ _. h)

  ticked_lem :
      (cs : List Change) (now : ℕ) (env : EnvVars) (w : Watcher)
      → Shows cs w
      → Shows cs (ticked s now env w)
  unfolding ticked
  ticked_lem cs now env w h =
      if_cases (λ (v : Watcher). Shows cs v) (is_due now w.env_poll_interval) _ _ (λ _. h) (λ _. h)

  ended_lem : (cs : List Change) (w : Watcher) → Shows cs w → Shows cs (end_teardown w)
  unfolding end_teardown
  ended_lem [] w h = (h.0, h.1, (refl, refl, refl))
  ended_lem (c ∷ cs) w h = (h.0, h.1, tt)

  module _ (resolve : String → String) where
    step_lem :
        (now : ℕ) (e : Event) (cs : List Change) (w : Watcher)
        → Shows cs w
        → Simulates s (change_of s resolve now e w) cs (step s resolve now e w)
    unfolding step begin_teardown change_of
    step_lem now (installed p f g env) cs w h = (cs, idle, install_lem cs now p f g env w h)
    step_lem now (start_delay_due f g env) cs w h = (cs, idle, delayed_lem cs now f g env w h)
    step_lem now (file_changed path) cs w h =
        reported_lem (change_of s resolve now (file_changed path) w) cs now w h
    step_lem now (env_file_changed content) cs w h =
        reported_lem (change_of s resolve now (env_file_changed content) w) cs now w h
    step_lem now (poll_due env) cs w h =
        reported_lem (change_of s resolve now (poll_due env) w) cs now (ticked s now env w)
          (ticked_lem cs now env w h)
    step_lem now debounce_due cs w h =
        timer_lem cs now w.debounce_timer w
          (λ e. (Unset-timers cs w.debounce_timer w.max_wait_timer w.trailing_timer e h.2).0) h
    step_lem now max_wait_due cs w h =
        timer_lem cs now w.max_wait_timer w
          (λ e. (Unset-timers cs w.debounce_timer w.max_wait_timer w.trailing_timer e h.2).1) h
    step_lem now trailing_due cs w h =
        timer_lem cs now w.trailing_timer w
          (λ e. (Unset-timers cs w.debounce_timer w.max_wait_timer w.trailing_timer e h.2).2) h
    step_lem now teardown_begins cs w h = (cs, idle, h)
    step_lem now teardown_ends cs w h = (cs, idle, ended_lem cs w h)

    -- From a state that shows the changes `cs` on, every sequence of events makes only calls that
    -- the abstract watcher makes too on the changes that these events stand for, a changed file, an
    -- .env file with what it holds or a changed environment, each while its source is open: it
    -- keeps each of them until a restart, a call carries the reason of the newest and the
    -- environments of all that are kept, each spread over the older ones, none is made without a
    -- change, and only a call and a dry run let go of them.
    pub run-Steps :
        (es : List (ℕ × Event)) (cs : List Change) (w : Watcher)
        → Shows cs w
        → (cs' : List Change) × Steps s (changes_in s resolve es w) cs (run s resolve es w).1 cs'
          × Shows cs' (run s resolve es w).0
    unfolding run changes_in
    run-Steps [] cs w h = (cs, done, h)
    run-Steps ((now, e) ∷ es) cs w h =
        let one =
          subst (λ (o : Option Change). Simulates s o cs (step s resolve now e w))
            (change_of-change_for s resolve now e w) (step_lem now e cs w h) in
        let rest = run-Steps es one.0 (step s resolve now e w).0 one.2 in
        (rest.0, then one.1 rest.1, rest.2)
