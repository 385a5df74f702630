-- ===== src/Watcher/Storm.antt =====
-- packages/plugin-file-watcher/src/index.ts: the max-wait timer, which is set once
-- while further changes set the debounce timer again and again.
use Prim.Native.String.{String}
use clusterkit.Common.{
  ℕ, subst, sym, ltb, le→leb, ◌+◌, ◌≤◌, ◌<◌, ◌≡◌, refl, ap, ◌∙◌, Bool, true, false, Option, none,
  some, List, [], ◌∷◌, All, if_cases, arith,
}
use clusterkit.EnvVars.{EnvVars}
use clusterkit.Watcher.{
  reported, Flush, fires, decide, flushed, call, flush_restart, flushed_if, trigger_restart, armed,
  step, run, ticked,
}
use clusterkit.Watcher.Sources.{
  is_due, Event, installed, start_delay_due, file_changed, env_file_changed, poll_due, debounce_due,
  max_wait_due, trailing_due, teardown_begins, teardown_ends, change_of,
}
use clusterkit.Watcher.Reports.{
  cause, payload, changes_in, newest_first, Holds, trigger-Holds, is_report, run-Holds,
}
use clusterkit.Watcher.Record.{Settings, Change, Call, Watcher, or_else}

abbrev pub newest_reason : List Change → String
newest_reason [] = "file-change"
newest_reason (c ∷ cs) = c.0

or_else-cause : (cs : List Change) → or_else "file-change" (cause cs) ≡ newest_reason cs
unfolding or_else
or_else-cause [] = refl
or_else-cause (c ∷ cs) = refl

-- What a report leaves alone once the max-wait timer is set.
abbrev Armed : ℕ → ℕ → Watcher → Type 0
Armed due last w = (w.max_wait_timer ≡ some due) × (w.last_restart_at ≡ last)

module _ (s : Settings) where
  decide_wet :
      (now last : ℕ)
      → s.dry_run ≡ false
      → last + s.min_restart_interval_ms ≤ now
      → decide s now last ≡ fires
  unfolding decide
  decide_wet now last h k = ground (arith, h, k)

  -- A timer that is due, outside of the interval, calls and leaves nothing pending.
  due_fires :
      (now due : ℕ) (w : Watcher)
      → due ≤ now
      → s.dry_run ≡ false
      → w.last_restart_at + s.min_restart_interval_ms ≤ now
      → (flushed_if (is_due now (some due)) s now w).1 ≡ call s now w ∷ []
  unfolding flushed_if flush_restart is_due flushed or_else
  due_fires now due w h d k =
      subst (λ (b : Bool). (flushed_if b s now w).1 ≡ call s now w ∷ []) (sym (le→leb due now h))
        (subst (λ (f : Flush). (flushed f s now w).1 ≡ call s now w ∷ [])
          (sym (decide_wet now w.last_restart_at d k)) refl)

  reported-Armed :
      (o : Option Change) (now due last : ℕ) (w : Watcher)
      → Armed due last w
      → Armed due last (reported s now o w)
  unfolding reported trigger_restart armed
  reported-Armed none now due last w h = h
  reported-Armed (some (reason, env)) now due last w h =
      (subst (λ (t : Option ℕ). armed s now t ≡ some due) (sym h.0) refl, h.1)

  ticked-Armed :
      (now due last : ℕ) (env : EnvVars) (w : Watcher)
      → Armed due last w
      → Armed due last (ticked s now env w)
  unfolding ticked
  ticked-Armed now due last env w h =
      if_cases (λ (v : Watcher). Armed due last v) (is_due now w.env_poll_interval) _ _ (λ _. h)
        (λ _. h)

  -- The call for the changes `cs`.
  abbrev sent : ℕ → List Change → Call
  sent now cs = record {
    called_at = now;
    env = payload cs;
    stagger_ms = s.stagger_ms;
    reason = newest_reason cs;
  }

  call_lem : (now : ℕ) (cs : List Change) (w : Watcher) → Holds cs w → call s now w ≡ sent now cs
  unfolding or_else
  call_lem now cs w h = λ i. record {
    called_at = now;
    env = h.1 i;
    stagger_ms = s.stagger_ms;
    reason = (ap (λ (o : Option String). or_else "file-change" o) h.0 ∙ or_else-cause cs) i;
  }

  module _ (resolve : String → String) where
    step-Armed :
        (now due last : ℕ) (e : Event) (w : Watcher)
        → is_report e ≡ true
        → Armed due last w
        → Armed due last (step s resolve now e w).0
    unfolding step
    step-Armed now due last (file_changed path) w r h =
        reported-Armed (change_of s resolve now (file_changed path) w) now due last w h
    step-Armed now due last (env_file_changed content) w r h =
        reported-Armed (change_of s resolve now (env_file_changed content) w) now due last w h
    step-Armed now due last (poll_due env) w r h =
        reported-Armed (change_of s resolve now (poll_due env) w) now due last (ticked s now env w)
          (ticked-Armed now due last env w h)
    step-Armed now due last (installed p f g env) w r h = cc
    step-Armed now due last (start_delay_due f g env) w r h = cc
    step-Armed now due last debounce_due w r h = cc
    step-Armed now due last max_wait_due w r h = cc
    step-Armed now due last trailing_due w r h = cc
    step-Armed now due last teardown_begins w r h = cc
    step-Armed now due last teardown_ends w r h = cc

    run-Armed :
        (due last : ℕ) (es : List (ℕ × Event)) (w : Watcher)
        → All (λ (e : ℕ × Event). is_report e.1 ≡ true) es
        → Armed due last w
        → Armed due last (run s resolve es w).0
    unfolding run
    run-Armed due last [] w rs h = h
    run-Armed due last ((now, e) ∷ es) w (r, rs) h =
        run-Armed due last es (step s resolve now e w).0 rs (step-Armed now due last e w r h)

    trigger-Armed :
        (now : ℕ) (c : Change) (w : Watcher)
        → 0 < s.debounce_max_wait_ms
        → w.max_wait_timer ≡ none
        → Armed (now + s.debounce_max_wait_ms) w.last_restart_at (trigger_restart s now c w)
    unfolding trigger_restart armed
    trigger-Armed now (reason, env) w h e = (
      subst (λ (t : Option ℕ). armed s now t ≡ some (now + s.debounce_max_wait_ms)) (sym e)
          (if_cases (λ (t : Option ℕ). t ≡ some (now + s.debounce_max_wait_ms))
            (ltb 0 s.debounce_max_wait_ms) _ _ (λ _. refl) (λ k. ground (arith, h, k))),
      refl,
    )

    -- With a maximum wait, the first change of a storm, made while the max-wait timer is not set,
    -- is delivered when that time is over, however many changes follow and however they keep
    -- setting the debounce timer: the timer is due then, and its callback, outside of the minimum
    -- interval and of a dry run, calls restartWorkers once, with the reason of the newest change
    -- and the environments of all, each spread over the older ones, those that were pending before
    -- the storm included.
    pub storm_delivered :
        (now late : ℕ) (c : Change) (cs : List Change) (es : List (ℕ × Event)) (w : Watcher)
        → Holds cs w
        → 0 < s.debounce_max_wait_ms
        → w.max_wait_timer ≡ none
        → All (λ (e : ℕ × Event). is_report e.1 ≡ true) es
        → now + s.debounce_max_wait_ms ≤ late
        → s.dry_run ≡ false
        → w.last_restart_at + s.min_restart_interval_ms ≤ late
        → let first = trigger_restart s now c w in
          let all = newest_first (changes_in s resolve es first) (c ∷ cs) in
          (step s resolve late max_wait_due (run s resolve es first).0).1
          ≡ record {
            called_at = late;
            env = payload all;
            stagger_ms = s.stagger_ms;
            reason = newest_reason all;
          }
            ∷ []
    unfolding step
    storm_delivered now late c cs es w p h e rs k d l =
        let first = trigger_restart s now c w in
        let v = (run s resolve es first).0 in
        let all = newest_first (changes_in s resolve es first) (c ∷ cs) in
        let a =
          run-Armed (now + s.debounce_max_wait_ms) w.last_restart_at es first rs
            (trigger-Armed now c w h e) in
        subst (λ (t : Option ℕ). (flushed_if (is_due late t) s late v).1 ≡ sent late all ∷ [])
          (sym a.0)
          (due_fires late (now + s.debounce_max_wait_ms) v k d
              (subst (λ (t : ℕ). t + s.min_restart_interval_ms ≤ late) (sym a.1) l)
            ∙ ap (λ (x : Call). x ∷ [])
                (call_lem late all v
                  (run-Holds s resolve es (c ∷ cs) first rs (trigger-Holds s now c cs w p))))
