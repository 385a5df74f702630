-- ===== src/Watcher/Closed.antt =====
-- packages/plugin-file-watcher/src/index.ts: after a teardown.
use Prim.Native.String.{String}
use clusterkit.Common.{
  ap, ◌&&◌, if◌then◌else◌, ℕ, subst, sym, ◌∙◌, ◌≡◌, refl, Bool, true, false, Option, none, some,
  List, [], ◌∷◌, ◌++◌, All, if_cases,
}
use clusterkit.EnvVars.{EnvVars, spread}
use clusterkit.Watcher.{
  reported, Flush, rehearses, holds, fires, decide, flushed, trigger_restart, flushed_if,
  flush_restart, step, run, delayed_start, ticked, begin_teardown, end_teardown,
}
use clusterkit.Watcher.Sources.{
  env_changed, is_due, Event, installed, start_delay_due, file_changed, env_file_changed, poll_due,
  debounce_due, max_wait_due, trailing_due, teardown_begins, teardown_ends, change_of,
}
use clusterkit.Watcher.Record.{Settings, Change, or_else, Call, Watcher}
use clusterkit.Watcher.Spacing.{is_running}

-- No source is open and no timer is set.
pub record IsDown (w : Watcher) : Type 0 where
  pub is_closed : w.closed ≡ true
  pub no_files : w.files_open ≡ false
  pub no_env_files : w.env_files_open ≡ false
  pub no_poll : w.env_poll_interval ≡ none
  pub no_start : w.start_delay_timer ≡ none
  pub no_debounce : w.debounce_timer ≡ none
  pub no_max_wait : w.max_wait_timer ≡ none
  pub no_trailing : w.trailing_timer ≡ none

-- Down, and nothing called.
abbrev pub Rests : Watcher × List Call → Type 0
Rests r = IsDown r.0 × (r.1 ≡ [])

-- A closed gate lets the other value through.
gated {ℓ} : {A : Type ℓ} (b : Bool) (x y : A) → b ≡ false → (if b then x else y) ≡ y
gated {A = A} b x y h = if_cases (λ (z : A). z ≡ y) b x y (λ k. cc) (λ _. refl)

-- An unset timer is not due.
not_due : (now : ℕ) (t : Option ℕ) → t ≡ none → is_due now t ≡ false
unfolding is_due
not_due now t h = subst (λ (t : Option ℕ). is_due now t ≡ false) (sym h) refl

-- The teardown has begun.
abbrev IsClosing : Watcher → Type 0
IsClosing w = (w.closed ≡ true) × (w.start_delay_timer ≡ none)

begun-IsClosing : (w : Watcher) → IsClosing (begin_teardown w)
unfolding begin_teardown
begun-IsClosing w = (refl, refl)

ended-IsDown : (w : Watcher) → IsClosing w → IsDown (end_teardown w)
unfolding end_teardown
ended-IsDown w c = record {
  is_closed = c.0;
  no_files = refl;
  no_env_files = refl;
  no_poll = refl;
  no_start = c.1;
  no_debounce = refl;
  no_max_wait = refl;
  no_trailing = refl;
}

module _ (s : Settings) where
  unset-Rests :
      (now : ℕ) (t : Option ℕ) (w : Watcher)
      → t ≡ none
      → IsDown w
      → Rests (flushed_if (is_due now t) s now w)
  unfolding flushed_if is_due
  unset-Rests now t w e d =
      subst (λ (t : Option ℕ). Rests (flushed_if (is_due now t) s now w)) (sym e) (d, refl)

  reported-IsClosing :
      (now : ℕ) (o : Option Change) (w : Watcher) → IsClosing w → IsClosing (reported s now o w)
  unfolding reported trigger_restart
  reported-IsClosing now none w c = c
  reported-IsClosing now (some (reason, env)) w c = c

  ticked-IsClosing :
      (now : ℕ) (env : EnvVars) (w : Watcher) → IsClosing w → IsClosing (ticked s now env w)
  unfolding ticked
  ticked-IsClosing now env w c =
      if_cases IsClosing (is_due now w.env_poll_interval) _ _ (λ _. c) (λ _. c)

  flushed_as-IsClosing :
      (f : Flush) (now : ℕ) (w : Watcher) → IsClosing w → IsClosing (flushed f s now w).0
  unfolding flushed
  flushed_as-IsClosing rehearses now w c = c
  flushed_as-IsClosing holds now w c = c
  flushed_as-IsClosing fires now w c = c

  flushed-IsClosing :
      (b : Bool) (now : ℕ) (w : Watcher) → IsClosing w → IsClosing (flushed_if b s now w).0
  unfolding flushed_if flush_restart
  flushed-IsClosing false now w c = c
  flushed-IsClosing true now w c = flushed_as-IsClosing (decide s now w.last_restart_at) now w c

  module _ (resolve : String → String) where
    nothing_reported :
        (now : ℕ) (e : Event) (w : Watcher) → IsDown w → change_of s resolve now e w ≡ none
    unfolding change_of
    nothing_reported now (file_changed path) w d = gated w.files_open _ none d.no_files
    nothing_reported now (env_file_changed content) w d =
        gated w.env_files_open _ none d.no_env_files
    nothing_reported now (poll_due env) w d =
        ap
          (λ (b : Bool).
            if b && env_changed w.snapshot env
            then some (or_else "env-change" s.default_reason, some (spread [] env))
            else none)
          (not_due now w.env_poll_interval d.no_poll)
    nothing_reported now (installed p f g env) w d = refl
    nothing_reported now (start_delay_due f g env) w d = refl
    nothing_reported now debounce_due w d = refl
    nothing_reported now max_wait_due w d = refl
    nothing_reported now trailing_due w d = refl
    nothing_reported now teardown_begins w d = refl
    nothing_reported now teardown_ends w d = refl

    unreported : (now : ℕ) (o : Option Change) (w : Watcher) → o ≡ none → reported s now o w ≡ w
    unfolding reported
    unreported now o w h = ap (λ (o : Option Change). reported s now o w) h

    unticked : (now : ℕ) (env : EnvVars) (w : Watcher) → IsDown w → ticked s now env w ≡ w
    unfolding ticked
    unticked now env w d =
        gated (is_due now w.env_poll_interval) _ w (not_due now w.env_poll_interval d.no_poll)

    undelayed :
        (now : ℕ) (f g : Bool) (env : EnvVars) (w : Watcher)
        → IsDown w
        → delayed_start s now f g env w ≡ w
    unfolding delayed_start
    undelayed now f g env w d =
        gated (is_due now w.start_delay_timer) _ w (not_due now w.start_delay_timer d.no_start)

    stays : (v w : Watcher) → v ≡ w → IsDown w → Rests (v, [])
    stays v w h d = (subst IsDown (sym h) d, refl)

    step-Rests :
        (now : ℕ) (e : Event) (w : Watcher)
        → is_running e ≡ true
        → IsDown w
        → Rests (step s resolve now e w)
    unfolding step begin_teardown end_teardown
    step-Rests now (installed p f g env) w h d = cc
    step-Rests now (start_delay_due f g env) w h d =
        stays (delayed_start s now f g env w) w (undelayed now f g env w d) d
    step-Rests now (file_changed path) w h d =
        let o = change_of s resolve now (file_changed path) w in
        stays (reported s now o w) w
          (unreported now o w (nothing_reported now (file_changed path) w d)) d
    step-Rests now (env_file_changed content) w h d =
        let o = change_of s resolve now (env_file_changed content) w in
        stays (reported s now o w) w
          (unreported now o w (nothing_reported now (env_file_changed content) w d)) d
    step-Rests now (poll_due env) w h d =
        let o = change_of s resolve now (poll_due env) w in
        stays (reported s now o (ticked s now env w)) w
          (unreported now o (ticked s now env w) (nothing_reported now (poll_due env) w d)
            ∙ unticked now env w d)
          d
    step-Rests now debounce_due w h d = unset-Rests now w.debounce_timer w d.no_debounce d
    step-Rests now max_wait_due w h d = unset-Rests now w.max_wait_timer w d.no_max_wait d
    step-Rests now trailing_due w h d = unset-Rests now w.trailing_timer w d.no_trailing d
    step-Rests now teardown_begins w h d = (
      record {
        is_closed = refl;
        no_files = d.no_files;
        no_env_files = d.no_env_files;
        no_poll = d.no_poll;
        no_start = refl;
        no_debounce = d.no_debounce;
        no_max_wait = d.no_max_wait;
        no_trailing = d.no_trailing;
      },
      refl,
    )
    step-Rests now teardown_ends w h d = (
      record {
        is_closed = d.is_closed;
        no_files = refl;
        no_env_files = refl;
        no_poll = refl;
        no_start = d.no_start;
        no_debounce = refl;
        no_max_wait = refl;
        no_trailing = refl;
      },
      refl,
    )

    run-Rests :
        (es : List (ℕ × Event)) (w : Watcher)
        → All (λ (e : ℕ × Event). is_running e.1 ≡ true) es
        → IsDown w
        → Rests (run s resolve es w)
    unfolding run
    run-Rests [] w hs d = (d, refl)
    run-Rests ((now, e) ∷ es) w (h, hs) d =
        let one = step-Rests now e w h d in
        let rest = run-Rests es (step s resolve now e w).0 hs one.0 in
        (
          rest.0,
          ap (λ (cs : List Call). cs ++ (run s resolve es (step s resolve now e w).0).1) one.1
              ∙ rest.1,
        )

    -- Across the wait of the teardown.
    step-IsClosing :
        (now : ℕ) (e : Event) (w : Watcher)
        → is_running e ≡ true
        → IsClosing w
        → IsClosing (step s resolve now e w).0
    unfolding step begin_teardown end_teardown delayed_start
    step-IsClosing now (installed p f g env) w h c = cc
    step-IsClosing now (start_delay_due f g env) w h c =
        subst IsClosing
          (sym (gated (is_due now w.start_delay_timer) _ w (not_due now w.start_delay_timer c.1))) c
    step-IsClosing now (file_changed path) w h c =
        reported-IsClosing now (change_of s resolve now (file_changed path) w) w c
    step-IsClosing now (env_file_changed content) w h c =
        reported-IsClosing now (change_of s resolve now (env_file_changed content) w) w c
    step-IsClosing now (poll_due env) w h c =
        reported-IsClosing now (change_of s resolve now (poll_due env) w) (ticked s now env w)
          (ticked-IsClosing now env w c)
    step-IsClosing now debounce_due w h c = flushed-IsClosing (is_due now w.debounce_timer) now w c
    step-IsClosing now max_wait_due w h c = flushed-IsClosing (is_due now w.max_wait_timer) now w c
    step-IsClosing now trailing_due w h c = flushed-IsClosing (is_due now w.trailing_timer) now w c
    step-IsClosing now teardown_begins w h c = (refl, refl)
    step-IsClosing now teardown_ends w h c = c

    run-IsClosing :
        (es : List (ℕ × Event)) (w : Watcher)
        → All (λ (e : ℕ × Event). is_running e.1 ≡ true) es
        → IsClosing w
        → IsClosing (run s resolve es w).0
    unfolding run
    run-IsClosing [] w hs c = c
    run-IsClosing ((now, e) ∷ es) w (h, hs) c =
        run-IsClosing es (step s resolve now e w).0 hs (step-IsClosing now e w h c)

    -- A teardown is final until the plugin is installed again: whatever the state it begins in and
    -- whatever happens across its wait for the watchers to close, once it has ended no event opens
    -- a source, sets a timer or calls restartWorkers.
    pub teardown_final :
        (meanwhile es : List (ℕ × Event)) (w : Watcher)
        → All (λ (e : ℕ × Event). is_running e.1 ≡ true) meanwhile
        → All (λ (e : ℕ × Event). is_running e.1 ≡ true) es
        → Rests (run s resolve es (end_teardown (run s resolve meanwhile (begin_teardown w)).0))
    teardown_final meanwhile es w ms hs =
        let v = (run s resolve meanwhile (begin_teardown w)).0 in
        run-Rests es (end_teardown v) hs
          (ended-IsDown v (run-IsClosing meanwhile (begin_teardown w) ms (begun-IsClosing w)))
