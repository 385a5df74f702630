-- ===== src/Watcher/Reports.antt =====
-- packages/plugin-file-watcher/src/index.ts: the changes that events report, and what is pending
-- after them.
use Prim.Native.String.{String}
use text.Mathlib.Text.{◌==◌ as str_eq}
use clusterkit.Common.{
  ℕ, ◌≡◌, refl, ap, ◌∙◌, subst, Option, none, some, List, [], ◌∷◌, All, if_cases, true, false, Bool,
  not, ◌&&◌, anyb, if◌then◌else◌,
}
use clusterkit.EnvVars.{EnvVars, spread}
use clusterkit.Watcher.{reported, trigger_restart, merged, step, run, ticked}
use clusterkit.Watcher.Sources.{
  Event, installed, start_delay_due, file_changed, env_file_changed, poll_due, debounce_due,
  max_wait_due, trailing_due, teardown_begins, teardown_ends, is_due, change_of, env_changed,
  file_change, env_file_change, parsed,
}
use clusterkit.Watcher.Record.{Settings, Change, Watcher, or_else}

-- The reason of the newest change, and the environments of all, each spread over the older ones.
abbrev pub cause : List Change → Option String
cause [] = none
cause (c ∷ cs) = some c.0

abbrev older : Option EnvVars → EnvVars
older none = []
older (some env) = env

abbrev pub payload : List Change → Option EnvVars
payload [] = none
payload ((reason, none) ∷ cs) = payload cs
payload ((reason, some env) ∷ cs) = some (spread (older (payload cs)) env)

merged_lem :
    (o : Option EnvVars) (env : EnvVars) → merged o (some env) ≡ some (spread (older o) env)
unfolding merged
merged_lem none env = refl
merged_lem (some pending) env = refl

pub merged-payload :
    (reason : String) (env : Option EnvVars) (cs : List Change)
    → merged (payload cs) env ≡ payload ((reason, env) ∷ cs)
unfolding merged
merged-payload reason none cs = refl
merged-payload reason (some env) cs = merged_lem (payload cs) env

abbrev only_if : Bool → Change → Option Change
only_if true c = some c
only_if false c = none

abbrev read_by : Settings → Option EnvVars → Option Change
read_by s none = none
read_by s (some env) = some (or_else "env-change" s.default_reason, some env)

abbrev parsed_by : Settings → Option String → Option EnvVars
parsed_by s none = none
parsed_by s (some content) = s.env_parser content

-- The change that an event stands for: a file that is no .env file, an .env file that can be read
-- and parsed, with what it holds, and an environment that has changed since the last poll, with
-- itself; each while its source is open.
abbrev pub change_for : Settings → (String → String) → ℕ → Event → Watcher → Option Change
change_for s resolve now (file_changed path) w =
    only_if (w.files_open && not (anyb (λ f. str_eq (resolve f) (resolve path)) s.env_files))
      (or_else "file-change" s.default_reason, none)
change_for s resolve now (env_file_changed content) w =
    if w.env_files_open then read_by s (parsed_by s content) else none
change_for s resolve now (poll_due env) w =
    only_if (is_due now w.env_poll_interval && env_changed w.snapshot env)
      (or_else "env-change" s.default_reason, some (spread [] env))
change_for s resolve now e w = none

only_if_lem : (b : Bool) (c : Change) → (if b then some c else none) ≡ only_if b c
only_if_lem true c = refl
only_if_lem false c = refl

file_lem :
    (open' listed : Bool) (c : Change)
    → (if open' then (if listed then none else some c) else none) ≡ only_if (open' && not listed) c
file_lem true true c = refl
file_lem true false c = refl
file_lem false listed c = refl

read_lem : (s : Settings) (o : Option EnvVars) → env_file_change s o ≡ read_by s o
unfolding env_file_change
read_lem s none = refl
read_lem s (some env) = refl

parsed_lem : (s : Settings) (o : Option String) → parsed s o ≡ parsed_by s o
unfolding parsed
parsed_lem s none = refl
parsed_lem s (some content) = refl

pub change_of-change_for :
    (s : Settings) (resolve : String → String) (now : ℕ) (e : Event) (w : Watcher)
    → change_of s resolve now e w ≡ change_for s resolve now e w
unfolding change_of file_change
change_of-change_for s resolve now (file_changed path) w =
    file_lem w.files_open (anyb (λ f. str_eq (resolve f) (resolve path)) s.env_files) _
change_of-change_for s resolve now (env_file_changed content) w =
    ap (λ (o : Option Change). if w.env_files_open then o else none)
      (read_lem s (parsed s content) ∙ ap (read_by s) (parsed_lem s content))
change_of-change_for s resolve now (poll_due env) w =
    only_if_lem (is_due now w.env_poll_interval && env_changed w.snapshot env) _
change_of-change_for s resolve now (installed p f g env) w = refl
change_of-change_for s resolve now (start_delay_due f g env) w = refl
change_of-change_for s resolve now debounce_due w = refl
change_of-change_for s resolve now max_wait_due w = refl
change_of-change_for s resolve now trailing_due w = refl
change_of-change_for s resolve now teardown_begins w = refl
change_of-change_for s resolve now teardown_ends w = refl

-- What each event of a run reports.
unfoldable pub changes_in :
    Settings → (String → String) → List (ℕ × Event) → Watcher → List (Option Change)
changes_in s resolve [] w = []
changes_in s resolve ((now, e) ∷ es) w =
    change_for s resolve now e w ∷ changes_in s resolve es (step s resolve now e w).0

abbrev pub taken : Option Change → List Change → List Change
taken none cs = cs
taken (some c) cs = c ∷ cs

-- The changes among them over older ones, the newest first.
abbrev pub newest_first : List (Option Change) → List Change → List Change
newest_first [] cs = cs
newest_first (o ∷ os) cs = newest_first os (taken o cs)

abbrev pub Holds : List Change → Watcher → Type 0
Holds cs w = (w.pending_reason ≡ cause cs) × (w.pending_env ≡ payload cs)

pub trigger-Holds :
    (s : Settings) (now : ℕ) (c : Change) (cs : List Change) (w : Watcher)
    → Holds cs w
    → Holds (c ∷ cs) (trigger_restart s now c w)
unfolding trigger_restart
trigger-Holds s now (reason, env) cs w h =
    (refl, ap (λ p. merged p env) h.1 ∙ merged-payload reason env cs)

-- An event that can only report a change.
abbrev pub is_report : Event → Bool
is_report (file_changed path) = true
is_report (env_file_changed content) = true
is_report (poll_due env) = true
is_report e = false

module _ (s : Settings) where
  pub reported-Holds :
      (o : Option Change) (cs : List Change) (now : ℕ) (w : Watcher)
      → Holds cs w
      → Holds (taken o cs) (reported s now o w)
  unfolding reported
  reported-Holds none cs now w h = h
  reported-Holds (some c) cs now w h = trigger-Holds s now c cs w h

  ticked-Holds :
      (cs : List Change) (now : ℕ) (env : EnvVars) (w : Watcher)
      → Holds cs w
      → Holds cs (ticked s now env w)
  unfolding ticked
  ticked-Holds cs now env w h =
      if_cases (Holds cs) (is_due now w.env_poll_interval) _ _ (λ _. h) (λ _. h)

  module _ (resolve : String → String) where
    step-Holds :
        (now : ℕ) (e : Event) (cs : List Change) (w : Watcher)
        → is_report e ≡ true
        → Holds cs w
        → Holds (taken (change_of s resolve now e w) cs) (step s resolve now e w).0
    unfolding step
    step-Holds now (file_changed path) cs w r h =
        reported-Holds (change_of s resolve now (file_changed path) w) cs now w h
    step-Holds now (env_file_changed content) cs w r h =
        reported-Holds (change_of s resolve now (env_file_changed content) w) cs now w h
    step-Holds now (poll_due env) cs w r h =
        reported-Holds (change_of s resolve now (poll_due env) w) cs now (ticked s now env w)
          (ticked-Holds cs now env w h)
    step-Holds now (installed p f g env) cs w r h = cc
    step-Holds now (start_delay_due f g env) cs w r h = cc
    step-Holds now debounce_due cs w r h = cc
    step-Holds now max_wait_due cs w r h = cc
    step-Holds now trailing_due cs w r h = cc
    step-Holds now teardown_begins cs w r h = cc
    step-Holds now teardown_ends cs w r h = cc

    pub run-Holds :
        (es : List (ℕ × Event)) (cs : List Change) (w : Watcher)
        → All (λ (e : ℕ × Event). is_report e.1 ≡ true) es
        → Holds cs w
        → Holds (newest_first (changes_in s resolve es w) cs) (run s resolve es w).0
    unfolding run changes_in
    run-Holds [] cs w r h = h
    run-Holds ((now, e) ∷ es) cs w (r, rs) h =
        run-Holds es (taken (change_for s resolve now e w) cs) (step s resolve now e w).0 rs (
          subst (λ (o : Option Change). Holds (taken o cs) (step s resolve now e w).0)
            (change_of-change_for s resolve now e w) (step-Holds now e cs w r h))
