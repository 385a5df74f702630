-- ===== src/Tests/Plugins.antt =====
-- Concrete runs of the file watcher, the .env parser, the control group's limits and the sizing.
use Prim.Native.String.{String}
use clusterkit.Common.{
  ℕ, ◌≡◌, refl, true, false, Option, none, some, List, [], ◌∷◌, arith, ◌↔◌, All, anyb,
}
use clusterkit.EnvVars.{EnvVars, set_env, get_env, spread, is_forbidden}
use clusterkit.Validation.Text.{trim, trim_start, trim_end, is_end}
use clusterkit.EnvFile.{parse_env_file}
use clusterkit.EnvFile.RoundTrip.{IsEntry, print, parse_env_file-print, is_plain_start, lacks}
use clusterkit.Watcher.{run, step, trigger_restart, begin_teardown, end_teardown}
use clusterkit.Watcher.Sources.{
  Event, installed, file_changed, env_file_changed, debounce_due, max_wait_due, env_changed,
  change_of,
}
use clusterkit.Watcher.Record.{Settings, Watcher, new_watcher}
use clusterkit.Watcher.Reports.{payload, changes_in, newest_first}
use clusterkit.Watcher.Pending.{Steps, Shows, run-Steps}
use clusterkit.Watcher.Spacing.{Spaced, run-Spaced}
use clusterkit.Watcher.Storm.{storm_delivered, newest_reason}
use clusterkit.Watcher.Closed.{Rests, teardown_final}
use clusterkit.Watcher.Polling.{Distinct, env_changed_iff}

-- A change of a file, one of an .env file, and the timers.
abbrev watch_settings : Settings
watch_settings = record {
  watch_paths = "src" ∷ [];
  env_files = ".env" ∷ [];
  env_parser = λ content. some (parse_env_file content);
  poll_env = false;
  poll_env_interval_ms = 5000;
  debounce_ms = 300;
  debounce_max_wait_ms = 500;
  min_restart_interval_ms = 200;
  stagger_ms = 1000;
  default_reason = none;
  start_delay_ms = 0;
  dry_run = false;
}

abbrev same_path : String → String
same_path path = path

abbrev changes : List (ℕ × Event)
changes =
    (1000, file_changed "src/a.ts")
    ∷ (1100, env_file_changed (some "LEVEL=debug"))
    ∷ (1400, debounce_due)
    ∷ (1500, file_changed "src/b.ts")
    ∷ (1900, debounce_due)
    ∷ []

abbrev whole_run : List (ℕ × Event)
whole_run = (0, installed true true true []) ∷ changes

abbrev opened : Watcher
opened = record {
  files_open = true;
  env_files_open = true;
  env_poll_interval = none;
  snapshot = [];
  debounce_timer = none;
  max_wait_timer = none;
  trailing_timer = none;
  start_delay_timer = none;
  closed = false;
  pending_reason = none;
  pending_env = none;
  last_restart_at = 0;
  watching = true;
  registered = 1;
}

run-Steps_example :
    (cs' : List (String × Option EnvVars)) × Steps watch_settings
      (changes_in watch_settings same_path whole_run new_watcher)
      []
      (run watch_settings same_path whole_run new_watcher).1
      cs'
    × Shows cs' (run watch_settings same_path whole_run new_watcher).0
run-Steps_example =
    run-Steps watch_settings same_path whole_run [] new_watcher (refl, refl, (refl, refl, refl))

run-Spaced_example : Spaced 200 0 (run watch_settings same_path changes opened).1
run-Spaced_example =
    run-Spaced watch_settings (omega arith) same_path changes opened
      (refl, (refl, (refl, (refl, (refl, tt)))))

abbrev storm : List (ℕ × Event)
storm = (1200, file_changed "src/b.ts") ∷ (1400, file_changed "src/c.ts") ∷ []

abbrev first_change : String × Option EnvVars
first_change = ("env-change", some (("LEVEL", "debug") ∷ []))

abbrev storm_changes : List (String × Option EnvVars)
storm_changes =
    newest_first
      (changes_in watch_settings same_path storm
        (trigger_restart watch_settings 1000 first_change opened))
      (first_change ∷ [])

storm_delivered_example :
    (step watch_settings same_path 1500 max_wait_due
      (run watch_settings same_path storm
        (trigger_restart watch_settings 1000 first_change opened)).0).1
    ≡ record {
      called_at = 1500;
      env = payload (storm_changes);
      stagger_ms = 1000;
      reason = newest_reason (storm_changes);
    }
      ∷ []
storm_delivered_example =
    storm_delivered watch_settings same_path 1000 1500 first_change [] storm opened (refl, refl)
      (omega arith) refl (refl, (refl, tt)) (omega arith) refl (omega arith)

storm_lem :
    (payload storm_changes ≡ some (("LEVEL", "debug") ∷ []))
    × (newest_reason storm_changes ≡ "file-change")
unfolding changes_in step change_of anyb set_env
storm_lem = (refl, refl)

teardown_final_example : Rests (
    run watch_settings same_path changes
      (end_teardown (run watch_settings same_path changes (begin_teardown opened)).0))
teardown_final_example =
    teardown_final watch_settings same_path changes changes opened
      (refl, (refl, (refl, (refl, (refl, tt))))) (refl, (refl, (refl, (refl, (refl, tt)))))

abbrev one_variable : EnvVars
one_variable = ("LEVEL", "info") ∷ []

abbrev two_variables : EnvVars
two_variables = ("LEVEL", "info") ∷ ("PORT", "3000") ∷ []

one-Distinct : Distinct one_variable
unfolding get_env
one-Distinct = (refl, tt)

two-Distinct : Distinct two_variables
unfolding get_env
two-Distinct = (refl, (refl, tt))

env_changed_iff_example :
    (env_changed one_variable two_variables ≡ false)
    ↔ ((k : String) → get_env k one_variable ≡ get_env k two_variables)
env_changed_iff_example = env_changed_iff one_variable two_variables one-Distinct two-Distinct

-- A value that would be a comment without its quotes.
abbrev greeting : EnvVars
greeting = ("GREETING", " \"hello\" # world ") ∷ []

greeting-IsEntry : All IsEntry greeting
unfolding is_plain_start trim trim_start trim_end is_end lacks is_forbidden
greeting-IsEntry = (
  record {
    starts = refl;
    trimmed = refl;
    no_equals = refl;
    one_line = refl;
    allowed = refl;
    one_line_value = refl;
  },
  tt,
)

parse_env_file-print_example : parse_env_file (print greeting) ≡ spread [] greeting
parse_env_file-print_example = parse_env_file-print greeting greeting-IsEntry
