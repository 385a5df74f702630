-- ===== src/Validation/Resolve.antt =====
-- packages/worker-manager/src/validation.ts: `DEFAULTS` and `validateConfig`.
use Prim.Native.String.{String}
use text.Mathlib.Text.{◌==◌ as str_eq}
use clusterkit.Common.{Bool, ◌||◌, Option, none, some, List, [], ◌∷◌, ◌++◌, if◌then◌else◌}
use clusterkit.EnvVars.{EnvVars}
use clusterkit.Config.{
  Count, auto, WorkersConfig, RestartConfig, ShutdownConfig, HealthConfig, ResolvedConfig,
}
use clusterkit.Validation.Numbers.{Num}
use clusterkit.Validation.Record.{
  EnvOption, no_env, not_an_object, env_object, ArgvOption, no_argv, not_an_array, argv_array,
  PrefixOption, no_prefix, not_a_string, prefix_string, WorkersOptions, ShutdownOptions, Section,
  missing, not_plain, given, OrchestratorConfig, Validated, invalid, valid,
}
use clusterkit.Validation.{
  first, default_to, assert_plain_object, validate_workers_options, validate_restart_options,
  validate_shutdown_options, validate_health_options, validate_cross_field_constraints,
}

abbrev pub options_of : {A : Type 0} → A → Section A → A
options_of d missing = d
options_of d not_plain = d
options_of d (given a) = a

abbrev pub no_workers : WorkersOptions
no_workers = record {
  count = none;
  env = no_env;
  exec_argv = no_argv;
  max_age_ms = none;
  max_rss_mb = none;
}

abbrev pub no_restart : RestartConfig (Option Num)
no_restart = record {
  crash_threshold = none;
  crash_window_ms = none;
  backoff_ms = none;
  max_backoff_ms = none;
  backoff_multiplier = none;
  stability_window_ms = none;
  boot_fail_quarantine = none;
}

abbrev pub no_shutdown : ShutdownOptions
no_shutdown = record {
  timeout_ms = none;
  ack_timeout_ms = none;
  message_prefix = no_prefix;
  sigterm_delay_ms = none;
  sigint_delay_ms = none;
}

abbrev pub no_health : HealthConfig (Option Num)
no_health = record {
  heartbeat_ms = none;
  wedged_timeout_ms = none;
  degraded_after_ms = none;
  max_event_loop_lag_ms = none;
  lag_recycle_beats = none;
  lag_spike_ms = none;
}

unfoldable pub resolved_count : Option (Count Num) → Count Num
resolved_count none = auto
resolved_count (some c) = c

unfoldable pub resolved_env : EnvOption → Option EnvVars
resolved_env (env_object m) = some m
resolved_env no_env = none
resolved_env not_an_object = none

unfoldable pub strings : List (Option String) → List String
strings [] = []
strings (none ∷ args) = strings args
strings (some s ∷ args) = s ∷ strings args

unfoldable pub resolved_argv : ArgvOption → Option (List String)
unfolding strings
resolved_argv (argv_array args) = some (strings args)
resolved_argv no_argv = none
resolved_argv not_an_array = none

unfoldable pub resolved_prefix : PrefixOption → String
resolved_prefix (prefix_string s) = s
resolved_prefix no_prefix = "__wm"
resolved_prefix not_a_string = "__wm"

unfoldable pub resolve_workers : WorkersOptions → WorkersConfig Num
unfolding resolved_count resolved_env resolved_argv default_to
resolve_workers w = record {
  count = resolved_count w.count;
  env = resolved_env w.env;
  exec_argv = resolved_argv w.exec_argv;
  max_age_ms = default_to w.max_age_ms 0;
  max_rss_mb = default_to w.max_rss_mb 0;
}

unfoldable pub resolve_restart : RestartConfig (Option Num) → RestartConfig Num
resolve_restart r = record {
  crash_threshold = default_to r.crash_threshold 5;
  crash_window_ms = default_to r.crash_window_ms 60000;
  backoff_ms = default_to r.backoff_ms 1000;
  max_backoff_ms = default_to r.max_backoff_ms 30000;
  backoff_multiplier = default_to r.backoff_multiplier 2;
  stability_window_ms = default_to r.stability_window_ms 30000;
  boot_fail_quarantine = default_to r.boot_fail_quarantine 0;
}

unfoldable pub resolve_shutdown : ShutdownOptions → ShutdownConfig Num
unfolding resolved_prefix
resolve_shutdown s = record {
  timeout_ms = default_to s.timeout_ms 12000;
  ack_timeout_ms = default_to s.ack_timeout_ms 3000;
  message_prefix = resolved_prefix s.message_prefix;
  sigterm_delay_ms = default_to s.sigterm_delay_ms 2000;
  sigint_delay_ms = default_to s.sigint_delay_ms 1000;
}

unfoldable pub resolve_health : HealthConfig (Option Num) → HealthConfig Num
resolve_health h = record {
  heartbeat_ms = default_to h.heartbeat_ms 0;
  wedged_timeout_ms = default_to h.wedged_timeout_ms 0;
  degraded_after_ms = default_to h.degraded_after_ms 0;
  max_event_loop_lag_ms = default_to h.max_event_loop_lag_ms 0;
  lag_recycle_beats = default_to h.lag_recycle_beats 3;
  lag_spike_ms = default_to h.lag_spike_ms 0;
}

-- `resolvedConfig`.
unfoldable pub resolve : OrchestratorConfig → ResolvedConfig Num
resolve c = record {
  workers = resolve_workers (options_of no_workers c.workers);
  restart = resolve_restart (options_of no_restart c.restart);
  shutdown = resolve_shutdown (options_of no_shutdown c.shutdown);
  health = resolve_health (options_of no_health c.health);
}

-- `ALLOWED_ROOT_KEYS`.
abbrev is_allowed_root_key : String → Bool
is_allowed_root_key k =
    str_eq k "logger"
    || (str_eq k "workers"
        || (str_eq k "restart"
            || (str_eq k "shutdown" || (str_eq k "health" || str_eq k "clusterModule"))))

-- The first unsupported key.
unfoldable pub unsupported_field : List String → Option String
unsupported_field [] = none
unsupported_field (k ∷ ks) = if is_allowed_root_key k then unsupported_field ks else some k

-- Everything that is checked, in order.
unfoldable pub section_checks : OrchestratorConfig → List (Option String)
unfolding unsupported_field
section_checks c =
    unsupported_field c.keys
    ∷ assert_plain_object c.workers "workers"
    ∷ assert_plain_object c.restart "restart"
    ∷ assert_plain_object c.shutdown "shutdown"
    ∷ assert_plain_object c.health "health"
    ∷ []

unfoldable pub all_checks : OrchestratorConfig → List (Option String)
all_checks c =
    section_checks c
    ++ (validate_workers_options (options_of no_workers c.workers)
        ++ (validate_restart_options (options_of no_restart c.restart)
            ++ (validate_shutdown_options (options_of no_shutdown c.shutdown)
                ++ (validate_health_options (options_of no_health c.health)
                    ++ validate_cross_field_constraints (resolve c)))))

unfoldable pub validate_config : OrchestratorConfig → Validated
validate_config c = elim (first (all_checks c)) [ some f ↦ invalid f | none ↦ valid (resolve c) ]
