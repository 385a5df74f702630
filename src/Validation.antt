-- ===== src/Validation.antt =====
-- packages/worker-manager/src/validation.ts: `validateConfig`, which checks the options one after
-- the other, throws for the first bad one, and fills in the defaults. The warnings on unknown keys
-- of a section and on NODE_OPTIONS are left out: they change nothing else.
pub mod Numbers
pub mod Text
pub mod Record
pub mod Resolve
pub mod Checks
pub mod Workers
pub mod Sound
pub mod Given
pub mod Again
use Prim.Native.String.{String}
use text.Mathlib.Text.{◌==◌ as str_eq}
use Record.{
  EnvOption, no_env, not_an_object, env_object, ArgvOption, no_argv, not_an_array, argv_array,
  PrefixOption, no_prefix, not_a_string, prefix_string, WorkersOptions, ShutdownOptions, Section,
  missing, not_plain, given, OrchestratorConfig, Validated, invalid, valid,
}
use Numbers.{Num, not_a_number, infinite, finite, whole, is_finite, is_integer, lt, ge, plus}
use Text.{is_blank, has_colon, is_dangerous}
use clusterkit.Common.{
  ℕ, Bool, true, false, not, ◌&&◌, ◌||◌, Option, none, some, List, [], ◌∷◌, ◌++◌, if◌then◌else◌,
  anyb,
}
use clusterkit.EnvVars.{EnvVars, is_safe_env}
use clusterkit.Config.{
  Count, auto, fixed, WorkersConfig, RestartConfig, ShutdownConfig, HealthConfig, ResolvedConfig,
}

-- A check throws for a field (`some`) or passes.
abbrev pub throw_if : Bool → String → Option String
throw_if b field = if b then some field else none

-- The first check that throws.
unfoldable pub first : List (Option String) → Option String
first [] = none
first (none ∷ cs) = first cs
first (some f ∷ cs) = some f

abbrev pub infinity : Num
infinity = infinite false

unfoldable pub assert_range : String → Num → Num → Num → Option String
assert_range field lo hi x = throw_if (not (is_finite x) || (lt x lo || lt hi x)) field

unfoldable pub assert_positive_integer : String → Num → Option String
assert_positive_integer field x = throw_if (not (is_integer x) || lt x (whole 1)) field

unfoldable pub assert_non_negative_integer : String → Num → Option String
assert_non_negative_integer field x = throw_if (not (is_integer x) || lt x (whole 0)) field

unfoldable pub assert_plain_object : {A : Type 0} → Section A → String → Option String
assert_plain_object missing field = none
assert_plain_object not_plain field = some field
assert_plain_object (given a) field = none

-- `if (x !== undefined) ...`.
unfoldable pub if_given : (Num → Option String) → Option Num → Option String
if_given check none = none
if_given check (some x) = check x

-- `x ?? d`.
unfoldable pub default_to : Option Num → ℕ → Num
default_to none d = whole d
default_to (some x) d = x

abbrev pub bad_arg : Option String → Bool
bad_arg none = true
bad_arg (some s) = is_blank s

abbrev pub dangerous_arg : Option String → Bool
dangerous_arg none = false
dangerous_arg (some s) = is_dangerous s

unfoldable pub validate_exec_argv : ArgvOption → Option String
validate_exec_argv no_argv = none
validate_exec_argv not_an_array = some "workers.execArgv"
validate_exec_argv (argv_array args) =
    throw_if (anyb bad_arg args || anyb dangerous_arg args) "workers.execArgv"

abbrev pub is_zero : Num → Bool
is_zero x = is_finite x && (not (lt x (whole 0)) && not (lt (whole 0) x))

unfoldable pub check_count : Option (Count Num) → Option String
check_count none = none
check_count (some auto) = none
check_count (some (fixed x)) = assert_positive_integer "workers.count" x

unfoldable pub check_max_age : Num → Option String
check_max_age x =
    if is_zero x then none else assert_range "workers.maxAgeMs" (whole 1000) infinity x

unfoldable pub check_env : EnvOption → Option String
check_env no_env = none
check_env not_an_object = some "workers.env"
check_env (env_object m) = throw_if (not (is_safe_env (some m))) "workers.env"

unfoldable pub validate_workers_options : WorkersOptions → List (Option String)
unfolding check_count
validate_workers_options w =
    check_count w.count
    ∷ if_given check_max_age w.max_age_ms
    ∷ if_given (assert_non_negative_integer "workers.maxRssMb") w.max_rss_mb
    ∷ check_env w.env
    ∷ validate_exec_argv w.exec_argv
    ∷ []

abbrev pub range : String → ℕ → ℕ → Option Num → Option String
range field lo hi x = if_given (assert_range field (whole lo) (whole hi)) x

unfoldable pub validate_restart_options : RestartConfig (Option Num) → List (Option String)
validate_restart_options r =
    if_given (assert_positive_integer "restart.crashThreshold") r.crash_threshold
    ∷ range "restart.crashWindowMs" 1000 600000 r.crash_window_ms
    ∷ range "restart.backoffMs" 0 60000 r.backoff_ms
    ∷ range "restart.maxBackoffMs" 1000 300000 r.max_backoff_ms
    ∷ range "restart.backoffMultiplier" 1 10 r.backoff_multiplier
    ∷ range "restart.stabilityWindowMs" 0 600000 r.stability_window_ms
    ∷ if_given (assert_non_negative_integer "restart.bootFailQuarantine") r.boot_fail_quarantine
    ∷ []

unfoldable pub check_prefix : PrefixOption → Option String
check_prefix no_prefix = none
check_prefix not_a_string = some "shutdown.messagePrefix"
check_prefix (prefix_string s) = throw_if (is_blank s || has_colon s) "shutdown.messagePrefix"

unfoldable pub validate_shutdown_options : ShutdownOptions → List (Option String)
validate_shutdown_options s =
    range "shutdown.timeoutMs" 1000 60000 s.timeout_ms
    ∷ range "shutdown.ackTimeoutMs" 500 30000 s.ack_timeout_ms
    ∷ range "shutdown.sigtermDelayMs" 100 10000 s.sigterm_delay_ms
    ∷ range "shutdown.sigintDelayMs" 100 10000 s.sigint_delay_ms
    ∷ check_prefix s.message_prefix
    ∷ []

unfoldable pub check_heartbeat : Num → Option String
check_heartbeat x =
    throw_if ((not (is_integer x) || lt x (whole 0)) || (lt (whole 0) x && lt x (whole 100)))
      "health.heartbeatMs"

unfoldable pub validate_health_options : HealthConfig (Option Num) → List (Option String)
validate_health_options h =
    if_given check_heartbeat h.heartbeat_ms
    ∷ if_given (assert_non_negative_integer "health.wedgedTimeoutMs") h.wedged_timeout_ms
    ∷ if_given (assert_non_negative_integer "health.degradedAfterMs") h.degraded_after_ms
    ∷ if_given (assert_non_negative_integer "health.maxEventLoopLagMs") h.max_event_loop_lag_ms
    ∷ if_given (assert_positive_integer "health.lagRecycleBeats") h.lag_recycle_beats
    ∷ if_given (assert_non_negative_integer "health.lagSpikeMs") h.lag_spike_ms
    ∷ []

unfoldable pub validate_cross_field_constraints : ResolvedConfig Num → List (Option String)
validate_cross_field_constraints r =
    let nought = whole 0 in
    throw_if
      (ge (plus r.shutdown.sigterm_delay_ms r.shutdown.sigint_delay_ms) r.shutdown.timeout_ms)
      "shutdown.timeoutMs"
    ∷ throw_if (ge r.shutdown.ack_timeout_ms r.shutdown.timeout_ms) "shutdown.ackTimeoutMs"
    ∷ throw_if (lt r.restart.max_backoff_ms r.restart.backoff_ms) "restart.maxBackoffMs"
    ∷ throw_if
        (lt nought r.health.wedged_timeout_ms
          && (ge nought r.health.heartbeat_ms
              || lt r.health.wedged_timeout_ms (plus r.health.heartbeat_ms r.health.heartbeat_ms)))
        "health.wedgedTimeoutMs"
    ∷ throw_if (lt nought r.health.max_event_loop_lag_ms && ge nought r.health.heartbeat_ms)
        "health.maxEventLoopLagMs"
    ∷ throw_if (lt nought r.health.lag_spike_ms && ge nought r.health.heartbeat_ms)
        "health.lagSpikeMs"
    ∷ []
