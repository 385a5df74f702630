-- ===== src/Validation/Given.antt =====
-- A resolved configuration of packages/worker-manager/src/validation.ts as options of a new call.
use Prim.Native.String.{String}
use clusterkit.Common.{Option, none, some, List, [], ◌∷◌, map}
use clusterkit.EnvVars.{EnvVars}
use clusterkit.Config.{ResolvedConfig, WorkersConfig, RestartConfig, ShutdownConfig, HealthConfig}
use clusterkit.Validation.Numbers.{Num}
use clusterkit.Validation.Record.{
  EnvOption, no_env, env_object, ArgvOption, no_argv, argv_array, prefix_string, WorkersOptions,
  ShutdownOptions, given, OrchestratorConfig,
}

abbrev pub env_given : Option EnvVars → EnvOption
env_given none = no_env
env_given (some m) = env_object m

abbrev pub argv_given : Option (List String) → ArgvOption
argv_given none = no_argv
argv_given (some args) = argv_array (map some args)

abbrev pub workers_given : WorkersConfig Num → WorkersOptions
workers_given w = record {
  count = some w.count;
  env = env_given w.env;
  exec_argv = argv_given w.exec_argv;
  max_age_ms = some w.max_age_ms;
  max_rss_mb = some w.max_rss_mb;
}

abbrev pub restart_given : RestartConfig Num → RestartConfig (Option Num)
restart_given r = record {
  crash_threshold = some r.crash_threshold;
  crash_window_ms = some r.crash_window_ms;
  backoff_ms = some r.backoff_ms;
  max_backoff_ms = some r.max_backoff_ms;
  backoff_multiplier = some r.backoff_multiplier;
  stability_window_ms = some r.stability_window_ms;
  boot_fail_quarantine = some r.boot_fail_quarantine;
}

abbrev pub shutdown_given : ShutdownConfig Num → ShutdownOptions
shutdown_given s = record {
  timeout_ms = some s.timeout_ms;
  ack_timeout_ms = some s.ack_timeout_ms;
  message_prefix = prefix_string s.message_prefix;
  sigterm_delay_ms = some s.sigterm_delay_ms;
  sigint_delay_ms = some s.sigint_delay_ms;
}

abbrev pub health_given : HealthConfig Num → HealthConfig (Option Num)
health_given h = record {
  heartbeat_ms = some h.heartbeat_ms;
  wedged_timeout_ms = some h.wedged_timeout_ms;
  degraded_after_ms = some h.degraded_after_ms;
  max_event_loop_lag_ms = some h.max_event_loop_lag_ms;
  lag_recycle_beats = some h.lag_recycle_beats;
  lag_spike_ms = some h.lag_spike_ms;
}

-- A resolved configuration, passed as options: the keys are those of the returned object.
abbrev pub options_from : ResolvedConfig Num → OrchestratorConfig
options_from r = record {
  keys = "logger" ∷ "workers" ∷ "restart" ∷ "shutdown" ∷ "health" ∷ "clusterModule" ∷ [];
  workers = given (workers_given r.workers);
  restart = given (restart_given r.restart);
  shutdown = given (shutdown_given r.shutdown);
  health = given (health_given r.health);
}
