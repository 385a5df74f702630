-- ===== src/Config.antt =====
-- packages/worker-manager/src/types.ts: the resolved configuration, metrics and event types.
-- The configuration is over a type of numbers: validation works with JavaScript's, the
-- coordinators with natural numbers (whole milliseconds, megabytes and counts).
use Prim.Native.String.{String}
use clusterkit.Common.{ℕ, Bool, Option, List}
use clusterkit.EnvVars.{EnvVars}

pub data Count (N : Type 0) : Type 0 where
  auto : Count N
  fixed : N → Count N

pub record WorkersConfig (N : Type 0) : Type 0 where
  pub count : Count N
  pub env : Option EnvVars
  pub exec_argv : Option (List String)
  pub max_age_ms : N
  pub max_rss_mb : N

pub record RestartConfig (N : Type 0) : Type 0 where
  pub crash_threshold : N
  pub crash_window_ms : N
  pub backoff_ms : N
  pub max_backoff_ms : N
  pub backoff_multiplier : N
  pub stability_window_ms : N
  pub boot_fail_quarantine : N

pub record ShutdownConfig (N : Type 0) : Type 0 where
  pub timeout_ms : N
  pub ack_timeout_ms : N
  pub message_prefix : String
  pub sigterm_delay_ms : N
  pub sigint_delay_ms : N

pub record HealthConfig (N : Type 0) : Type 0 where
  pub heartbeat_ms : N
  pub wedged_timeout_ms : N
  pub degraded_after_ms : N
  pub max_event_loop_lag_ms : N
  pub lag_recycle_beats : N
  pub lag_spike_ms : N

pub record ResolvedConfig (N : Type 0) : Type 0 where
  pub workers : WorkersConfig N
  pub restart : RestartConfig N
  pub shutdown : ShutdownConfig N
  pub health : HealthConfig N

pub record WorkerMetrics : Type 0 where
  pub worker_restarts : ℕ
  pub active_workers : ℕ
  pub crash_loop_backoffs : ℕ
  pub graceful_shutdowns : ℕ
  pub forced_kills : ℕ

pub data RecycleReason : Type 0 where
  max_age rss wedged lag : RecycleReason

pub record WorkerHealthReport : Type 0 where
  pub worker_id : ℕ
  pub rss : ℕ
  pub heap_used : ℕ
  pub event_loop_lag_ms : ℕ

-- `OrchestratorEvents`, without process ids, exit codes and signal names, on which nothing depends.
pub data Event : Type 0 where
  worker_online worker_crash worker_restart worker_quarantined : ℕ → Event
  worker_exit : ℕ → Bool → Event
  worker_recycle : ℕ → ℕ → RecycleReason → Event
  worker_draining : ℕ → RecycleReason → Event
  shutdown_start shutdown_complete : Event
  breaker_tripped : ℕ → ℕ → Event
  restart_start restart_complete : List ℕ → Event
  worker_health : WorkerHealthReport → Event
  worker_wedged : ℕ → ℕ → Event
  fleet_degraded : ℕ → ℕ → Event
  fleet_recovered : ℕ → ℕ → ℕ → Event
