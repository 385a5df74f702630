-- ===== src/Restart/Record.antt =====
-- packages/worker-manager/src/restart-coordinator.ts: the coordinator's fields. Where the loop of
-- `processRestartQueue` stands is a phase: `restartLoopRunning` is true in all but `idle`.
use clusterkit.Common.{ℕ, Bool, false, List, []}
use clusterkit.Crash.{CrashTracker, new}
use clusterkit.Config.{ResolvedConfig}
use clusterkit.Fleet.Record.{Host}

pub data RestartQueueEntry : Type 0 where
  refill : RestartQueueEntry
  crash : ℕ → RestartQueueEntry

-- `sleeping entry delay`: in the backoff wait of `restartWorkerWithBackoff`.
-- `yielded`: that call has returned, and the loop is about to read the queue again.
pub data Phase : Type 0 where
  idle yielded : Phase
  sleeping : RestartQueueEntry → ℕ → Phase

pub record RestartCoordinator : Type 0 where
  pub tracker : CrashTracker
  pub phase : Phase
  pub queue : List RestartQueueEntry
  pub backoff_delay : ℕ
  pub reset_timer : Bool  -- backoffResetTimer is set
  pub fork_failures : ℕ
  pub boot_failures : ℕ
  pub quarantined_slots : ℕ
  pub warning_emitted : Bool
  pub hold : Bool  -- emptyFleetHold is set

-- The coordinator beside what it shares with the others.
pub record State : Type 0 where
  pub host : Host
  pub coord : RestartCoordinator

unfoldable pub start_coord : ResolvedConfig ℕ → RestartCoordinator
start_coord cfg = record {
  tracker = new cfg.restart.crash_threshold cfg.restart.crash_window_ms;
  phase = idle;
  queue = [];
  backoff_delay = 0;
  reset_timer = false;
  fork_failures = 0;
  boot_failures = 0;
  quarantined_slots = 0;
  warning_emitted = false;
  hold = false;
}
