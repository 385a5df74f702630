-- ===== src/Restart.antt =====
-- packages/worker-manager/src/restart-coordinator.ts: the restart queue, its backoff, the fork
-- failures, the boot-loop quarantine and the reactions to a breaker trip. What the orchestrator
-- injects (`onRestarted`, `onBreakerTripped`, `onQuarantined`) is written out where it is called.
-- The loop itself is in Restart/Loop.
pub mod Loop
pub mod Record
pub mod Rounds
pub mod Breaker
pub mod Backoff
pub mod Boot
pub mod Preserve
pub mod Replace
use clusterkit.Restart.Record.{
  State, RestartCoordinator, RestartQueueEntry, refill, crash, Phase, idle, yielded, sleeping,
}
use clusterkit.Common.{
  ℕ, zero, suc, ◌+◌, ◌-◌, ◌*◌, min, Bool, true, false, not, ◌&&◌, ◌||◌, Option, none, some, List,
  [], ◌∷◌, ◌++◌, if◌then◌else◌, ltb, leb, ◌==◌,
}
use clusterkit.Config.{Event, worker_restart, worker_quarantined, breaker_tripped}
use clusterkit.Crash.{record_crash, is_tripped, count}
use clusterkit.Crash
use clusterkit.Fleet.Record.{Host, Env, emit}
use clusterkit.Fleet.{fork_worker, get_recycling_count}
use clusterkit.Restart.Loop.{
  max_consecutive_fork_failures, arm_empty_fleet_hold, release_empty_fleet_hold, breaker_open,
  pruned, missing_workers, after_fork, fork_attempt, next_delay, begin_restart, leave_loop, advance,
  process_phase, process_restart_queue, wake_phase, wake, resume_phase, resume,
}

-- The breaker has tripped: no restart, exit code 1, one warning for each trip.
unfoldable pub on_trip : Env → State → State
on_trip e s =
    let c = s.coord in
    let (counted, crashes) = count s.host.now c.tracker in
    record {
      host = emit (breaker_tripped crashes e.cfg.restart.crash_window_ms) (record s.host {
        exit_code = 1;
        ready = false;
        warnings = if c.warning_emitted then s.host.warnings else suc s.host.warnings;
        metrics = record s.host.metrics {
          crash_loop_backoffs = suc s.host.metrics.crash_loop_backoffs;
        };
      });
      coord = record c { tracker = counted; hold = false; warning_emitted = true };
    }

-- Queue a restart, hold the loop while the fleet is empty, and kick.
unfoldable pub enqueue : Env → List RestartQueueEntry → State → State
enqueue e xs s =
    let queued : State = record s { coord = record s.coord { queue = s.coord.queue ++ xs } } in
    process_restart_queue e
      (if s.host.metrics.active_workers == 0 then arm_empty_fleet_hold queued else queued)

-- The crash is recorded, and an empty fleet flags a failure exit code.
abbrev pub recorded : State → State
recorded s = record {
  host = record s.host {
    exit_code = if s.host.metrics.active_workers == 0 then 1 else s.host.exit_code;
  };
  coord = record s.coord { tracker = record_crash s.host.now s.coord.tracker };
}

abbrev pub warning_rearmed : State → State
warning_rearmed s = record s { coord = record s.coord { warning_emitted = false } }

-- From the crash record on.
unfoldable pub record_and_restart : Env → ℕ → State → State
record_and_restart e id s =
    let t = pruned (recorded s) in
    if breaker_open (recorded s) then on_trip e t else enqueue e (crash id ∷ []) (warning_rearmed t)

-- A boot failure that counts towards quarantine.
unfoldable pub on_boot_failure : Env → ℕ → State → State
on_boot_failure e id s =
    let failures = suc s.coord.boot_failures in
    let c : RestartCoordinator = record (s.coord) { boot_failures = failures } in
    if leb e.cfg.restart.boot_fail_quarantine failures
    then record {
      host = emit (worker_quarantined failures) s.host;
      coord = record c { quarantined_slots = suc c.quarantined_slots };
    }
    else record_and_restart e id (record s { coord = c })

-- `onWorkerCrash(workerId, code, signal, bootFailed)`, with `hasOnlineWorkers()`.
unfoldable pub on_worker_crash : Env → ℕ → Bool → Bool → State → State
on_worker_crash e id boot_failed has_online s =
    if boot_failed && (ltb 0 e.cfg.restart.boot_fail_quarantine && has_online)
    then on_boot_failure e id s
    else record_and_restart e id s

-- `onWorkerOnline` with `scheduleBackoffReset`.
unfoldable pub on_worker_online : Env → RestartCoordinator → RestartCoordinator
on_worker_online e c =
    let c' : RestartCoordinator = record c { boot_failures = 0; hold = false } in
    if ltb 0 c.backoff_delay
    then (if e.cfg.restart.stability_window_ms == 0
        then record c' { backoff_delay = 0 }
        else record c' { reset_timer = true })
    else c'

unfoldable pub cancel_backoff_reset : RestartCoordinator → RestartCoordinator
cancel_backoff_reset c = record c { reset_timer = false }

-- The callback of `backoffResetTimer`.
unfoldable pub backoff_reset_fires : State → State
backoff_reset_fires s =
    let c : RestartCoordinator = record (s.coord) { reset_timer = false } in
    record s { coord = if s.host.shutting_down then c else record c { backoff_delay = 0 } }

unfoldable pub reset : RestartCoordinator → RestartCoordinator
reset c = record c { tracker = Crash.reset c.tracker; backoff_delay = 0; fork_failures = 0 }

unfoldable pub reset_quarantine : RestartCoordinator → RestartCoordinator
reset_quarantine c = record c { quarantined_slots = 0; boot_failures = 0 }

abbrev refills : ℕ → List RestartQueueEntry
refills zero = []
refills (suc n) = refill ∷ refills n

unfoldable pub request_capacity_refill : Env → ℕ → State → State
unfolding enqueue
request_capacity_refill e n s = enqueue e (refills n) s

unfoldable pub note_fork_failure : RestartCoordinator → RestartCoordinator
note_fork_failure c = record c { fork_failures = suc c.fork_failures }

unfoldable pub note_fork_success : RestartCoordinator → RestartCoordinator
note_fork_success c = record c { fork_failures = 0 }

abbrev pub is_fork_env_unrecoverable : RestartCoordinator → Bool
is_fork_env_unrecoverable c = leb max_consecutive_fork_failures c.fork_failures
