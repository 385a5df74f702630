-- ===== src/Restart/Loop.antt =====
-- packages/worker-manager/src/restart-coordinator.ts: the restart loop, from one suspension to the
-- next: `wake` is the end of a backoff wait, `resume` the loop's next turn.
use clusterkit.Restart.Record.{
  State, RestartCoordinator, RestartQueueEntry, Phase, idle, yielded, sleeping,
}
use clusterkit.Common.{
  ℕ, suc, ◌+◌, ◌-◌, ◌*◌, min, Bool, true, false, ◌||◌, Option, none, some, List, [], ◌∷◌, ◌++◌,
  if◌then◌else◌, ltb, leb, ◌==◌,
}
use clusterkit.Config.{worker_restart}
use clusterkit.Crash.{is_tripped}
use clusterkit.Fleet.Record.{Host, Env, emit}
use clusterkit.Fleet.{fork_worker, get_recycling_count}

abbrev pub max_consecutive_fork_failures : ℕ
max_consecutive_fork_failures = 3

-- The event-loop hold.
abbrev pub arm_empty_fleet_hold : State → State
arm_empty_fleet_hold s =
    if s.coord.hold || s.host.shutting_down
    then s
    else record s { coord = record s.coord { hold = true } }

abbrev pub release_empty_fleet_hold : RestartCoordinator → RestartCoordinator
release_empty_fleet_hold c = record c { hold = false }

-- `isTripped` prunes the tracker.
abbrev pub breaker_open : State → Bool
breaker_open s = (is_tripped s.host.now s.coord.tracker).1

abbrev pub pruned : State → State
pruned s = record s {
  coord = record s.coord { tracker = (is_tripped s.host.now s.coord.tracker).0 };
}

-- `Math.max(0, target - (active - recycling))`.
abbrev pub missing_workers : Env → Host → ℕ
missing_workers e h = e.target + get_recycling_count h - h.metrics.active_workers

-- After a fork: a failure counts and re-queues, the third gives up; a success raises the backoff.
unfoldable pub after_fork :
    Env → RestartQueueEntry → ℕ → Option ℕ × Host → RestartCoordinator → State
after_fork e x delay (none, h) c =
    let failures = suc c.fork_failures in
    if leb max_consecutive_fork_failures failures
    then record {
      host = record h { exit_code = 1 };
      coord = record c { fork_failures = failures; hold = false; queue = []; phase = yielded };
    }
    else record {
      host = h;
      coord = record c { fork_failures = failures; queue = c.queue ++ x ∷ []; phase = yielded };
    }
after_fork e x delay (some id, h) c = record {
  host =
      emit (worker_restart id) (record h {
        metrics = record h.metrics { worker_restarts = suc h.metrics.worker_restarts };
      });
  coord = record c {
    fork_failures = 0;
    backoff_delay =
        min
          (if ltb 0 delay
            then delay * e.cfg.restart.backoff_multiplier
            else e.cfg.restart.backoff_ms)
          e.cfg.restart.max_backoff_ms;
    phase = yielded;
  };
}

-- `restartWorkerWithBackoff` after its wait.
unfoldable pub fork_attempt : Env → RestartQueueEntry → ℕ → State → State
unfolding after_fork
fork_attempt e x delay s =
    let t = pruned s in
    if breaker_open s
    then record t { coord = record t.coord { phase = yielded } }
    else after_fork e x delay (fork_worker e none t.host) t.coord

-- The delay that the next restart waits.
abbrev pub next_delay : Env → RestartCoordinator → ℕ
next_delay e c = if ltb 0 c.backoff_delay then c.backoff_delay else e.cfg.restart.backoff_ms

-- `restartWorkerWithBackoff` up to its wait, and beyond where there is none.
unfoldable pub begin_restart : Env → RestartQueueEntry → State → State
begin_restart e x s =
    let delay = next_delay e s.coord in
    if ltb 0 delay
    then record s { coord = record s.coord { phase = sleeping x delay } }
    else fork_attempt e x delay s

-- The loop is left: `restartLoopRunning = false`. The queue is empty on each way out, so the
-- re-kick of the `finally` block does not happen.
abbrev pub leave_loop : State → State
leave_loop s = record s { coord = record s.coord { queue = []; phase = idle } }

-- The `while` loop of `processRestartQueue`, up to its next `await` or its end.
unfoldable pub advance : Env → List RestartQueueEntry → State → State
advance e [] s = leave_loop s
advance e (x ∷ rest) s =
    let t = pruned s in
    let skip = advance e rest t in
    if s.host.shutting_down
    then leave_loop s
    else if breaker_open s
    then leave_loop t
    else if missing_workers e s.host == 0
    then skip
    else begin_restart e x (record t { coord = record t.coord { queue = rest } })

-- `processRestartQueue`, by the phase: a loop that runs already is left to itself.
unfoldable pub process_phase : Env → Phase → State → State
process_phase e idle s = advance e s.coord.queue s
process_phase e yielded s = s
process_phase e (sleeping x d) s = s

unfoldable pub process_restart_queue : Env → State → State
unfolding process_phase
process_restart_queue e s = process_phase e s.coord.phase s

-- The backoff wait is over.
unfoldable pub wake_phase : Env → Phase → State → State
wake_phase e (sleeping x delay) s =
    if s.host.shutting_down
    then record s { coord = record s.coord { phase = yielded } }
    else fork_attempt e x delay s
wake_phase e yielded s = s
wake_phase e idle s = s

unfoldable pub wake : Env → State → State
unfolding wake_phase
wake e s = wake_phase e s.coord.phase s

-- The loop's next turn.
unfoldable pub resume_phase : Env → Phase → State → State
resume_phase e yielded s = advance e s.coord.queue s
resume_phase e idle s = s
resume_phase e (sleeping x d) s = s

unfoldable pub resume : Env → State → State
unfolding resume_phase
resume e s = resume_phase e s.coord.phase s
