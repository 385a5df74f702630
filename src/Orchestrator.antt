-- ===== src/Orchestrator.antt =====
-- packages/worker-manager/src/orchestrator.ts: the handlers of the primary, which join the
-- services. The environment's side (deaths, timers, messages, calls of the public methods) is in
-- Orchestrator/Steps.antt.
pub mod Record
pub mod Roll
pub mod Steps
pub mod Preserve
pub mod Invariant
pub mod Safety
pub mod Exits
pub mod Bailout
use Record.{System, with_host, with_coord}
use clusterkit.Common.{
  ℕ, zero, suc, ◌+◌, ◌-◌, Bool, true, false, not, ◌&&◌, ◌||◌, Option, none, some, List, [], ◌∷◌,
  if◌then◌else◌, ltb, leb, ◌==◌, has, add, delete, lookup, insert, remove, length,
}
use clusterkit.Config.{
  RecycleReason, max_age, rss, lag, wedged, Event, worker_online, worker_exit, worker_crash,
  worker_recycle, worker_draining, worker_health, worker_wedged, fleet_degraded, fleet_recovered,
  shutdown_complete,
}
use clusterkit.Crash.{is_tripped, count, prune}
use clusterkit.Fleet.Record.{Host, Env, emit}
use clusterkit.Fleet.{fork_workers, get_worker_age, cleanup_worker, stop_recycling}
use clusterkit.Fleet.Recycle.{recycle_worker_now, start_recycling}
use clusterkit.Restart.Record.{State, RestartCoordinator}
use clusterkit.Restart
use clusterkit.Health.{HealthMonitor, Request, report, wedge, recycle}
use clusterkit.Health
use clusterkit.Shutdown.{WorkerRun}
use clusterkit.Shutdown

-- `handleWorkerRecycle`: the events, then the drain.
unfoldable pub handle_worker_recycle : ℕ → ℕ → Host → Host
handle_worker_recycle old new h =
    let reason : RecycleReason = elim (lookup old h.recycle_reasons) [
      | none ↦ max_age
      | some r ↦ r
    ] in
    record h {
      recycle_reasons = remove old h.recycle_reasons;
      events =
          worker_recycle old (get_worker_age old h) reason ∷ worker_draining old reason ∷ h.events;
      drains = (old, new) ∷ h.drains;
    }

-- `triggerWorkerRecycle`: a declined recycle leaves no reason behind.
unfoldable pub trigger_worker_recycle : Env → ℕ → RecycleReason → Host → Host
trigger_worker_recycle e id reason h =
    let noted : Host = record h { recycle_reasons = insert id reason h.recycle_reasons } in
    let (ok, h') = recycle_worker_now e handle_worker_recycle id noted in
    if has id h.recycling
    then h
    else if ok
    then h'
    else record h' { recycle_reasons = remove id h'.recycle_reasons }

-- What the health monitor asks for.
unfoldable pub perform : Env → Request → Host → Host
perform e (report r) h = emit (worker_health r) h
perform e (wedge id silent) h = if has id h.recycling then h else emit (worker_wedged id silent) h
perform e (recycle id reason) h = trigger_worker_recycle e id reason h

unfoldable pub perform_all : Env → List Request → Host → Host
perform_all e [] h = h
perform_all e (q ∷ qs) h = perform_all e qs (perform e q h)

-- `recomputeFleetHealth`.
unfoldable pub recompute_fleet_health : Env → System → System
recompute_fleet_health e s =
    let active = s.host.metrics.active_workers in
    let disarmed : System = record s { degraded_timer = false } in
    if s.host.shutting_down || leb e.cfg.health.degraded_after_ms 0
    then s
    else if leb e.target active
    then (if s.degraded
        then with_host
            (emit (fleet_recovered e.target active (s.host.now - s.degraded_since)) s.host)
            (record disarmed { degraded = false })
        else disarmed)
    else if s.degraded || s.degraded_timer
    then s
    else record s { degraded_since = s.host.now; degraded_timer = true }

-- The callback of `degradedTimer`.
unfoldable pub degraded_timer_fires : Env → System → System
degraded_timer_fires e s =
    let fired : System = record s { degraded_timer = false } in
    if s.host.shutting_down
    then fired
    else with_host (emit (fleet_degraded e.target s.host.metrics.active_workers) s.host)
        (record fired { degraded = true })

-- `handleWorkerOnline`.
unfoldable pub handle_worker_online : Env → ℕ → System → System
handle_worker_online e id s =
    let h : Host = record s.host {
      exit_code = if leb e.target s.host.metrics.active_workers then 0 else s.host.exit_code;
    } in
    recompute_fleet_health e (record s {
      online = add id s.online;
      core = record {
        host = emit (worker_online id) h;
        coord = Restart.on_worker_online e s.coord;
      };
    })

abbrev forget : ℕ → System → System
forget id s = record s { online = delete id s.online; monitor = Health.on_worker_exit id s.monitor }

abbrev gracefully : System → System
gracefully s =
    with_host
      (record s.host {
        metrics = record s.host.metrics {
          graceful_shutdowns = suc s.host.metrics.graceful_shutdowns;
        };
      })
      s

-- A crash: without a prior `online` it is a boot failure.
unfoldable pub handle_crash : Env → ℕ → System → System
handle_crash e id s =
    let boot_failed = not (has id s.online) in
    let left = forget id s in
    let told : State = record {
      host = emit (worker_crash id) s.host;
      coord = Restart.cancel_backoff_reset s.coord;
    } in
    record left {
      core = Restart.on_worker_crash e id boot_failed (ltb 0 (length left.online)) told;
    }

-- `handleWorkerExit` of the orchestrator; `graceful` is `exitedAfterDisconnect`.
unfoldable pub handle_worker_exit : Env → ℕ → Bool → System → System
handle_worker_exit e id graceful s =
    let told = with_host (emit (worker_exit id graceful) s.host) s in
    let judged = recompute_fleet_health e told in
    if s.host.shutting_down
    then (if graceful then gracefully (forget id told) else forget id told)
    else if graceful
    then gracefully (forget id judged)
    else handle_crash e id judged

-- The cluster's 'exit' event: the worker manager cleans up first.
unfoldable pub on_cluster_exit : Env → ℕ → Bool → System → System
on_cluster_exit e id graceful s =
    handle_worker_exit e id graceful (with_host (cleanup_worker id s.host) s)

-- `resetCircuitBreaker`.
unfoldable pub reset_circuit_breaker : Env → System → System
reset_circuit_breaker e s =
    let c = Restart.reset s.coord in
    let h : Host = record s.host { ready = true; exit_code = 0 } in
    let missing = e.target - s.host.metrics.active_workers in
    if s.host.shutting_down
    then with_coord c s
    else if s.has_forked
    then record s {
      core = Restart.request_capacity_refill e missing (record { host = h; coord = c });
    }
    else record s { core = record { host = h; coord = c } }

unfoldable pub set_not_ready : System → System
set_not_ready s = with_host (record s.host { ready = false }) s

unfoldable pub set_ready : System → System
set_ready s = if s.host.shutting_down then s else with_host (record s.host { ready = true }) s

-- `startPrimary`: the handlers before the first fork. False where a fork throws.
unfoldable pub start_primary : Env → System → Bool × System
start_primary e s =
    let (ok, h) = fork_workers e e.target s.host in
    let forked : System = with_host h (record s { handlers = true; has_forked = true }) in
    if ok
    then (
      true,
      record (with_host (start_recycling e h) forked) {
        cleaning = true;
        monitor = Health.start_wedged_watch e.cfg s.monitor;
      },
    )
    else (false, forked)

-- The crash tracker's periodic cleanup.
unfoldable pub cleanup_interval : System → System
cleanup_interval s =
    if s.host.shutting_down
    then s
    else with_coord (record s.coord { tracker = prune s.host.now s.coord.tracker }) s

-- `shutdownPrimary` up to the wait for the workers.
unfoldable pub begin_shutdown : System → System
begin_shutdown s =
    let c = Restart.cancel_backoff_reset s.coord in
    if s.host.shutting_down then s else record s {
      core = record {
        host = Shutdown.begin (record (stop_recycling s.host) { ready = false });
        coord = record c { hold = false };
      };
      monitor = Health.stop s.monitor;
      closing = true;
      cleaning = false;
      degraded_timer = false;
      degraded = false;
      handlers = false;
    }

-- The rest of it: the workers are gone, the user's callbacks and the plugins' `uninstall` have
-- finished, or the failsafe has fired and the process exits at once.
unfoldable pub finish_shutdown : Env → List WorkerRun → Bool → System → System
finish_shutdown e ws timed_out s =
    let over = Shutdown.conclude e.cfg ws s.host in
    let left : System = record s { closing = false; listening = false } in
    if not s.closing
    then s
    else if timed_out
    then with_host (record over { exit_code = 1 }) left
    else with_host (record (stop_recycling (emit shutdown_complete over)) { exit_code = 0 }) left
