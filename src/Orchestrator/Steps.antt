-- ===== src/Orchestrator/Steps.antt =====
-- packages/worker-manager/src/orchestrator.ts: everything that can happen to a primary that has
-- been started (a second call of `run` throws, and the first has forked its workers), one at a time,
-- in any order.
use clusterkit.Common.{
  ℕ, ◌+◌, Bool, Option, none, some, List, [], ◌∷◌, if◌then◌else◌, has, delete, keys,
}
use clusterkit.EnvVars.{EnvVars}
use clusterkit.Fleet.Record.{Env}
use clusterkit.Fleet.Recycle.{sweep, recycle_timer}
use clusterkit.Restart.Rounds.{turn}
use clusterkit.Restart
use clusterkit.Health.{Message}
use clusterkit.Health
use clusterkit.Shutdown.{WorkerRun}
use clusterkit.Orchestrator.Record.{System, with_host}
use clusterkit.Orchestrator.{
  handle_worker_recycle, perform_all, degraded_timer_fires, handle_worker_online, on_cluster_exit,
  reset_circuit_breaker, set_ready, set_not_ready, cleanup_interval, begin_shutdown,
  finish_shutdown,
}
use clusterkit.Orchestrator.Roll.{restart_workers, roll_exit, roll_pause}

pub data Input : Type 0 where
  time_passes dies comes_online recycle_due : ℕ → Input
  exits : ℕ → Bool → Input
  heartbeat : ℕ → Message → Input
  restart_turn backoff_reset_due degraded_due watch_round sweep_round cleanup_round : Input
  roll_exits roll_pauses reset_call ready_call not_ready_call shutdown_call : Input
  restart_call : Option EnvVars → (ℕ → Bool) → ℕ → Input
  shutdown_done : List WorkerRun → Bool → Input

abbrev listened : System → System → System
listened s s' = if s.listening then s' else s

-- A timer that is not set does not fire, and an 'exit' event comes from a tracked worker, once.
unfoldable pub step : Env → Input → System → System
step e (time_passes dt) s = with_host (record s.host { now = s.host.now + dt }) s
step e (dies id) s = with_host (record s.host { live = delete id s.host.live }) s
step e (comes_online id) s = listened s (handle_worker_online e id s)
step e (recycle_due id) s =
    if has id s.host.pending_recycles
    then with_host (recycle_timer e handle_worker_recycle id s.host) s
    else s
step e (exits id graceful) s =
    if has id (keys s.host.start_times) then listened s (on_cluster_exit e id graceful s) else s
step e (heartbeat id msg) s =
    let (m, q) = Health.on_worker_message e.cfg s.host.now s.host.shutting_down id msg s.monitor in
    with_host (perform_all e q s.host) (record s { monitor = m })
step e restart_turn s = record s { core = turn e s.core }
step e backoff_reset_due s =
    if s.coord.reset_timer then record s { core = Restart.backoff_reset_fires s.core } else s
step e degraded_due s = if s.degraded_timer then degraded_timer_fires e s else s
step e watch_round s =
    let (m, q) = Health.wedged_watch e.cfg s.host.now s.host.shutting_down s.monitor in
    if s.monitor.watching then with_host (perform_all e q s.host) (record s { monitor = m }) else s
step e sweep_round s = if s.host.sweeping then with_host (sweep e s.host) s else s
step e cleanup_round s = if s.cleaning then cleanup_interval s else s
step e roll_exits s = roll_exit e s
step e roll_pauses s = roll_pause e s
step e reset_call s = reset_circuit_breaker e s
step e ready_call s = set_ready s
step e not_ready_call s = set_not_ready s
step e shutdown_call s = begin_shutdown s
step e (restart_call overlay filter stagger) s = elim (restart_workers e overlay filter stagger s) [
  | none ↦ s
  | some s' ↦ s'
]
step e (shutdown_done ws timed_out) s = finish_shutdown e ws timed_out s

unfoldable pub run : Env → List Input → System → System
run e [] s = s
run e (i ∷ is) s = run e is (step e i s)
