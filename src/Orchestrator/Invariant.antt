-- ===== src/Orchestrator/Invariant.antt =====
-- packages/worker-manager/src/orchestrator.ts: from the steps' parts to the steps, and to a whole
-- run.
use clusterkit.Common.{
  ℕ, ◌-◌, ◌≡◌, refl, Bool, true, false, not, Option, none, some, List, [], ◌∷◌, ◌++◌, ltb, if_cases,
  has, keys, length, filterb,
}
use clusterkit.EnvVars.{EnvVars, is_safe_env}
use clusterkit.Config.{restart_start, shutdown_start, worker_exit}
use clusterkit.Fleet.Record.{Host, Env, emit}
use clusterkit.Fleet.{fork_worker, mark_for_recycling, cleanup_worker, stop_recycling}
use clusterkit.Restart.{
  backoff_reset_fires, note_fork_failure, is_fork_env_unrecoverable, reset_quarantine,
}
use clusterkit.Restart.Preserve.{
  SameBooks, same, turn-keeps, request_capacity_refill-keeps, on_worker_crash-keeps,
}
use clusterkit.Health.{wedged_watch, on_worker_message}
use clusterkit.Shutdown
use clusterkit.Orchestrator.Record.{System, Roll, not_rolling, awaiting, staggering, with_host}
use clusterkit.Orchestrator.{
  handle_worker_recycle, recompute_fleet_health, handle_worker_online, handle_crash,
  handle_worker_exit, on_cluster_exit, reset_circuit_breaker, set_ready, set_not_ready,
  cleanup_interval, degraded_timer_fires, begin_shutdown, finish_shutdown, forget,
}
use clusterkit.Orchestrator.Roll.{
  roll_failed, roll_complete, roll_from, roll_replaced, restart_workers, roll_exit, roll_exit_at,
  roll_pause, roll_pause_at,
}
use clusterkit.Orchestrator.Steps.{
  step, run, Input, time_passes, dies, comes_online, recycle_due, exits, heartbeat, restart_turn,
  backoff_reset_due, degraded_due, watch_round, sweep_round, cleanup_round, roll_exits, roll_pauses,
  reset_call, ready_call, not_ready_call, shutdown_call, restart_call, shutdown_done,
}
use clusterkit.Orchestrator.Preserve.{
  perform_all-keeps, sweep-keeps, recycle_timer-keeps, recompute-keeps,
}

module _ (e : Env) (P : Host → Type 0) (soft : (h h' : Host) → SameBooks h h' → P h → P h')
    (forks : (o : Option EnvVars) (h : Host)
      → h.shutting_down ≡ false
      → P h
      → P (fork_worker e o h).1)
    (leaves : (id : ℕ) (h : Host)
      → has id (keys h.start_times) ≡ true
      → P h
      → P (cleanup_worker id h))
    (ends : (h : Host) → P h → P (record h { shutting_down = true })) where
  abbrev Kept : System → Type 0
  Kept s = P s.host

  online-keeps : (id : ℕ) (s : System) → Kept s → Kept (handle_worker_online e id s)
  unfolding handle_worker_online
  online-keeps id s p =
      recompute-keeps e P soft forks _ (soft s.host _ (same s.host _ refl refl refl refl) p)

  crash-keeps : (id : ℕ) (s : System) → Kept s → Kept (handle_crash e id s)
  unfolding handle_crash
  crash-keeps id s p =
      on_worker_crash-keeps e P soft forks id (not (has id s.online))
        (ltb 0 (length (forget id s).online)) _
        (soft s.host _ (same s.host _ refl refl refl refl) p)

  pub worker_exit-keeps :
      (id : ℕ) (graceful : Bool) (s : System) → Kept s → Kept (handle_worker_exit e id graceful s)
  unfolding handle_worker_exit
  worker_exit-keeps id graceful s p =
      let told : System = with_host (emit (worker_exit id graceful) s.host) s in
      let q = soft s.host told.host (same s.host _ refl refl refl refl) p in
      let judged = recompute_fleet_health e told in
      let r = recompute-keeps e P soft forks told q in
      if_cases Kept s.host.shutting_down _ _
        (λ _.
          if_cases Kept graceful _ _
            (λ _. soft told.host _ (same told.host _ refl refl refl refl) q) (λ _. q))
        λ _.
          if_cases Kept graceful _ _
            (λ _. soft judged.host _ (same judged.host _ refl refl refl refl) r)
            (λ _. crash-keeps id judged r)

  exit-keeps :
      (id : ℕ) (graceful : Bool) (s : System)
      → has id (keys s.host.start_times) ≡ true
      → Kept s
      → Kept (on_cluster_exit e id graceful s)
  unfolding on_cluster_exit
  exit-keeps id graceful s t p = worker_exit-keeps id graceful _ (leaves id s.host t p)

  reset-keeps : (s : System) → Kept s → Kept (reset_circuit_breaker e s)
  unfolding reset_circuit_breaker
  reset-keeps s p =
      let q =
        soft s.host (record s.host { ready = true; exit_code = 0 })
          (same s.host _ refl refl refl refl) p in
      if_cases Kept s.host.shutting_down _ _ (λ _. p)
        λ _.
          if_cases Kept s.has_forked _ _
            (λ _.
              request_capacity_refill-keeps e P soft forks
                (e.target - s.host.metrics.active_workers) _ q)
            (λ _. q)

  shutdown_begin-keeps : (h : Host) → P h → P (Shutdown.begin h)
  unfolding Shutdown.begin
  shutdown_begin-keeps h p =
      let shut : Host = record h { shutting_down = true } in
      if_cases P h.shutting_down _ _ (λ _. p)
        (λ _. soft shut (emit shutdown_start shut) (same shut _ refl refl refl refl) (ends h p))

  begin-keeps : (s : System) → Kept s → Kept (begin_shutdown s)
  unfolding begin_shutdown stop_recycling
  begin-keeps s p =
      let quiet : Host = record (stop_recycling s.host) { ready = false } in
      if_cases Kept s.host.shutting_down _ _ (λ _. p)
        (λ _. shutdown_begin-keeps quiet (soft s.host quiet (same s.host _ refl refl refl refl) p))

  finish-keeps :
      (ws : List Shutdown.WorkerRun) (timed_out : Bool) (s : System)
      → Kept s
      → Kept (finish_shutdown e ws timed_out s)
  unfolding finish_shutdown stop_recycling Shutdown.conclude
  finish-keeps ws timed_out s p =
      if_cases Kept (not s.closing) _ _ (λ _. p)
        λ _.
          if_cases Kept timed_out _ _ (λ _. soft s.host _ (same s.host _ refl refl refl refl) p)
            (λ _. soft s.host _ (same s.host _ refl refl refl refl) p)

  complete-keeps : (done : List ℕ) (s : System) → Kept s → Kept (roll_complete e done s)
  unfolding roll_complete
  complete-keeps done s p =
      request_capacity_refill-keeps e P soft forks (e.target - s.host.metrics.active_workers) _
        (soft s.host _ (same s.host _ refl refl refl refl) p)

  forked-keeps :
      (old : ℕ) (rest done : List ℕ) (overlay : Option EnvVars) (stagger : ℕ)
      (s failed go_on : System) (h : Host) (w : Option ℕ)
      → P h
      → Kept failed
      → Kept go_on
      → Kept (elim w [
        | none ↦ roll_failed failed go_on
        | some new ↦ roll_replaced old new rest done overlay stagger (with_host h s)
      ])
  unfolding roll_replaced handle_worker_recycle mark_for_recycling
  forked-keeps old rest done overlay stagger s failed go_on h none p q r =
      if_cases Kept (is_fork_env_unrecoverable failed.coord) _ _
        (λ _. soft failed.host _ (same failed.host _ refl refl refl refl) q) (λ _. r)
  forked-keeps old rest done overlay stagger s failed go_on h (some new) p q r =
      soft h _ (same h _ refl refl refl refl) p

  roll_from-keeps :
      (overlay : Option EnvVars) (stagger : ℕ) (done ws : List ℕ) (s : System)
      → Kept s
      → Kept (roll_from e overlay stagger done ws s)
  unfolding roll_from
  roll_from-keeps overlay stagger done [] s p = complete-keeps done s p
  roll_from-keeps overlay stagger done (old ∷ rest) s p =
      let h = (fork_worker e overlay s.host).1 in
      let failed : System = record s {
        core = record { host = h; coord = note_fork_failure s.coord };
      } in
      if_cases Kept s.host.shutting_down _ _ (λ _. p)
        λ up.
          if_cases Kept (not (has old s.host.live)) _ _
            (λ _. roll_from-keeps overlay stagger done rest s p)
            λ _.
              let q = forks overlay s.host up p in
              forked-keeps old rest done overlay stagger s failed
                (roll_from e overlay stagger done rest failed) h (fork_worker e overlay s.host).0 q
                q (roll_from-keeps overlay stagger done rest failed q)

  roll_exit-keeps : (r : Roll) (s : System) → Kept s → Kept (roll_exit_at e r s)
  unfolding roll_exit_at
  roll_exit-keeps (awaiting old rest done overlay stagger) s p =
      if_cases Kept (ltb 0 stagger) _ _ (λ _. p)
        (λ _. roll_from-keeps overlay stagger (done ++ old ∷ []) rest s p)
  roll_exit-keeps not_rolling s p = p
  roll_exit-keeps (staggering rest done overlay stagger) s p = p

  roll_pause-keeps : (r : Roll) (s : System) → Kept s → Kept (roll_pause_at e r s)
  unfolding roll_pause_at
  roll_pause-keeps (staggering rest done overlay stagger) s p =
      roll_from-keeps overlay stagger done rest s p
  roll_pause-keeps not_rolling s p = p
  roll_pause-keeps (awaiting old rest done overlay stagger) s p = p

  started-keeps :
      (r : Roll) (s begun : System)
      → Kept s
      → Kept begun
      → Kept
          (elim (elim r as (λ x. Option System) [ not_rolling ↦ some begun | _ ↦ some s ])
            as (λ x. System) [ none ↦ s | some s' ↦ s' ])
  started-keeps not_rolling s begun p q = q
  started-keeps (awaiting old rest done overlay stagger) s begun p q = p
  started-keeps (staggering rest done overlay stagger) s begun p q = p

  -- `restart_workers` by what `step` makes of its result.
  restart-keeps :
      (overlay : Option EnvVars) (filter : ℕ → Bool) (stagger : ℕ) (s : System)
      → Kept s
      → Kept (step e (restart_call overlay filter stagger) s)
  unfolding step restart_workers
  restart-keeps overlay filter stagger s p =
      let Q : Option System → Type 0 = λ r. Kept (elim r [ none ↦ s | some s' ↦ s' ]) in
      let targeted = filterb filter s.host.live in
      let begun : System = record s {
        core = record {
          host = emit (restart_start targeted) s.host;
          coord = reset_quarantine s.coord;
        };
      } in
      if_cases Q (not (is_safe_env overlay)) _ _ (λ _. p)
        λ _.
          if_cases Q s.host.shutting_down _ _ (λ _. p)
            λ _. started-keeps s.roll s (roll_from e overlay stagger [] targeted begun) p (
              roll_from-keeps overlay stagger [] targeted begun
                (soft s.host begun.host (same s.host _ refl refl refl refl) p))

  step-keeps : (i : Input) (s : System) → Kept s → Kept (step e i s)
  unfolding step set_ready set_not_ready cleanup_interval degraded_timer_fires roll_exit roll_pause
      backoff_reset_fires
  step-keeps (time_passes dt) s p = soft s.host _ (same s.host _ refl refl refl refl) p
  step-keeps (dies id) s p = soft s.host _ (same s.host _ refl refl refl refl) p
  step-keeps (comes_online id) s p =
      if_cases Kept s.listening _ _ (λ _. online-keeps id s p) (λ _. p)
  step-keeps (recycle_due id) s p =
      if_cases Kept (has id s.host.pending_recycles) _ _
        (λ _. recycle_timer-keeps e P soft forks id s.host p) (λ _. p)
  step-keeps (exits id graceful) s p =
      if_cases Kept (has id (keys s.host.start_times)) _ _
        (λ t. if_cases Kept s.listening _ _ (λ _. exit-keeps id graceful s t p) (λ _. p)) (λ _. p)
  step-keeps (heartbeat id msg) s p =
      let r = on_worker_message e.cfg s.host.now s.host.shutting_down id msg s.monitor in
      perform_all-keeps e P soft forks r.1 s.host p
  step-keeps restart_turn s p = turn-keeps e P soft forks s.core p
  step-keeps backoff_reset_due s p = if_cases Kept s.coord.reset_timer _ _ (λ _. p) (λ _. p)
  step-keeps degraded_due s p =
      if_cases Kept s.degraded_timer _ _
        (λ _.
          if_cases Kept s.host.shutting_down _ _ (λ _. p)
            (λ _. soft s.host _ (same s.host _ refl refl refl refl) p))
        (λ _. p)
  step-keeps watch_round s p =
      let r = wedged_watch e.cfg s.host.now s.host.shutting_down s.monitor in
      if_cases Kept s.monitor.watching _ _ (λ _. perform_all-keeps e P soft forks r.1 s.host p)
        (λ _. p)
  step-keeps sweep_round s p =
      if_cases Kept s.host.sweeping _ _ (λ _. sweep-keeps e P soft forks s.host p) (λ _. p)
  step-keeps cleanup_round s p =
      if_cases Kept s.cleaning _ _ (λ _. if_cases Kept s.host.shutting_down _ _ (λ _. p) (λ _. p))
        (λ _. p)
  step-keeps roll_exits s p = roll_exit-keeps s.roll s p
  step-keeps roll_pauses s p = roll_pause-keeps s.roll s p
  step-keeps reset_call s p = reset-keeps s p
  step-keeps ready_call s p =
      if_cases Kept s.host.shutting_down _ _ (λ _. p)
        (λ _. soft s.host _ (same s.host _ refl refl refl refl) p)
  step-keeps not_ready_call s p = soft s.host _ (same s.host _ refl refl refl refl) p
  step-keeps shutdown_call s p = begin-keeps s p
  step-keeps (restart_call overlay filter stagger) s p = restart-keeps overlay filter stagger s p
  step-keeps (shutdown_done ws timed_out) s p = finish-keeps ws timed_out s p

  pub run-keeps : (is : List Input) (s : System) → Kept s → Kept (run e is s)
  unfolding run
  run-keeps [] s p = p
  run-keeps (i ∷ is) s p = run-keeps is (step e i s) (step-keeps i s p)
