-- ===== src/Orchestrator/Preserve.antt =====
-- What every step of the primary keeps: all that a fork outside a shutdown, the exit of a tracked
-- worker and the shutdown flag keep, and that looks at nothing but the worker manager's books.
use clusterkit.Common.{
  ℕ, ◌≡◌, refl, Bool, false, not, ◌||◌, Option, none, some, List, [], ◌∷◌, leb, if_cases, has,
  delete, filterb, insert, arith,
}
use clusterkit.EnvVars.{EnvVars}
use clusterkit.Config.{RecycleReason}
use clusterkit.Fleet.Record.{Host, Env}
use clusterkit.Fleet.{fork_worker, mark_for_recycling, is_marked_for_recycling, get_active_workers}
use clusterkit.Fleet.Recycle.{
  recycle_worker_now, handed_over, schedule, sweep, recycle_timer, is_aged, unmark,
}
use clusterkit.Restart.Preserve.{SameBooks, same}
use clusterkit.Health.{Request, report, wedge, recycle}
use clusterkit.Orchestrator.Record.{System}
use clusterkit.Orchestrator.{
  handle_worker_recycle, trigger_worker_recycle, perform, perform_all, recompute_fleet_health,
}

module _ (e : Env) (P : Host → Type 0) (soft : (h h' : Host) → SameBooks h h' → P h → P h')
    (forks : (o : Option EnvVars) (h : Host)
      → h.shutting_down ≡ false
      → P h
      → P (fork_worker e o h).1) where
  handed_over-keeps :
      (id : ℕ) (r : Option ℕ × Host) → P r.1 → P (handed_over handle_worker_recycle id r).1
  unfolding handed_over handle_worker_recycle
  handed_over-keeps id (none, h) p = soft h (unmark id h) (same h _ refl refl refl refl) p
  handed_over-keeps id (some new, h) p =
      soft h (handle_worker_recycle id new h) (same h _ refl refl refl refl) p

  recycle_worker_now-keeps :
      (id : ℕ) (h : Host) → P h → P (recycle_worker_now e handle_worker_recycle id h).1
  unfolding recycle_worker_now mark_for_recycling
  recycle_worker_now-keeps id h p =
      let Q : Bool × Host → Type 0 = λ r. P r.1 in
      let m = mark_for_recycling id h in
      if_cases Q h.shutting_down _ _ (λ _. p)
        λ up.
          if_cases Q (is_marked_for_recycling id h) _ _ (λ _. p)
            λ _.
              if_cases Q (not (has id (get_active_workers h))) _ _ (λ _. p)
                λ _.
                  handed_over-keeps id (fork_worker e none m)
                    (forks none m up (soft h m (same h _ refl refl refl refl) p))

  trigger_worker_recycle-keeps :
      (id : ℕ) (reason : RecycleReason) (h : Host) → P h → P (trigger_worker_recycle e id reason h)
  unfolding trigger_worker_recycle
  trigger_worker_recycle-keeps id reason h p =
      let noted : Host = record h { recycle_reasons = insert id reason h.recycle_reasons } in
      let r = recycle_worker_now e handle_worker_recycle id noted in
      let kept =
        recycle_worker_now-keeps id noted (soft h noted (same h _ refl refl refl refl) p) in
      if_cases P (has id h.recycling) _ _ (λ _. p)
        λ _. if_cases P r.0 _ _ (λ _. kept) (λ _. soft r.1 _ (same r.1 _ refl refl refl refl) kept)

  perform-keeps : (q : Request) (h : Host) → P h → P (perform e q h)
  unfolding perform
  perform-keeps (report r) h p = soft h _ (same h _ refl refl refl refl) p
  perform-keeps (wedge id silent) h p =
      if_cases P (has id h.recycling) _ _ (λ _. p) (λ _. soft h _ (same h _ refl refl refl refl) p)
  perform-keeps (recycle id reason) h p = trigger_worker_recycle-keeps id reason h p

  pub perform_all-keeps : (qs : List Request) (h : Host) → P h → P (perform_all e qs h)
  unfolding perform_all
  perform_all-keeps [] h p = p
  perform_all-keeps (q ∷ qs) h p = perform_all-keeps qs (perform e q h) (perform-keeps q h p)

  schedule-keeps : (ids : List ℕ) (h : Host) → P h → P (schedule ids h)
  unfolding schedule
  schedule-keeps [] h p = p
  schedule-keeps (id ∷ ids) h p = schedule-keeps ids _ (soft h _ (same h _ refl refl refl refl) p)

  pub sweep-keeps : (h : Host) → P h → P (sweep e h)
  unfolding sweep
  sweep-keeps h p =
      if_cases P h.shutting_down _ _ (λ _. p)
        (λ _. schedule-keeps (filterb (is_aged e h) (get_active_workers h)) h p)

  pub recycle_timer-keeps :
      (id : ℕ) (h : Host) → P h → P (recycle_timer e handle_worker_recycle id h)
  unfolding recycle_timer
  recycle_timer-keeps id h p =
      let fired : Host = record h { pending_recycles = delete id h.pending_recycles } in
      let q = soft h fired (same h _ refl refl refl refl) p in
      if_cases P (not (has id fired.live) || fired.shutting_down) _ _
        (λ _. soft h (unmark id fired) (same h _ refl refl refl refl) p)
        λ up.
          handed_over-keeps id (fork_worker e none fired) (forks none fired (ground (arith, up)) q)

  pub recompute-keeps : (s : System) → P s.host → P (recompute_fleet_health e s).host
  unfolding recompute_fleet_health
  recompute-keeps s p =
      let Q : System → Type 0 = λ r. P r.host in
      if_cases Q (s.host.shutting_down || leb e.cfg.health.degraded_after_ms 0) _ _ (λ _. p)
        λ _.
          if_cases Q (leb e.target s.host.metrics.active_workers) _ _
            (λ _.
              if_cases Q s.degraded _ _ (λ _. soft s.host _ (same s.host _ refl refl refl refl) p)
                (λ _. p))
            λ _. if_cases Q (s.degraded || s.degraded_timer) _ _ (λ _. p) (λ _. p)
