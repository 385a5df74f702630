-- ===== src/Restart/Preserve.antt =====
-- What every operation of the coordinator keeps: all that a fork outside a shutdown keeps and that
-- looks at nothing but the worker manager's books.
use clusterkit.Common.{
  ℕ, suc, ◌++◌, ◌≡◌, refl, Bool, true, false, Option, none, some, List, [], ◌∷◌, ◌==◌, ltb, leb,
  if_cases, ◌&&◌, ◌||◌,
}
use clusterkit.Fleet.Record.{Host, Env, emit}
use clusterkit.Fleet.{fork_worker}
use clusterkit.Config.{worker_quarantined}
use clusterkit.EnvVars.{EnvVars}
use clusterkit.Restart.Record.{
  State, RestartCoordinator, RestartQueueEntry, Phase, idle, yielded, sleeping, crash,
}
use clusterkit.Restart.{
  enqueue, on_trip, recorded, warning_rearmed, record_and_restart, on_boot_failure, on_worker_crash,
  request_capacity_refill, refills,
}
use clusterkit.Restart.Loop.{
  fork_attempt, after_fork, begin_restart, advance, pruned, breaker_open, missing_workers,
  next_delay, wake_phase, resume_phase, process_restart_queue, process_phase,
  max_consecutive_fork_failures,
}
use clusterkit.Restart.Rounds.{turn, turn_at}

-- The same books and the same phase of life, as far as tracking and forking see them.
pub record SameBooks (h h' : Host) : Type 0 where
  pub start_times : h'.start_times ≡ h.start_times
  pub attempts : h'.attempts ≡ h.attempts
  pub active : h'.metrics.active_workers ≡ h.metrics.active_workers
  pub closing : h'.shutting_down ≡ h.shutting_down

abbrev pub same :
    (h h' : Host)
    → h'.start_times ≡ h.start_times
    → h'.attempts ≡ h.attempts
    → h'.metrics.active_workers ≡ h.metrics.active_workers
    → h'.shutting_down ≡ h.shutting_down
    → SameBooks h h'
same h h' a b c d = record { start_times = a; attempts = b; active = c; closing = d }

module _ (e : Env) (P : Host → Type 0) (soft : (h h' : Host) → SameBooks h h' → P h → P h')
    (forks : (o : Option EnvVars) (h : Host)
      → h.shutting_down ≡ false
      → P h
      → P (fork_worker e o h).1) where
  after_fork-keeps :
      (x : RestartQueueEntry) (d : ℕ) (r : Option ℕ × Host) (c : RestartCoordinator)
      → P r.1
      → P (after_fork e x d r c).host
  unfolding after_fork
  after_fork-keeps x d (none, h) c p =
      if_cases (λ (r : State). P r.host) (leb max_consecutive_fork_failures (suc c.fork_failures)) _
        _ (λ _. soft h (record h { exit_code = 1 }) (same h _ refl refl refl refl) p) (λ _. p)
  after_fork-keeps x d (some id, h) c p =
      soft h (after_fork e x d (some id, h) c).host (same h _ refl refl refl refl) p

  fork_attempt-keeps :
      (x : RestartQueueEntry) (d : ℕ) (s : State)
      → s.host.shutting_down ≡ false
      → P s.host
      → P (fork_attempt e x d s).host
  unfolding fork_attempt
  fork_attempt-keeps x d s up p =
      if_cases (λ (r : State). P r.host) (breaker_open s) _ _ (λ _. p)
        (λ _.
          after_fork-keeps x d (fork_worker e none s.host) (pruned s).coord
            (forks none s.host up p))

  begin_restart-keeps :
      (x : RestartQueueEntry) (s : State)
      → s.host.shutting_down ≡ false
      → P s.host
      → P (begin_restart e x s).host
  unfolding begin_restart
  begin_restart-keeps x s up p =
      if_cases (λ (r : State). P r.host) (ltb 0 (next_delay e s.coord)) _ _ (λ _. p)
        (λ _. fork_attempt-keeps x (next_delay e s.coord) s up p)

  advance-keeps : (q : List RestartQueueEntry) (s : State) → P s.host → P (advance e q s).host
  unfolding advance
  advance-keeps [] s p = p
  advance-keeps (x ∷ rest) s p =
      let Q : State → Type 0 = λ r. P r.host in
      let t = pruned s in
      if_cases Q s.host.shutting_down _ _ (λ _. p)
        λ up.
          if_cases Q (breaker_open s) _ _ (λ _. p)
            λ _.
              if_cases Q (missing_workers e s.host == 0) _ _ (λ _. advance-keeps rest t p)
                (λ _.
                  begin_restart-keeps x (record t { coord = record t.coord { queue = rest } }) up p)

  turn_at-keeps : (ph : Phase) (s : State) → P s.host → P (turn_at e ph s).host
  unfolding wake_phase resume_phase
  turn_at-keeps idle s p = p
  turn_at-keeps yielded s p = advance-keeps s.coord.queue s p
  turn_at-keeps (sleeping x d) s p =
      if_cases (λ (r : State). P r.host) s.host.shutting_down _ _ (λ _. p)
        (λ up. fork_attempt-keeps x d s up p)

  pub turn-keeps : (s : State) → P s.host → P (turn e s).host
  unfolding turn
  turn-keeps s p = turn_at-keeps s.coord.phase s p

  process_phase-keeps : (ph : Phase) (s : State) → P s.host → P (process_phase e ph s).host
  unfolding process_phase
  process_phase-keeps idle s p = advance-keeps s.coord.queue s p
  process_phase-keeps yielded s p = p
  process_phase-keeps (sleeping x d) s p = p

  process-keeps : (s : State) → P s.host → P (process_restart_queue e s).host
  unfolding process_restart_queue
  process-keeps s p = process_phase-keeps s.coord.phase s p

  enqueue-keeps : (xs : List RestartQueueEntry) (s : State) → P s.host → P (enqueue e xs s).host
  unfolding enqueue
  enqueue-keeps xs s p =
      let Q : State → Type 0 = λ r. P (process_restart_queue e r).host in
      let queued : State = record s { coord = record s.coord { queue = s.coord.queue ++ xs } } in
      if_cases Q (s.host.metrics.active_workers == 0) _ _
        (λ _.
          if_cases Q (s.coord.hold || s.host.shutting_down) _ _ (λ _. process-keeps queued p)
            (λ _. process-keeps (record queued { coord = record queued.coord { hold = true } }) p))
        (λ _. process-keeps queued p)

  pub request_capacity_refill-keeps :
      (n : ℕ) (s : State) → P s.host → P (request_capacity_refill e n s).host
  unfolding request_capacity_refill
  request_capacity_refill-keeps n s p = enqueue-keeps (refills n) s p

  record_and_restart-keeps : (id : ℕ) (s : State) → P s.host → P (record_and_restart e id s).host
  unfolding record_and_restart on_trip
  record_and_restart-keeps id s p =
      let told = soft s.host (recorded s).host (same s.host _ refl refl refl refl) p in
      if_cases (λ (r : State). P r.host) (breaker_open (recorded s)) _ _
        (λ _.
          soft s.host (on_trip e (pruned (recorded s))).host (same s.host _ refl refl refl refl) p)
        (λ _. enqueue-keeps (crash id ∷ []) (warning_rearmed (pruned (recorded s))) told)

  on_boot_failure-keeps : (id : ℕ) (s : State) → P s.host → P (on_boot_failure e id s).host
  unfolding on_boot_failure
  on_boot_failure-keeps id s p =
      if_cases (λ (r : State). P r.host)
        (leb e.cfg.restart.boot_fail_quarantine (suc s.coord.boot_failures)) _ _
        (λ _.
          soft s.host (emit (worker_quarantined (suc s.coord.boot_failures)) s.host)
            (same s.host _ refl refl refl refl) p)
        (λ _.
          record_and_restart-keeps id
            (record s { coord = record s.coord { boot_failures = suc s.coord.boot_failures } }) p)

  pub on_worker_crash-keeps :
      (id : ℕ) (boot has_online : Bool) (s : State)
      → P s.host
      → P (on_worker_crash e id boot has_online s).host
  unfolding on_worker_crash
  on_worker_crash-keeps id boot has_online s p =
      if_cases (λ (r : State). P r.host)
        (boot && (ltb 0 e.cfg.restart.boot_fail_quarantine && has_online)) _ _
        (λ _. on_boot_failure-keeps id s p) (λ _. record_and_restart-keeps id s p)
