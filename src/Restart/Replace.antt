-- ===== src/Restart/Replace.antt =====
-- packages/worker-manager/src/restart-coordinator.ts: from a queued restart to the new worker.
use clusterkit.Common.{
  ℕ, suc, ◌+◌, ◌≡◌, ◌≢◌, refl, ap, ◌∙◌, true, false, Option, none, some, List, ◌∷◌, ◌==◌, ltb,
  if_cases, ◌<◌, lt→ltb, arith,
}
use clusterkit.EnvVars.{EnvVars, is_safe_env}
use clusterkit.Fleet.Record.{Host, Env}
use clusterkit.Fleet.{fork_worker, forked, apply_exec_argv, merged_env}
use clusterkit.Fleet.Outcome.{apply_exec_argv_lem}
use clusterkit.Restart.Record.{State, RestartQueueEntry, idle, yielded, sleeping}
use clusterkit.Restart.Loop.{
  fork_attempt, after_fork, begin_restart, advance, wake_phase, pruned, breaker_open,
  missing_workers, next_delay, process_restart_queue, process_phase,
}
use clusterkit.Restart.Rounds.{turn}

-- Time passes while the loop waits.
abbrev pub after_wait : ℕ → State → State
after_wait dt s = record s { host = record s.host { now = s.host.now + dt } }

-- One more worker than before, and the loop ready for the next entry.
pub record Replaced (s u : State) (rest : List RestartQueueEntry) : Type 0 where
  pub active : u.host.metrics.active_workers ≡ suc s.host.metrics.active_workers
  pub restarts : u.host.metrics.worker_restarts ≡ suc s.host.metrics.worker_restarts
  pub failures : u.coord.fork_failures ≡ 0
  pub queue : u.coord.queue ≡ rest
  pub phase : u.coord.phase ≡ yielded

-- No fork throws.
abbrev pub AlwaysForks : Env → Type 0
AlwaysForks e = (n : ℕ) (o : Option EnvVars) → (id : ℕ) × (e.spawn n o ≡ some id)

fork_worker-started :
    (e : Env) (h : Host)
    → is_safe_env e.cfg.workers.env ≡ true
    → AlwaysForks e
    → (id : ℕ) × ((fork_worker e none h).0 ≡ some id)
      × ((fork_worker e none h).1.metrics.active_workers ≡ suc h.metrics.active_workers)
      × ((fork_worker e none h).1.metrics.worker_restarts ≡ h.metrics.worker_restarts)
unfolding fork_worker forked apply_exec_argv
fork_worker-started e h safe ok =
    let (b, n, q) = apply_exec_argv_lem e h in
    let (id, sp) = ok h.attempts (merged_env e.cfg.workers.env none) in
    (id, rw (safe, q) (rw sp refl), rw (safe, q) (rw sp refl), rw (safe, q) (rw sp refl))

attempt-Replaced :
    (e : Env) (x : RestartQueueEntry) (d : ℕ) (s : State)
    → is_safe_env e.cfg.workers.env ≡ true
    → AlwaysForks e
    → breaker_open s ≡ false
    → Replaced s (fork_attempt e x d s) s.coord.queue
unfolding fork_attempt
attempt-Replaced e x d s safe ok shut =
    if_cases (λ (r : State). Replaced s r s.coord.queue) (breaker_open s) _ _
      (λ h. absurd (cc (h, shut)))
      λ _.
        let (id, new, more, same) = fork_worker-started e (pruned s).host safe ok in
        go (fork_worker e none (pruned s).host) id new more same
  where
    go :
        (r : Option ℕ × Host) (id : ℕ)
        → r.0 ≡ some id
        → r.1.metrics.active_workers ≡ suc s.host.metrics.active_workers
        → r.1.metrics.worker_restarts ≡ s.host.metrics.worker_restarts
        → Replaced s (after_fork e x d r (pruned s).coord) s.coord.queue
    go (none, h) id new more same = absurd (cc new)
    go (some n, h) id new more same =
        unfold after_fork in
        record {
          active = more;
          restarts = ap suc same;
          failures = refl;
          queue = refl;
          phase = refl;
        }

-- The state of the backoff wait for `x`.
abbrev waiting_for : Env → RestartQueueEntry → List RestartQueueEntry → State → State
waiting_for e x rest s = record s {
  coord = record (pruned s).coord { queue = rest; phase = sleeping x (next_delay e s.coord) };
}

advance-waiting :
    (e : Env) (s : State) (x : RestartQueueEntry) (rest : List RestartQueueEntry)
    → s.host.shutting_down ≡ false
    → breaker_open s ≡ false
    → missing_workers e s.host ≢ 0
    → 0 < next_delay e s.coord
    → advance e (x ∷ rest) s ≡ waiting_for e x rest s
unfolding advance begin_restart
advance-waiting e s x rest up shut short waits =
    let P : State → Type 0 = λ r. r ≡ waiting_for e x rest s in
    if_cases P s.host.shutting_down _ _ (λ h. absurd (cc (h, up)))
      λ _.
        if_cases P (breaker_open s) _ _ (λ h. absurd (cc (h, shut)))
          λ _.
            if_cases P (missing_workers e s.host == 0) _ _ (λ h. absurd (short (ground (arith, h))))
              λ _.
                if_cases P (ltb 0 (next_delay e s.coord)) _ _ (λ _. refl)
                  (λ h. absurd (cc (h, lt→ltb 0 (next_delay e s.coord) waits)))

kick-waiting :
    (e : Env) (s : State) (x : RestartQueueEntry) (rest : List RestartQueueEntry)
    → s.coord.phase ≡ idle
    → s.coord.queue ≡ x ∷ rest
    → s.host.shutting_down ≡ false
    → breaker_open s ≡ false
    → missing_workers e s.host ≢ 0
    → 0 < next_delay e s.coord
    → process_restart_queue e s ≡ waiting_for e x rest s
unfolding process_restart_queue process_phase
kick-waiting e s x rest still q up shut short waits =
    ap (λ p. process_phase e p s) still
    ∙ ap (λ l. advance e l s) q
    ∙ advance-waiting e s x rest up shut short waits

wake-Replaced :
    (e : Env) (x : RestartQueueEntry) (d : ℕ) (t : State)
    → t.host.shutting_down ≡ false
    → breaker_open t ≡ false
    → is_safe_env e.cfg.workers.env ≡ true
    → AlwaysForks e
    → Replaced t (wake_phase e (sleeping x d) t) t.coord.queue
unfolding wake_phase
wake-Replaced e x d t up shut safe ok =
    if_cases (λ (r : State). Replaced t r t.coord.queue) t.host.shutting_down _ _
      (λ h. absurd (cc (h, up))) (λ _. attempt-Replaced e x d t safe ok shut)

-- A queued restart is carried out. If no shutdown is under way, the breaker is not tripped, a
-- worker is missing and forks succeed, then a kick of the idle loop and the end of the backoff
-- wait, however long it takes, leave one more active worker, one more restart counted, the fork
-- failures cleared and the rest of the queue to go on with.
pub kick-Replaced :
    (e : Env) (s : State) (x : RestartQueueEntry) (rest : List RestartQueueEntry) (dt : ℕ)
    → s.coord.phase ≡ idle
    → s.coord.queue ≡ x ∷ rest
    → s.host.shutting_down ≡ false
    → breaker_open s ≡ false
    → breaker_open (after_wait dt (process_restart_queue e s)) ≡ false
    → missing_workers e s.host ≢ 0
    → 0 < next_delay e s.coord
    → is_safe_env e.cfg.workers.env ≡ true
    → AlwaysForks e
    → Replaced s (turn e (after_wait dt (process_restart_queue e s))) rest
unfolding turn
kick-Replaced e s x rest dt still q up shut later short waits safe ok =
    let k = kick-waiting e s x rest still q up shut short waits in
    let w = after_wait dt (waiting_for e x rest s) in
    rw k (
      let r = wake-Replaced e x (next_delay e s.coord) w up (rw k at later) safe ok in
      record {
        active = r.active;
        restarts = r.restarts;
        failures = r.failures;
        queue = r.queue;
        phase = r.phase;
      })
