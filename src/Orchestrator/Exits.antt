-- ===== src/Orchestrator/Exits.antt =====
-- packages/worker-manager/src/orchestrator.ts and worker-manager.ts: a worker that has been seen to
-- exit is no longer tracked.
use clusterkit.Common.{
  ℕ, ◌<◌, ◌≡◌, refl, ◌∙◌, ap, Bool, true, false, not, ◌&&◌, Option, some, List, ◌∷◌, has,
  has-delete, keys, keys-remove, remove, Bool-cases, inl, inr, arith, if_cases, ==_refl,
}
use clusterkit.EnvVars.{EnvVars}
use clusterkit.Fleet.Record.{Host, Env}
use clusterkit.Fleet.{fork_worker, cleanup_worker}
use clusterkit.Fleet.Outcome.{Forked, failed, started, fork_worker-Forked}
use clusterkit.Restart.Preserve.{SameBooks}
use clusterkit.Orchestrator.Record.{System, with_host}
use clusterkit.Orchestrator.{on_cluster_exit}
use clusterkit.Orchestrator.Steps.{Input, exits, step, run}
use clusterkit.Orchestrator.Invariant.{worker_exit-keeps, run-keeps}
use clusterkit.Orchestrator.Safety.{
  IsSound, has-insert, has-remove, fork_worker-IsSound, cleanup_worker-IsSound, SameBooks-IsSound,
  run-IsSound, after_start,
}

-- A worker that was forked and is no longer tracked.
record IsGone (e : Env) (id : ℕ) (h : Host) : Type 0 where
  sound : IsSound e h
  forked : (n : ℕ) × (env : Option EnvVars) × (n < h.attempts) × (e.spawn n env ≡ some id)
  untracked : has id (keys h.start_times) ≡ false

absent : (b : Bool) → (b ≡ true → ⊥) → b ≡ false
absent true h = absurd (h refl)
absent false h = refl

has-removed : (id : ℕ) (m : List (ℕ × ℕ)) → has id (keys (remove id m)) ≡ false
has-removed id m = ground (arith, keys-remove id m, has-delete id id (keys m), ==_refl id)

module _ (e : Env)
    (fresh : (n m : ℕ) (o o' : Option EnvVars) (id : ℕ)
      → e.spawn n o ≡ some id
      → e.spawn m o' ≡ some id
      → n ≡ m) where
  fork_worker-IsGone :
      (id : ℕ) (o : Option EnvVars) (h : Host) → IsGone e id h → IsGone e id (fork_worker e o h).1
  fork_worker-IsGone id o h v = record {
    sound = fork_worker-IsSound e fresh o h v.sound;
    forked = let (n, env, lt, sp) = v.forked in (n, env, grown (fork_worker-Forked e o h) n lt, sp);
    untracked = absent _ (go (fork_worker-Forked e o h));
  }
    where
      grown :
          Forked e h (fork_worker e o h)
          → (n : ℕ) → n < h.attempts
          → n < (fork_worker e o h).1.attempts
      grown (failed a b s lo hi q) n lt = rw q (omega (arith, lt, lo))
      grown (started new n' env b s sp q) n lt = rw q (omega (arith, lt))

      go :
          Forked e h (fork_worker e o h)
          → has id (keys (fork_worker e o h).1.start_times) ≡ true
          → ⊥
      go (failed a b s lo hi q) = rw q λ t. cc (t, v.untracked)
      go (started new n env b s sp q) = rw q λ t. elim (has-insert id new h.now h.start_times t) [
        | inl here ↦
            let (m, env', lt, sp') = v.forked in
            omega (arith, fresh n m env env' id (sp.2 ∙ ap some here) sp', lt, sp.0)
        | inr there ↦ cc (there, v.untracked)
      ]

  cleanup_worker-IsGone :
      (id k : ℕ) (h : Host)
      → has k (keys h.start_times) ≡ true
      → IsGone e id h
      → IsGone e id (cleanup_worker k h)
  unfolding cleanup_worker
  cleanup_worker-IsGone id k h t v = record {
    sound = cleanup_worker-IsSound e fresh k h t v.sound;
    forked = v.forked;
    untracked = absent _ (λ q. cc (has-remove id k h.start_times q, v.untracked));
  }

  SameBooks-IsGone : (id : ℕ) (h h' : Host) → SameBooks h h' → IsGone e id h → IsGone e id h'
  SameBooks-IsGone id h h' q v = record {
    sound = SameBooks-IsSound e fresh h h' q v.sound;
    forked = rw q.attempts v.forked;
    untracked = rw q.start_times v.untracked;
  }

  ends-IsGone :
      (id : ℕ) (h : Host) → IsGone e id h → IsGone e id (record h { shutting_down = true })
  ends-IsGone id h v = record {
    sound = record {
      counted = record { distinct = v.sound.counted.distinct; counted = v.sound.counted.counted };
      forked = v.sound.forked;
    };
    forked = v.forked;
    untracked = v.untracked;
  }

  exited-IsGone :
      (id : ℕ) (h : Host)
      → has id (keys h.start_times) ≡ true
      → IsSound e h
      → IsGone e id (cleanup_worker id h)
  unfolding cleanup_worker
  exited-IsGone id h t v = record {
    sound = cleanup_worker-IsSound e fresh id h t v;
    forked = v.forked id t;
    untracked = has-removed id h.start_times;
  }

  exit-IsGone :
      (id : ℕ) (graceful : Bool) (s : System)
      → s.listening ≡ true
      → has id (keys s.host.start_times) ≡ true
      → IsSound e s.host
      → IsGone e id (step e (exits id graceful) s).host
  unfolding step on_cluster_exit
  exit-IsGone id graceful s on t v =
      if_cases (λ (r : System). IsGone e id r.host) (has id (keys s.host.start_times)) _ _
        (λ _.
          if_cases (λ (r : System). IsGone e id r.host) s.listening _ _
            (λ _.
              worker_exit-keeps e (IsGone e id) (SameBooks-IsGone id)
                (λ o h up w. fork_worker-IsGone id o h w) (cleanup_worker-IsGone id)
                (ends-IsGone id) id graceful (with_host (cleanup_worker id s.host) s)
                (exited-IsGone id s.host t v))
            (λ q. absurd (cc (q, on))))
        (λ q. absurd (cc (q, t)))

  -- The exit of a worker that is not tracked, or that nobody listens to, changes nothing.
  exit-tracked :
      (id : ℕ) (graceful : Bool) (s : System)
      → IsSound e s.host
      → has id (keys (step e (exits id graceful) s).host.start_times)
        ≡ (has id (keys s.host.start_times) && not s.listening)
  exit-tracked id graceful s v = elim (Bool-cases (has id (keys s.host.start_times))) [
    | inr out ↦
        unfold step in
        if_cases
          (λ (r : System).
            has id (keys r.host.start_times)
            ≡ (has id (keys s.host.start_times) && not s.listening))
          (has id (keys s.host.start_times)) _ _ (λ q. absurd (cc (q, out)))
          (λ q. ground (arith, out))
    | inl t ↦ elim (Bool-cases s.listening) [
      | inl on ↦ ground (arith, on, (exit-IsGone id graceful s on t v).untracked)
      | inr off ↦
          unfold step in
          if_cases
            (λ (r : System).
              has id (keys r.host.start_times)
              ≡ (has id (keys s.host.start_times) && not s.listening))
            (has id (keys s.host.start_times)) _ _
            (λ _.
              if_cases
                (λ (r : System).
                  has id (keys r.host.start_times)
                  ≡ (has id (keys s.host.start_times) && not s.listening))
                s.listening _ _ (λ q. absurd (cc (q, off))) (λ _. ground (arith, off)))
            (λ q. absurd (cc (q, t)))
    ]
  ]

  -- If `node:cluster` gives every worker its own id, then at every moment of a primary's life,
  -- from its start on and through whatever happens to it, the metric `activeWorkers` is the number
  -- of tracked workers, each of which is tracked once and stems from an earlier call of
  -- `cluster.fork`; and the exit of a worker leaves it untracked, unless the primary no longer
  -- listens.
  pub run-IsCounted :
      (now : ℕ) (is : List Input) (id : ℕ) (graceful : Bool)
      → IsSound e (after_start e now is).host
        × (has id (keys (step e (exits id graceful) (after_start e now is)).host.start_times) ≡ (
            has id (keys (after_start e now is).host.start_times)
            && not (after_start e now is).listening))
  run-IsCounted now is id graceful = (
    run-IsSound e fresh now is,
    exit-tracked id graceful (after_start e now is) (run-IsSound e fresh now is),
  )

  -- If `node:cluster` gives every worker its own id, a tracked worker whose exit the primary hears
  -- of is never tracked again, whatever happens later: no restart, refill or rolling restart brings
  -- its id back.
  pub exited_for_good :
      (now : ℕ) (is later : List Input) (id : ℕ) (graceful : Bool)
      → (after_start e now is).listening ≡ true
      → has id (keys (after_start e now is).host.start_times) ≡ true
      → has id (keys (run e (exits id graceful ∷ later) (after_start e now is)).host.start_times)
        ≡ false
  unfolding run
  exited_for_good now is later id graceful on t =
      let s = after_start e now is in
      (run-keeps e (IsGone e id) (SameBooks-IsGone id) (λ o h up w. fork_worker-IsGone id o h w)
        (cleanup_worker-IsGone id) (ends-IsGone id) later (step e (exits id graceful) s)
        (exit-IsGone id graceful s on t (run-IsSound e fresh now is))).untracked
