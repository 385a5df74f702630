-- ===== src/Orchestrator/Safety.antt =====
-- packages/worker-manager/src/orchestrator.ts: what holds of a primary whatever happens to it.
use clusterkit.Common.{
  ℕ, zero, suc, ◌<◌, ◌≡◌, refl, ◌∙◌, Bool, true, false, Option, none, some, List, has, has-add,
  has-delete, keys, keys-insert, keys-remove, insert, remove, Bool-cases, inl, inr, ◌⊎◌, arith, leb,
  if_cases, ◌&&◌,
}
use clusterkit.EnvVars.{EnvVars}
use clusterkit.Fleet.Record.{Host, Env, start_host}
use clusterkit.Fleet.{fork_worker, fork_workers, cleanup_worker}
use clusterkit.Fleet.Recycle.{start_recycling}
use clusterkit.Fleet.Outcome.{Forked, failed, started, fork_worker-Forked}
use clusterkit.Fleet.Tracked.{IsCounted, IsFresh, fork_worker-IsCounted, cleanup_worker-IsCounted}
use clusterkit.Restart.Preserve.{SameBooks, same}
use clusterkit.Orchestrator.Record.{System, start_system}
use clusterkit.Orchestrator.{start_primary}
use clusterkit.Orchestrator.Steps.{Input, run}
use clusterkit.Orchestrator.Invariant.{run-keeps}

-- Shutting down, after n calls of `cluster.fork`.
pub record IsFinal (n : ℕ) (h : Host) : Type 0 where
  pub closing : h.shutting_down ≡ true
  pub attempts : h.attempts ≡ n

cleanup_worker-IsFinal : (n id : ℕ) (h : Host) → IsFinal n h → IsFinal n (cleanup_worker id h)
unfolding cleanup_worker
cleanup_worker-IsFinal n id h v = record { closing = v.closing; attempts = v.attempts }

-- So it is from any state on.
run_after :
    (e : Env) (s : System) (is : List Input)
    → s.host.shutting_down ≡ true
    → IsFinal s.host.attempts (run e is s).host
run_after e s is down =
    let n = s.host.attempts in
    run-keeps e (IsFinal n)
      (λ h h' q v. record { closing = q.closing ∙ v.closing; attempts = q.attempts ∙ v.attempts })
      (λ o h up v. absurd (cc (up, v.closing))) (λ id h t v. cleanup_worker-IsFinal n id h v)
      (λ h v. record { closing = refl; attempts = v.attempts }) is s
      (record { closing = down; attempts = refl })

-- A primary that `startPrimary` has started, after the inputs `is`.
abbrev pub after_start : Env → ℕ → List Input → System
after_start e now is = run e is (start_primary e (start_system e now)).1

-- In a primary whose start is over, which it is once the call of `run` has forked the first workers
-- (a shutdown before that is not covered), a shutdown that has begun is never taken back, and no
-- worker is forked any more, whatever happens in whatever order: exits and crashes, the end of a
-- backoff wait, refills, calls of `resetCircuitBreaker` or `restartWorkers`, timers that were set
-- before, or a rolling restart that is under way.
pub run-IsFinal :
    (e : Env) (now : ℕ) (before later : List Input)
    → (after_start e now before).host.shutting_down ≡ true
    → IsFinal (after_start e now before).host.attempts (run e later (after_start e now before)).host
run-IsFinal e now before later down = run_after e (after_start e now before) later down

-- A tracked worker stems from an earlier call of `cluster.fork`.
pub record IsSound (e : Env) (h : Host) : Type 0 where
  pub counted : IsCounted h
  pub forked :
      (id : ℕ)
      → has id (keys h.start_times) ≡ true
      → (n : ℕ) × (env : Option EnvVars) × (n < h.attempts) × (e.spawn n env ≡ some id)

pub has-insert :
    (id new t : ℕ) (m : List (ℕ × ℕ))
    → has id (keys (insert new t m)) ≡ true
    → (new ≡ id) ⊎ (has id (keys m) ≡ true)
has-insert id new t m h = ground (arith, h, keys-insert new t m, has-add id new (keys m))

pub has-remove :
    (id k : ℕ) (m : List (ℕ × ℕ)) → has id (keys (remove k m)) ≡ true → has id (keys m) ≡ true
has-remove id k m h = ground (arith, h, keys-remove k m, has-delete id k (keys m))

module _ (e : Env)
    (fresh : (n m : ℕ) (o o' : Option EnvVars) (id : ℕ)
      → e.spawn n o ≡ some id
      → e.spawn m o' ≡ some id
      → n ≡ m) where
  IsSound-IsFresh : (h : Host) → IsSound e h → IsFresh e h
  IsSound-IsFresh h v n o id q le = elim (Bool-cases (has id (keys h.start_times))) [
    | inr no' ↦ no'
    | inl yes' ↦
        let (m, o', lt, q') = v.forked id yes' in
        absurd (omega (arith, fresh n m o o' id q q', lt, le))
  ]

  pub fork_worker-IsSound :
      (o : Option EnvVars) (h : Host) → IsSound e h → IsSound e (fork_worker e o h).1
  fork_worker-IsSound o h v = record {
    counted = fork_worker-IsCounted e o h (IsSound-IsFresh h v) v.counted;
    forked = go (fork_worker-Forked e o h);
  }
    where
      go :
          Forked e h (fork_worker e o h)
          → (id : ℕ) → has id (keys (fork_worker e o h).1.start_times) ≡ true
          → (n : ℕ) × (env : Option EnvVars) × (n < (fork_worker e o h).1.attempts)
            × (e.spawn n env ≡ some id)
      go (failed a b s lo hi q) id =
          rw q λ t. let (n, env, lt, sp) = v.forked id t in (n, env, omega (arith, lt, lo), sp)
      go (started new n env b s sp q) id = rw q λ t.
          elim (has-insert id new h.now h.start_times t) [
            | inl here ↦ (n, env, omega (arith, sp.1), ground (arith, here, sp.2))
            | inr there ↦
                let (m, env', lt, sp') = v.forked id there in (m, env', omega (arith, lt), sp')
          ]

  pub cleanup_worker-IsSound :
      (id : ℕ) (h : Host)
      → has id (keys h.start_times) ≡ true
      → IsSound e h
      → IsSound e (cleanup_worker id h)
  unfolding cleanup_worker
  cleanup_worker-IsSound id h t v = record {
    counted = cleanup_worker-IsCounted id h t v.counted;
    forked = λ j t'. v.forked j (has-remove j id h.start_times t');
  }

  pub SameBooks-IsSound : (h h' : Host) → SameBooks h h' → IsSound e h → IsSound e h'
  SameBooks-IsSound h h' q v = record {
    counted = record {
      distinct = rw q.start_times v.counted.distinct;
      counted = rw q.start_times (q.active ∙ v.counted.counted);
    };
    forked = λ j. rw (q.start_times, q.attempts) (v.forked j);
  }

  next-IsSound :
      (n : ℕ) (r : Option ℕ × Host)
      → IsSound e r.1
      → ((h : Host) → IsSound e h → IsSound e (fork_workers e n h).1)
      → IsSound e
          (elim r.0 as (λ x. Bool × Host) [
            | none ↦ (false, r.1)
            | some id ↦ fork_workers e n r.1
          ]).1
  next-IsSound n (none, h) v later = v
  next-IsSound n (some id, h) v later = later h v

  fork_workers-IsSound : (n : ℕ) (h : Host) → IsSound e h → IsSound e (fork_workers e n h).1
  unfolding fork_workers
  fork_workers-IsSound zero h v = v
  fork_workers-IsSound (suc n) h v =
      next-IsSound n (fork_worker e none h) (fork_worker-IsSound none h v) (fork_workers-IsSound n)

  start_recycling-IsSound : (h : Host) → IsSound e h → IsSound e (start_recycling e h)
  unfolding start_recycling
  start_recycling-IsSound h v =
      if_cases (IsSound e) (leb e.cfg.workers.max_age_ms 0 && leb e.cfg.workers.max_rss_mb 0) _ _
        (λ _. v) (λ _. SameBooks-IsSound h _ (same h _ refl refl refl refl) v)

  start_primary-IsSound : (s : System) → IsSound e s.host → IsSound e (start_primary e s).1.host
  unfolding start_primary
  start_primary-IsSound s v =
      let kept = fork_workers-IsSound e.target s.host v in
      if_cases (λ (r : Bool × System). IsSound e r.1.host) (fork_workers e e.target s.host).0 _ _
        (λ _. start_recycling-IsSound (fork_workers e e.target s.host).1 kept) (λ _. kept)

  start-IsSound : (now : ℕ) → IsSound e (start_system e now).host
  unfolding start_system start_host keys has
  start-IsSound now = record {
    counted = record { distinct = tt; counted = refl };
    forked = λ j t. absurd (cc t);
  }

  -- All of it holds at every moment of a primary's life.
  pub run-IsSound : (now : ℕ) (is : List Input) → IsSound e (after_start e now is).host
  run-IsSound now is =
      let t = (start_primary e (start_system e now)).1 in
      run-keeps e (IsSound e) SameBooks-IsSound (λ o h up v. fork_worker-IsSound o h v)
        cleanup_worker-IsSound
        (λ h v. record {
          counted = record { distinct = v.counted.distinct; counted = v.counted.counted };
          forked = v.forked;
        })
        is t (start_primary-IsSound (start_system e now) (start-IsSound now))
