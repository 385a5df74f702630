-- ===== src/Fleet/Tracked.antt =====
-- packages/worker-manager/src/worker-manager.ts: the books, with one entry for each tracked worker.
use clusterkit.Common.{
  ℕ, suc, ◌-◌, ◌≤◌, ◌≡◌, true, false, Option, some, List, length, arith, has, Distinct, keys,
  insert, remove, keys-insert, keys-remove, length-add, length-delete, add-Distinct,
  delete-Distinct,
}
use clusterkit.EnvVars.{EnvVars}
use clusterkit.Fleet.Record.{Host, Env}
use clusterkit.Fleet.{fork_worker, cleanup_worker}
use clusterkit.Fleet.Outcome.{Forked, failed, started, fork_worker-Forked}

-- The metric `activeWorkers` is the number of tracked workers, and no id is tracked twice.
pub record IsCounted (h : Host) : Type 0 where
  pub distinct : Distinct (keys h.start_times)
  pub counted : h.metrics.active_workers ≡ length (keys h.start_times)

-- `node:cluster` gives every worker a new id.
abbrev pub IsFresh : Env → Host → Type 0
IsFresh e h =
    (n : ℕ) (env : Option EnvVars) (id : ℕ)
    → e.spawn n env ≡ some id
    → h.attempts ≤ n
    → has id (keys h.start_times) ≡ false

insert-IsCounted :
    (id t : ℕ) (m : List (ℕ × ℕ)) (active : ℕ)
    → has id (keys m) ≡ false
    → Distinct (keys m)
    → active ≡ length (keys m)
    → Distinct (keys (insert id t m)) × (suc active ≡ length (keys (insert id t m)))
insert-IsCounted id t m active h d c =
    rw (keys-insert id t m) (add-Distinct id (keys m) d, ground (arith, length-add id (keys m)))

remove-IsCounted :
    (id : ℕ) (m : List (ℕ × ℕ)) (active : ℕ)
    → has id (keys m) ≡ true
    → Distinct (keys m)
    → active ≡ length (keys m)
    → Distinct (keys (remove id m)) × (active - 1 ≡ length (keys (remove id m)))
remove-IsCounted id m active h d c =
    rw (keys-remove id m)
      (delete-Distinct id (keys m) d, ground (arith, length-delete id (keys m) d))

pub fork_worker-IsCounted :
    (e : Env) (overlay : Option EnvVars) (h : Host)
    → IsFresh e h
    → IsCounted h
    → IsCounted (fork_worker e overlay h).1
fork_worker-IsCounted e overlay h fr v = go (fork_worker-Forked e overlay h)
  where
    go : Forked e h (fork_worker e overlay h) → IsCounted (fork_worker e overlay h).1
    go (failed a b s lo hi q) = rw q (record { distinct = v.distinct; counted = v.counted })
    go (started id n env b s sp q) =
        let fresh = fr n env id sp.2 sp.0 in
        let (d, c) =
          insert-IsCounted id h.now h.start_times h.metrics.active_workers fresh v.distinct
            v.counted in
        rw q (record { distinct = d; counted = c })

pub cleanup_worker-IsCounted :
    (id : ℕ) (h : Host)
    → has id (keys h.start_times) ≡ true
    → IsCounted h
    → IsCounted (cleanup_worker id h)
unfolding cleanup_worker
cleanup_worker-IsCounted id h t v =
    let (d, c) =
      remove-IsCounted id h.start_times h.metrics.active_workers t v.distinct v.counted in
    record { distinct = d; counted = c }
