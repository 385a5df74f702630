-- ===== src/Fleet.antt =====
-- packages/worker-manager/src/worker-manager.ts: forking, tracking and recycling workers, with the
-- part of the process that all coordinators share (metrics, exit code, readiness, events).
-- `node:cluster` is the parameter `spawn`: the n-th call of `cluster.fork` with an environment
-- returns a worker's id, or throws. What dies and when is the environment's choice.
pub mod Record
pub mod Recycle
pub mod Outcome
pub mod Tracked
use Record.{Host, Env}
use clusterkit.Common.{
  ℕ, zero, suc, ◌+◌, ◌-◌, Bool, true, false, not, ◌&&◌, Option, none, some, List, [], ◌∷◌,
  if◌then◌else◌, ltb, ◌==◌, has, add, delete, lookup, insert, remove, length, filterb,
}
use clusterkit.EnvVars.{EnvVars, is_safe_env, spread}
use clusterkit.Config.{ResolvedConfig}

-- The `setupPrimary` call, once, before the first fork with extra arguments.
unfoldable pub apply_exec_argv : Env → Host → Host
apply_exec_argv e h = elim e.cfg.workers.exec_argv [
  | none ↦ h
  | some args ↦
      if not h.applied_exec_argv && ltb 0 (length args)
      then record h { applied_exec_argv = true; setups = suc h.setups }
      else h
]

-- `{ ...this.cfg.workers.env, ...envOverlay }` where an overlay is given.
unfoldable pub merged_env : Option EnvVars → Option EnvVars → Option EnvVars
merged_env base none = base
merged_env none (some overlay) = some (spread [] overlay)
merged_env (some base) (some overlay) = some (spread base overlay)

-- The new worker is tracked from now on and counted as active.
unfoldable pub tracked : ℕ → Host → Host
tracked id h = record h {
  live = add id h.live;
  start_times = insert id h.now h.start_times;
  metrics = record h.metrics { active_workers = suc h.metrics.active_workers };
}

-- What `cluster.fork` did: `none` is a throw.
unfoldable pub forked : Option ℕ → Host → Option ℕ × Host
unfolding tracked
forked none h = (none, record h { attempts = suc h.attempts })
forked (some id) h = (some id, record (tracked id h) { attempts = suc h.attempts })

-- `none` where the function throws.
unfoldable pub fork_worker : Env → Option EnvVars → Host → Option ℕ × Host
unfolding apply_exec_argv merged_env forked is_safe_env
fork_worker e overlay h =
    let h' = apply_exec_argv e h in
    if not (is_safe_env e.cfg.workers.env)
    then (none, h')
    else if not (is_safe_env overlay)
    then (none, h')
    else forked (e.spawn h'.attempts (merged_env e.cfg.workers.env overlay)) h'

-- A throw leaves the loop.
unfoldable pub fork_workers : Env → ℕ → Host → Bool × Host
fork_workers e zero h = (true, h)
fork_workers e (suc n) h =
    let (w, h') = fork_worker e none h in
    elim w [ none ↦ (false, h') | some id ↦ fork_workers e n h' ]

-- `Object.values(cluster.workers)` that are not dead.
abbrev pub get_active_workers : Host → List ℕ
get_active_workers h = h.live

age_since : ℕ → Option ℕ → ℕ
age_since now none = 0
age_since now (some zero) = 0
age_since now (some (suc t)) = now - suc t

unfoldable pub get_worker_age : ℕ → Host → ℕ
unfolding age_since
get_worker_age id h = age_since h.now (lookup id h.start_times)

unfoldable pub mark_for_recycling : ℕ → Host → Host
mark_for_recycling id h = record h { recycling = add id h.recycling }

abbrev pub get_recycling_count : Host → ℕ
get_recycling_count h = length h.recycling

abbrev pub is_marked_for_recycling : ℕ → Host → Bool
is_marked_for_recycling id h = has id h.recycling

unfoldable pub cleanup_worker : ℕ → Host → Host
cleanup_worker id h = record h {
  start_times = remove id h.start_times;
  recycling = delete id h.recycling;
  pending_recycles = delete id h.pending_recycles;
  metrics = record h.metrics { active_workers = h.metrics.active_workers - 1 };
}

unfoldable pub stop_recycling : Host → Host
stop_recycling h = record h { pending_recycles = []; recycling = []; sweeping = false }
