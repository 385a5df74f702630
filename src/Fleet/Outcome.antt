-- ===== src/Fleet/Outcome.antt =====
-- packages/worker-manager/src/worker-manager.ts: the two ways in which a fork ends, with the whole
-- state after each.
use clusterkit.Common.{
  ℕ, suc, ◌≤◌, ◌≡◌, refl, Bool, not, ◌&&◌, Option, none, some, inl, inr, Bool-cases, Option-cases,
  add, insert, length, ltb, arith,
}
use clusterkit.EnvVars.{EnvVars, is_safe_env}
use clusterkit.Fleet.Record.{Host, Env}
use clusterkit.Fleet.{fork_worker, forked, apply_exec_argv}

pub data Forked (e : Env) (h : Host) (r : Option ℕ × Host) : Type 0 where
  failed :
      (a : ℕ) (b : Bool) (s : ℕ)
      → h.attempts ≤ a
      → a ≤ suc h.attempts
      → r ≡ (none, record h { attempts = a; applied_exec_argv = b; setups = s })
      → Forked e h r
  started :
      (id n : ℕ) (env : Option EnvVars) (b : Bool) (s : ℕ)
      → (h.attempts ≤ n) × (n ≤ h.attempts) × (e.spawn n env ≡ some id)
      → r ≡ (
        some id,
        record h {
          attempts = suc h.attempts;
          applied_exec_argv = b;
          setups = s;
          live = add id h.live;
          start_times = insert id h.now h.start_times;
          metrics = record h.metrics { active_workers = suc h.metrics.active_workers };
        },
      )
      → Forked e h r

pub apply_exec_argv_lem :
    (e : Env) (h : Host)
    → (b : Bool) × (s : ℕ) × (apply_exec_argv e h ≡ record h { applied_exec_argv = b; setups = s })
unfolding apply_exec_argv
apply_exec_argv_lem e h = elim (Option-cases e.cfg.workers.exec_argv) [
  | inl q ↦ (h.applied_exec_argv, h.setups, rw (q, apply_exec_argv))
  | inr (args, q) ↦ elim (Bool-cases (not h.applied_exec_argv && ltb 0 (length args))) [
    | inl yes' ↦ (Bool.true, suc h.setups, rw (q, apply_exec_argv) (rw yes'))
    | inr no' ↦ (h.applied_exec_argv, h.setups, rw (q, apply_exec_argv) (rw no'))
  ]
]

forked-Forked :
    (e : Env) (h : Host) (b : Bool) (s : ℕ) (env : Option EnvVars) (w : Option ℕ)
    → e.spawn h.attempts env ≡ w
    → Forked e h (forked w (record h { applied_exec_argv = b; setups = s }))
unfolding forked
forked-Forked e h b s env none q = failed (suc h.attempts) b s (omega arith) (omega arith) refl
forked-Forked e h b s env (some id) q =
    started id h.attempts env b s (omega arith, omega arith, q) refl

pub fork_worker-Forked :
    (e : Env) (overlay : Option EnvVars) (h : Host) → Forked e h (fork_worker e overlay h)
unfolding fork_worker
fork_worker-Forked e overlay h =
    let (b, s, q) = apply_exec_argv_lem e h in
    elim (Bool-cases (is_safe_env e.cfg.workers.env)) [
      | inr bad ↦ rw bad (failed h.attempts b s (omega arith) (omega arith) (rw q))
      | inl ok ↦ elim (Bool-cases (is_safe_env overlay)) [
        | inr bad ↦ rw (ok, bad) (failed h.attempts b s (omega arith) (omega arith) (rw q))
        | inl ok' ↦ rw (ok, ok', q) (forked-Forked e h b s _ _ refl)
      ]
    ]
