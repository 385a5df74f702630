-- ===== src/Restart/Backoff.antt =====
-- packages/worker-manager/src/restart-coordinator.ts: the exponential backoff in closed form.
use native.Mathlib.Nat.{mul_assoc, pow-suc, pow-zero, min-eq_left}
use native.Mathlib.Decide.{dec_le}
use clusterkit.Common.{
  ℕ, zero, suc, ◌*◌, ◌^◌, ◌≤◌, ◌<◌, min, ◌≡◌, refl, ◌∙◌, false, Option, none, some, lt→ltb,
  if_cases, arith,
}
use clusterkit.Fleet.Record.{Host, Env}
use clusterkit.Fleet.{fork_worker}
use clusterkit.Restart.Record.{State, RestartCoordinator, RestartQueueEntry}
use clusterkit.Restart.Loop.{fork_attempt, after_fork, pruned, breaker_open, next_delay}

-- k restarts in a row, each after the delay then due; between two of them anything may happen that
-- leaves the backoff delay alone.
pub data Restarts (e : Env) (s : State) : ℕ → State → Type 0 where
  none_yet : Restarts e s zero s
  meanwhile :
      {k : ℕ} {t : State} (u : State)
      → Restarts e s k t
      → u.coord.backoff_delay ≡ t.coord.backoff_delay
      → Restarts e s k u
  restarted :
      {k : ℕ} {t : State} (x : RestartQueueEntry) (id : ℕ) (u : State)
      → Restarts e s k t
      → breaker_open t ≡ false
      → (fork_worker e none (pruned t).host).0 ≡ some id
      → u ≡ fork_attempt e x (next_delay e t.coord) t
      → Restarts e s (suc k) u

after_fork-backoff :
    (e : Env) (x : RestartQueueEntry) (d : ℕ) (r : Option ℕ × Host) (c : RestartCoordinator)
    (id : ℕ)
    → r.0 ≡ some id
    → 0 < d
    → (after_fork e x d r c).coord.backoff_delay
      ≡ min (d * e.cfg.restart.backoff_multiplier) e.cfg.restart.max_backoff_ms
unfolding after_fork
after_fork-backoff e x d (none, h) c id q pos = cc
after_fork-backoff e x d (some new, h) c id q pos = rw (lt→ltb 0 d pos) refl

attempt-backoff :
    (e : Env) (x : RestartQueueEntry) (d : ℕ) (t : State) (id : ℕ)
    → breaker_open t ≡ false
    → (fork_worker e none (pruned t).host).0 ≡ some id
    → 0 < d
    → (fork_attempt e x d t).coord.backoff_delay
      ≡ min (d * e.cfg.restart.backoff_multiplier) e.cfg.restart.max_backoff_ms
unfolding fork_attempt
attempt-backoff e x d t id shut ok pos =
    if_cases
      (λ (r : State).
        r.coord.backoff_delay
        ≡ min (d * e.cfg.restart.backoff_multiplier) e.cfg.restart.max_backoff_ms)
      (breaker_open t) _ _ (λ open'. cc)
      (λ _.
        after_fork-backoff e x d (fork_worker e none (pruned t).host) (pruned t).coord id ok pos)

-- Capping each step is capping once at the end.
min-mul : (q m cap : ℕ) → 1 ≤ m → min (min q cap * m) cap ≡ min (q * m) cap
min-mul q m cap h = elim (dec_le q cap) [
  | yes below ↦ rw (min-eq_left below)
  | no above ↦ grind arith
]

pow-pos : (m k : ℕ) → 1 ≤ m → 1 ≤ m ^ k
pow-pos m zero h = rw pow-zero (omega arith)
pow-pos m (suc k) h = rw pow-suc (grind (arith, pow-pos m k h))

abbrev due : Env → ℕ → ℕ
due e k =
    min (e.cfg.restart.backoff_ms * e.cfg.restart.backoff_multiplier ^ k)
      e.cfg.restart.max_backoff_ms

module _ (e : Env) (s : State) (z : s.coord.backoff_delay ≡ 0) (pos : 0 < e.cfg.restart.backoff_ms)
    (fits : e.cfg.restart.backoff_ms ≤ e.cfg.restart.max_backoff_ms)
    (grows : 1 ≤ e.cfg.restart.backoff_multiplier) where
  due-pos : (k : ℕ) → 0 < due e k
  due-pos k = grind (arith, pow-pos e.cfg.restart.backoff_multiplier k grows)

  due-suc :
      (k : ℕ)
      → min (due e k * e.cfg.restart.backoff_multiplier) e.cfg.restart.max_backoff_ms
        ≡ due e (suc k)
  due-suc k =
      min-mul _ e.cfg.restart.backoff_multiplier e.cfg.restart.max_backoff_ms grows
      ∙ rw (pow-suc, mul_assoc)

  -- The delay due after k restarts in a row, from no backoff at all: the initial delay multiplied k
  -- times, never above the maximum.
  pub next_delay-Restarts :
      (t : State) (k : ℕ)
      → Restarts e s k t
      → next_delay e t.coord
        ≡ min
            (e.cfg.restart.backoff_ms * e.cfg.restart.backoff_multiplier ^ k)
            e.cfg.restart.max_backoff_ms
  next_delay-Restarts t k none_yet = rw (z, pow-zero) (omega arith)
  next_delay-Restarts t k (meanwhile {t = t'} u r q) = rw q (next_delay-Restarts t' k r)
  next_delay-Restarts t (suc k) (restarted {t = t'} x id u r shut ok q) =
      let ih = next_delay-Restarts t' k r in
      let after = attempt-backoff e x (next_delay e t'.coord) t' id shut ok (rw ih (due-pos k)) in
      ground (arith, ih, after, q, due-suc k, due-pos (suc k))
