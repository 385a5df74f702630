-- ===== src/Sizing/Fixed.antt =====
-- packages/worker-manager/src/orchestrator.ts and sizing.ts: bounds and stability of the worker
-- count.
use clusterkit.Common.{
  ℕ, ◌≤◌, max, ◌≡◌, ◌⊎◌, refl, ap, ◌∙◌, true, not, ◌||◌, Option, none, some, List, [], ◌∷◌,
  if_cases, inl, inr, arith,
}
use clusterkit.Config.{Count, auto, fixed}
use clusterkit.Validation.Numbers.{Num, whole, is_integer, lt}
use Prim.Native.String.{String}
use clusterkit.Validation.Text.{trim_start}
use clusterkit.Sizing.{
  signed, lower, clamped, requested, resolve_at, Surroundings, Sizing, max_auto_workers,
  get_cpu_count, positive, parse_positive, compute_auto_worker_count, resolve_worker_count, is_auto,
  override_worker_count,
}

-- Between 1 and the larger of a and b.
abbrev pub Bounded : ℕ → ℕ → ℕ → Type 0
Bounded a b n = (1 ≤ n) × (n ≤ max a b)

lower-Bounded :
    (host : ℕ) (o : Option ℕ)
    → 1 ≤ host
    → ((n : ℕ) → o ≡ some n → 1 ≤ n)
    → Bounded 256 host (lower host o)
unfolding lower
lower-Bounded host none cpus limited = (cpus, omega arith)
lower-Bounded host (some n) cpus limited =
    (ground (arith, limited n refl, cpus), ground (arith, cpus))

positive-pos : (o : Option ℕ) (n : ℕ) → positive o ≡ some n → 1 ≤ n
unfolding positive
positive-pos none n h = absurd (cc h)
positive-pos (some m) n h = ground (arith, h)

clamped-Bounded :
    (host cpus : ℕ) (o : Option ℕ)
    → Bounded 256 host cpus
    → ((n : ℕ) → o ≡ some n → 1 ≤ n)
    → Bounded 256 host (clamped cpus o)
unfolding clamped
clamped-Bounded host cpus none v pos = v
clamped-Bounded host cpus (some n) v pos = (ground (arith, pos n refl), ground arith)

requested-Bounded :
    (host cpus : ℕ) (o : Option String)
    → Bounded 256 host cpus
    → Bounded 256 host (requested cpus o)
unfolding requested parse_positive
requested-Bounded host cpus none v = v
requested-Bounded host cpus (some s) v =
    clamped-Bounded host cpus (parse_positive s) v (positive-pos (signed (trim_start s)))

-- The automatic worker count is at least one and at most the larger of 256 and the host's CPUs,
-- whatever WEB_CONCURRENCY says, if there is a CPU and the control group's limit is not zero.
pub auto-Bounded :
    (w : Surroundings)
    → 1 ≤ w.host_cpus
    → ((n : ℕ) → w.cgroup_limit ≡ some n → 1 ≤ n)
    → Bounded 256 w.host_cpus (compute_auto_worker_count w)
unfolding compute_auto_worker_count get_cpu_count
auto-Bounded w cpus limited =
    requested-Bounded w.host_cpus (get_cpu_count w) w.web_concurrency
      (lower-Bounded w.host_cpus w.cgroup_limit cpus limited)

-- What can be called while the fleet runs, each time in surroundings of its own.
pub data Call : Type 0 where
  resolves : Surroundings → Call
  overrides : Num → Call

-- A throw changes nothing.
abbrev kept : Sizing → Option Sizing → Sizing
kept s none = s
kept s (some t) = t

abbrev pub call : Call → Sizing → Sizing
call (resolves w) s = (resolve_worker_count w s).1
call (overrides n) s = kept s (override_worker_count n s)

unfoldable pub calls : List Call → Sizing → Sizing
calls [] s = s
calls (c ∷ cs) s = calls cs (call c s)

-- The fleet is forked, and this is its size.
record IsSettled (n : ℕ) (s : Sizing) : Type 0 where
  forked : s.has_forked ≡ true
  size : (s.count ≡ fixed n) ⊎ ((s.count ≡ auto) × (s.cached ≡ some n))

resolve-settled :
    (n : ℕ) (w : Surroundings) (s : Sizing) → IsSettled n s → resolve_worker_count w s ≡ (n, s)
unfolding resolve_worker_count resolve_at
resolve-settled n w s v = go v.size
  where
    go :
        (s.count ≡ fixed n) ⊎ ((s.count ≡ auto) × (s.cached ≡ some n))
        → resolve_at w s s.count s.cached ≡ (n, s)
    go (inl q) = ap (λ c. resolve_at w s c s.cached) q
    go (inr (q, r)) = ap (λ c. resolve_at w s c s.cached) q ∙ ap (λ o. resolve_at w s auto o) r

override-settled :
    (n : ℕ) (x : Num) (s : Sizing) → IsSettled n s → kept s (override_worker_count x s) ≡ s
unfolding override_worker_count
override-settled n x s v =
    let P : Option Sizing → Type 0 = λ o. kept s o ≡ s in
    if_cases P (lt x (whole 1) || not (is_integer x)) _ _ (λ _. refl)
      λ _.
        if_cases P (lt (whole max_auto_workers) x) _ _ (λ _. refl)
          λ _.
            if_cases P (not (is_auto s.count)) _ _ (λ _. refl)
              λ _. if_cases P s.has_forked _ _ (λ _. refl) (λ q. absurd (cc (q, v.forked)))

call-settled : (n : ℕ) (c : Call) (s : Sizing) → IsSettled n s → call c s ≡ s
call-settled n (resolves w) s v = ap (λ r. r.1) (resolve-settled n w s v)
call-settled n (overrides x) s v = override-settled n x s v

calls-settled : (n : ℕ) (cs : List Call) (s : Sizing) → IsSettled n s → calls cs s ≡ s
unfolding calls
calls-settled n [] s v = refl
calls-settled n (c ∷ cs) s v = ap (calls cs) (call-settled n c s v) ∙ calls-settled n cs s v

resolve-IsSettled :
    (w : Surroundings) (s : Sizing)
    → let r = resolve_worker_count w s in IsSettled r.0 (record r.1 { has_forked = true })
unfolding resolve_worker_count resolve_at
resolve-IsSettled w s = go s.count s.cached refl refl
  where
    go :
        (c : Count ℕ) (o : Option ℕ)
        → s.count ≡ c
        → s.cached ≡ o
        → IsSettled (resolve_at w s c o).0 (record (resolve_at w s c o).1 { has_forked = true })
    go (fixed n) o q r = record { forked = refl; size = inl q }
    go auto (some n) q r = record { forked = refl; size = inr (q, r) }
    go auto none q r = record { forked = refl; size = inr (q, refl) }

-- The fleet's size is settled by the time it is forked: whatever is resolved or overridden
-- afterwards, and however the surroundings change meanwhile, the count resolved before the fork is
-- the count resolved ever after.
pub resolve_worker_count_settled :
    (w w' : Surroundings) (s : Sizing) (cs : List Call)
    → let r = resolve_worker_count w s in
      (resolve_worker_count w' (calls cs (record r.1 { has_forked = true }))).0 ≡ r.0
resolve_worker_count_settled w w' s cs =
    let r = resolve_worker_count w s in
    let t : Sizing = record (r.1) { has_forked = true } in
    let v : IsSettled r.0 t = resolve-IsSettled w s in
    ap (λ u. (resolve_worker_count w' u).0) (calls-settled r.0 cs t v)
    ∙ ap (λ p. p.0) (resolve-settled r.0 w' t v)
