-- ===== src/Container/Memory.antt =====
-- packages/plugin-container-sizing/src/calculator.ts: the memory that a sizing gives its workers.
use native.Mathlib.Nat.{
  mul_comm, mul_assoc, div-le_of_le-mul, div-mul-le_self, le_of_mul-le-mul_right, mul-le-mul_right,
  mul-le-mul_left,
}
use clusterkit.Common.{
  ℕ, zero, suc, ◌*◌, ◌≤◌, max, ◌≡◌, sym, subst, ap, ◌∙◌, Bool, true, false, ltb, arith, Option,
  none, some,
}
use clusterkit.Validation.Numbers.{Num, finite, infinite, not_a_number}
use clusterkit.Cgroup.{CgroupLimits}
use clusterkit.Container.Options.{
  SizingOptions, memory_overhead_factor_of, heap_ratio_of, validate_sizing_options,
}
use clusterkit.Container.{
  Host, SizingResult, min_viable_heap_mb, divided, count_for, sizing_of, calculate_sizing,
  effective_memory, raw_heap, memory_per_worker, top_of, bottom_of,
}
use clusterkit.Container.Bounds.{validate_IsValid, accepted}

divided_le : (n d : ℕ) → divided n d * d ≤ n
unfolding divided
divided_le n zero = omega arith
divided_le n (suc d) = div-mul-le_self n (suc d)

-- A fraction of something is no more than it.
part_le : (n t b : ℕ) → t ≤ b → divided (n * t) b ≤ n
unfolding divided
part_le n t zero h = omega arith
part_le n t (suc b) h =
    div-le_of_le-mul (suc b)
      (subst (λ (k : ℕ). n * t ≤ k) (mul_comm n (suc b)) (mul-le-mul_left n h))

-- So it is of what is divided further.
share_le : (m t b w : ℕ) → 1 ≤ b → t ≤ b → divided (m * t) (b * w * 1048576) * (w * 1048576) ≤ m
share_le m t b w p h =
    let q = divided (m * t) (b * w * 1048576) in
    le_of_mul-le-mul_right {k = b}
      (omega (arith, divided_le (m * t) (b * w * 1048576), mul-le-mul_left m h, regroup q b w)) p
  where
    regroup : (q b w : ℕ) → q * (w * 1048576) * b ≡ q * (b * w * 1048576)
    regroup q b w =
        mul_assoc q (w * 1048576) b
        ∙ ap (λ (k : ℕ). q * k) (mul_comm (w * 1048576) b ∙ sym (mul_assoc b w 1048576))

bottom_pos : (x : Num) → 1 ≤ bottom_of x
bottom_pos (finite s n d) = omega arith
bottom_pos not_a_number = omega arith
bottom_pos (infinite s) = omega arith

abbrev Fits : CgroupLimits → Host → SizingResult → Type 0
Fits limits host r =
    r.constrained ≡ false
    → r.v8_heap_mb * (r.workers * 1048576)
      ≤ effective_memory limits.memory_limit_bytes host.os_total_memory_bytes

sizing-Fits :
    (limits : CgroupLimits) (host : Host) (o : SizingOptions)
    → validate_sizing_options o ≡ true
    → Fits limits host (sizing_of limits host o (count_for limits host o))
unfolding sizing_of raw_heap memory_per_worker
sizing-Fits limits host o h c =
    let v = validate_IsValid o h in
    let workers = count_for limits host o in
    let mb = memory_per_worker limits host o workers in
    let memory = effective_memory limits.memory_limit_bytes host.os_total_memory_bytes in
    omega (
      arith,
      mul-le-mul_right (workers * 1048576) (
          le_of_max (raw_heap o mb) mb c
            (part_le mb (top_of (heap_ratio_of o)) (bottom_of (heap_ratio_of o)) v.ratio)),
      share_le memory (top_of (memory_overhead_factor_of o))
          (bottom_of (memory_overhead_factor_of o)) workers
          (bottom_pos (memory_overhead_factor_of o)) v.overhead,
    )
  where
    le_of_max :
        (raw mb : ℕ)
        → ltb raw min_viable_heap_mb ≡ false
        → raw ≤ mb
        → max raw min_viable_heap_mb ≤ mb
    le_of_max raw mb c k = ground (arith, c, k)

-- The memory that the workers share: the limit that the container has, else what the host has.
pub data Available (limits : CgroupLimits) (host : Host) : ℕ → Type 0 where
  of_container : (n : ℕ) → limits.memory_limit_bytes ≡ some (false, n) → Available limits host n
  of_host : limits.memory_limit_bytes ≡ none → Available limits host host.os_total_memory_bytes

effective_memory_lem :
    (limits : CgroupLimits) (host : Host) (m : ℕ)
    → Available limits host m
    → effective_memory limits.memory_limit_bytes host.os_total_memory_bytes ≡ m
unfolding effective_memory
effective_memory_lem limits host m (of_container n e) =
    ap (λ (o : Option (Bool × ℕ)). effective_memory o host.os_total_memory_bytes) e
effective_memory_lem limits host m (of_host e) =
    ap (λ (o : Option (Bool × ℕ)). effective_memory o host.os_total_memory_bytes) e

-- A sizing that is not flagged as constrained does not over-commit: the heaps of its workers fit
-- together into the container's memory limit, or into the host's memory where there is none.
pub heaps_fit :
    (limits : CgroupLimits) (host : Host) (o : SizingOptions) (r : SizingResult) (m : ℕ)
    → Available limits host m
    → calculate_sizing limits host o ≡ some r
    → r.constrained ≡ false
    → r.v8_heap_mb * (r.workers * 1048576) ≤ m
heaps_fit limits host o r m a h c =
    let (v, e) = accepted limits host o r h in
    subst (λ (m : ℕ). r.v8_heap_mb * (r.workers * 1048576) ≤ m)
      (effective_memory_lem limits host m a)
      (subst (λ (r : SizingResult). Fits limits host r) e (sizing-Fits limits host o v) c)
