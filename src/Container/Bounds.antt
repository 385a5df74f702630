-- ===== src/Container/Bounds.antt =====
-- packages/plugin-container-sizing/src/calculator.ts: the bounds of a sizing.
use native.Mathlib.Nat.{mul_comm, le-div_iff_mul-le, div-le_of_le-mul}
use clusterkit.Common.{ℕ, suc, ◌≤◌, max, ◌≡◌, subst, true, false, if_cases, arith, some}
use clusterkit.Validation.Numbers.{
  Num, finite, not_a_number, infinite, whole, lt, not_below, not_above,
}
use clusterkit.Sizing.{whole_of}
use clusterkit.Cgroup.{CgroupLimits}
use clusterkit.Container.Options.{
  SizingOptions, min_workers_of, max_workers_of, memory_overhead_factor_of, heap_ratio_of,
  strategy_of, is_cpu_first, assert_positive_integer, assert_fraction, validate_sizing_options,
  max_reasonable_workers,
}
use clusterkit.Container.{
  Host, SizingResult, min_viable_heap_mb, start_count, count_for, sizing_of, calculate_sizing,
  top_of, bottom_of, heap_mb, effective_memory,
}
use clusterkit.Container.StepDown.{step_down_lem}

-- A positive integer of at most 256.
counted :
    (x : Num)
    → assert_positive_integer x ≡ true
    → lt (whole max_reasonable_workers) x ≡ false
    → (1 ≤ whole_of x) × (whole_of x ≤ max_reasonable_workers)
unfolding assert_positive_integer
counted not_a_number a b = absurd (cc a)
counted (infinite s) a b = absurd (cc a)
counted (finite s n d) a b =
    let (above, signed) = not_below 1 s n d (ground (arith, a)) in
    (
      (le-div_iff_mul-le (omega arith)).1 above,
      div-le_of_le-mul (suc d) (
          subst (λ (k : ℕ). n ≤ k) (mul_comm max_reasonable_workers (suc d))
            (not_above max_reasonable_workers s n d signed b)),
    )

-- A fraction of at most one.
is_fraction : (x : Num) → assert_fraction x ≡ true → top_of x ≤ bottom_of x
unfolding assert_fraction lt
is_fraction not_a_number a = absurd (cc a)
is_fraction (infinite s) a = absurd (cc a)
is_fraction (finite true n d) a = absurd (cc a)
is_fraction (finite false n d) a =
    omega (arith, not_above 1 false n d (λ e. absurd (cc e)) (ground (arith, a)))

-- What passing the checks means.
pub record IsValid (o : SizingOptions) : Type 0 where
  pub overhead : top_of (memory_overhead_factor_of o) ≤ bottom_of (memory_overhead_factor_of o)
  pub ratio : top_of (heap_ratio_of o) ≤ bottom_of (heap_ratio_of o)
  pub some_worker : 1 ≤ whole_of (min_workers_of o)
  pub least_bounded : whole_of (min_workers_of o) ≤ max_reasonable_workers
  pub most_bounded : whole_of (max_workers_of o) ≤ max_reasonable_workers

pub validate_IsValid : (o : SizingOptions) → validate_sizing_options o ≡ true → IsValid o
unfolding validate_sizing_options
validate_IsValid o h =
    let overhead = memory_overhead_factor_of o in
    let ratio = heap_ratio_of o in
    let least = min_workers_of o in
    let most = max_workers_of o in
    record {
      overhead = is_fraction overhead (ground (arith, h));
      ratio = is_fraction ratio (ground (arith, h));
      some_worker = (counted least (ground (arith, h)) (ground (arith, h))).0;
      least_bounded = (counted least (ground (arith, h)) (ground (arith, h))).1;
      most_bounded = (counted most (ground (arith, h)) (ground (arith, h))).1;
    }

-- The count stays between the least and the start.
count_between :
    (limits : CgroupLimits) (host : Host) (o : SizingOptions)
    → (whole_of (min_workers_of o) ≤ count_for limits host o)
      × (count_for limits host o ≤ max (whole_of (min_workers_of o)) (whole_of (max_workers_of o)))
unfolding count_for
count_between limits host o =
    let least = whole_of (min_workers_of o) in
    let most = whole_of (max_workers_of o) in
    let start = start_count limits host least most in
    if_cases (λ (n : ℕ). (least ≤ n) × (n ≤ max least most)) (is_cpu_first (strategy_of o)) start _
      (λ _. (omega arith, omega arith))
      λ _.
        let r =
          step_down_lem
            (heap_mb (effective_memory limits.memory_limit_bytes host.os_total_memory_bytes)
              (memory_overhead_factor_of o) (heap_ratio_of o))
            least start (omega arith) in
        (r.not_less, omega (arith, r.not_more))

-- Between the two bounds of the options, and at most 256.
pub record IsSized (o : SizingOptions) (r : SizingResult) : Type 0 where
  pub not_less : whole_of (min_workers_of o) ≤ r.workers
  pub some_worker : 1 ≤ r.workers
  pub bounded : r.workers ≤ max_reasonable_workers
  pub heap_viable : min_viable_heap_mb ≤ r.v8_heap_mb

sizing-IsSized :
    (limits : CgroupLimits) (host : Host) (o : SizingOptions)
    → validate_sizing_options o ≡ true
    → IsSized o (sizing_of limits host o (count_for limits host o))
unfolding sizing_of
sizing-IsSized limits host o h =
    let v = validate_IsValid o h in
    let b = count_between limits host o in
    record {
      not_less = b.0;
      some_worker = omega (arith, b.0, v.some_worker);
      bounded = omega (arith, b.1, v.least_bounded, v.most_bounded);
      heap_viable = omega arith;
    }

-- Where calculateSizing returns, it does so with valid options, for the count that the loop gives.
pub accepted :
    (limits : CgroupLimits) (host : Host) (o : SizingOptions) (r : SizingResult)
    → calculate_sizing limits host o ≡ some r
    → (validate_sizing_options o ≡ true) × (sizing_of limits host o (count_for limits host o) ≡ r)
unfolding calculate_sizing
accepted limits host o r h = ground (arith, h)

-- Whatever the limits and the host, a sizing that is not refused has at least minWorkers workers,
-- at least one and at most 256, and a heap of at least 128 MB.
pub calculate_sizing-IsSized :
    (limits : CgroupLimits) (host : Host) (o : SizingOptions) (r : SizingResult)
    → calculate_sizing limits host o ≡ some r
    → IsSized o r
calculate_sizing-IsSized limits host o r h =
    let (v, e) = accepted limits host o r h in subst (IsSized o) e (sizing-IsSized limits host o v)
