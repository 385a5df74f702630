-- ===== src/Container.antt =====
-- packages/plugin-container-sizing/src/calculator.ts: the worker count and the heap that a
-- container's limits allow. Numbers are exact fractions, not rounded to doubles.
pub mod Options
pub mod StepDown
pub mod Bounds
pub mod Plugin
pub mod Memory
use Prim.Native.String.{String}
use clusterkit.Common.{
  ℕ, zero, suc, ◌+◌, ◌-◌, ◌*◌, ◌/◌, ◌%◌, max, min, Bool, true, false, not, ◌&&◌, ◌||◌, Option, none,
  some, if◌then◌else◌, ltb, leb, ◌==◌,
}
use clusterkit.Texts.{append}
use clusterkit.Validation.Numbers.{
  Num, finite, infinite, not_a_number, whole, lt, is_finite, is_integer,
}
use clusterkit.Sizing.{whole_of}
use clusterkit.Cgroup.{CgroupLimits, Quota, whole_quotient}
use clusterkit.Container.Options.{
  SizingOptions, Strategy, balanced, cpu_first, memory_overhead_factor_of, heap_ratio_of,
  min_workers_of, max_workers_of, strategy_of, validate_sizing_options, is_cpu_first, show,
}

-- `os.availableParallelism()` and `os.totalmem()`.
pub record Host : Type 0 where
  pub os_cpus : ℕ
  pub os_total_memory_bytes : ℕ

pub record SizingResult : Type 0 where
  pub workers : ℕ
  pub memory_per_worker_mb : ℕ
  pub v8_heap_mb : ℕ
  pub constrained : Bool
  pub node_options : String
  pub limits : CgroupLimits  -- `source`, with the host
  pub host : Host

abbrev pub min_viable_heap_mb : ℕ
min_viable_heap_mb = 128

-- The numerator and the denominator of a positive number.
abbrev pub top_of : Num → ℕ
top_of (finite s n d) = n
top_of not_a_number = 0
top_of (infinite s) = 0

abbrev pub bottom_of : Num → ℕ
bottom_of (finite s n d) = suc d
bottom_of not_a_number = 1
bottom_of (infinite s) = 1

-- `Math.floor(effectiveCpu)`; a negative quotient counts as 0, since `minWorkers` is at least 1.
unfoldable pub whole_cpus : Option Quota → ℕ → ℕ
unfolding whole_quotient
whole_cpus none os_cpus = os_cpus
whole_cpus (some q) os_cpus =
    if (q.quota.0 && not q.period.0) || (not q.quota.0 && q.period.0)
    then 0
    else whole_quotient q.quota.1 q.period.1

-- `effectiveMemory`; the kernel writes no negative limit, which would count as 0.
unfoldable pub effective_memory : Option (Bool × ℕ) → ℕ → ℕ
effective_memory none os_memory = os_memory
effective_memory (some (true, n)) os_memory = 0
effective_memory (some (false, n)) os_memory = n

-- `Math.floor(((effectiveMemory * memoryOverheadFactor) / workers / (1024 * 1024)) * heapRatio)`.
unfoldable pub divided : ℕ → ℕ → ℕ
divided n zero = 0
divided n (suc d) = n / suc d

unfoldable pub heap_mb : ℕ → Num → Num → ℕ → ℕ
unfolding divided
heap_mb memory overhead ratio workers =
    divided (memory * top_of overhead * top_of ratio)
      (bottom_of overhead * bottom_of ratio * workers * 1048576)

-- The loop that steps the count down.
unfoldable pub step_down : (ℕ → ℕ) → ℕ → ℕ → ℕ
step_down heap min_workers zero = zero
step_down heap min_workers (suc workers) =
    let fewer = step_down heap min_workers workers in
    if not (ltb min_workers (suc workers))
    then suc workers
    else if leb min_viable_heap_mb (heap (suc workers))
    then suc workers
    else fewer

abbrev pub start_count : CgroupLimits → Host → ℕ → ℕ → ℕ
start_count limits host min_workers max_workers =
    max min_workers (min max_workers (whole_cpus limits.cpu_limit host.os_cpus))

unfoldable pub count_for : CgroupLimits → Host → SizingOptions → ℕ
unfolding step_down effective_memory
count_for limits host o =
    let least = whole_of (min_workers_of o) in
    let start = start_count limits host least (whole_of (max_workers_of o)) in
    if is_cpu_first (strategy_of o)
    then start
    else step_down
        (heap_mb (effective_memory limits.memory_limit_bytes host.os_total_memory_bytes)
          (memory_overhead_factor_of o) (heap_ratio_of o))
        least start

unfoldable pub memory_per_worker : CgroupLimits → Host → SizingOptions → ℕ → ℕ
unfolding divided effective_memory
memory_per_worker limits host o workers =
    divided
      (effective_memory limits.memory_limit_bytes host.os_total_memory_bytes
        * top_of (memory_overhead_factor_of o))
      (bottom_of (memory_overhead_factor_of o) * workers * 1048576)

unfoldable pub raw_heap : SizingOptions → ℕ → ℕ
unfolding divided
raw_heap o mb = divided (mb * top_of (heap_ratio_of o)) (bottom_of (heap_ratio_of o))

unfoldable pub sizing_of : CgroupLimits → Host → SizingOptions → ℕ → SizingResult
unfolding memory_per_worker raw_heap show
sizing_of limits host o workers =
    let mb = memory_per_worker limits host o workers in
    let raw = raw_heap o mb in
    record {
      workers = workers;
      memory_per_worker_mb = mb;
      v8_heap_mb = max raw min_viable_heap_mb;
      constrained = ltb raw min_viable_heap_mb;
      node_options = append "--max-old-space-size=" (show (max raw min_viable_heap_mb));
      limits = limits;
      host = host;
    }

-- `calculateSizing`; `none` where the options are refused.
unfoldable pub calculate_sizing : CgroupLimits → Host → SizingOptions → Option SizingResult
unfolding sizing_of count_for validate_sizing_options
calculate_sizing limits host o =
    if validate_sizing_options o
    then some (sizing_of limits host o (count_for limits host o))
    else none
