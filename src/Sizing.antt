-- ===== src/Sizing.antt =====
-- packages/worker-manager/src/orchestrator.ts and sizing.ts: how many workers the fleet is to have.
-- What the process sees of its surroundings (WEB_CONCURRENCY, the CPUs, the control group's limit)
-- is an argument, which can differ from call to call.
pub mod Fixed
use Prim.Native.Char.{Char, code}
use Prim.Native.String.{String, [] as end, ◌∷◌ as ◌⊳◌}
use clusterkit.Common.{
  ℕ, suc, ◌+◌, ◌-◌, ◌*◌, ◌/◌, ◌^◌, Bool, true, false, not, ◌&&◌, ◌||◌, Option, none, some,
  if◌then◌else◌, ltb, leb, ◌==◌,
}
use clusterkit.Config.{Count, auto, fixed}
use clusterkit.Validation.Numbers.{Num, finite, not_a_number, infinite, whole, is_integer, lt}
use clusterkit.Validation.Text.{trim_start}

pub record Surroundings : Type 0 where
  pub web_concurrency : Option String
  pub host_cpus : ℕ  -- os.availableParallelism()
  pub cgroup_limit : Option ℕ  -- getCgroupCpuLimit()

-- `cfg.workers.count`, `hasForked` and `cachedAutoWorkerCount`.
pub record Sizing : Type 0 where
  pub count : Count ℕ
  pub has_forked : Bool
  pub cached : Option ℕ

abbrev pub max_auto_workers : ℕ
max_auto_workers = 256

-- `getCPUCount`: the lower of the control group's limit and the host's CPUs.
unfoldable pub lower : ℕ → Option ℕ → ℕ
lower host none = host
lower host (some limit) = if ltb limit host then limit else host

unfoldable pub get_cpu_count : Surroundings → ℕ
unfolding lower
get_cpu_count w = lower w.host_cpus w.cgroup_limit

abbrev pub is_digit : Char → Bool
is_digit c = leb 48 (code c) && leb (code c) 57

-- The digits that come next, after the value `n` so far.
unfoldable pub digits : ℕ → String → ℕ
digits n end = n
digits n (c ⊳ s) = let more = digits (10 * n + (code c - 48)) s in if is_digit c then more else n

-- After the sign: at least one digit, else NaN.
magnitude : String → Option ℕ
unfolding digits
magnitude end = none
magnitude (c ⊳ s) = if is_digit c then some (digits 0 (c ⊳ s)) else none

-- After the white space: a negative number is as good as zero for the test `parsed > 0`.
unfoldable pub signed : String → Option ℕ
unfolding magnitude
signed end = none
signed (c ⊳ s) =
    if code c == 45 then none else if code c == 43 then magnitude s else magnitude (c ⊳ s)

-- Finite and positive; from 2 ^ 1024 - 2 ^ 970 on the number is Infinity.
unfoldable pub positive : Option ℕ → Option ℕ
positive none = none
positive (some n) = if ltb 0 n && ltb n (2 ^ 1024 - 2 ^ 970) then some n else none

-- `Number.parseInt(s, 10)` where it is finite and positive.
unfoldable pub parse_positive : String → Option ℕ
unfolding signed trim_start positive
parse_positive s = positive (signed (trim_start s))

-- What WEB_CONCURRENCY asks for, up to the maximum; else the CPU count.
unfoldable pub clamped : ℕ → Option ℕ → ℕ
clamped cpus none = cpus
clamped cpus (some n) = if ltb max_auto_workers n then max_auto_workers else n

unfoldable pub requested : ℕ → Option String → ℕ
unfolding clamped
requested cpus none = cpus
requested cpus (some s) = clamped cpus (parse_positive s)

-- `computeAutoWorkerCount`.
unfoldable pub compute_auto_worker_count : Surroundings → ℕ
unfolding requested
compute_auto_worker_count w = requested (get_cpu_count w) w.web_concurrency

-- `resolveWorkerCount`, by the configured count and the cached one.
unfoldable pub resolve_at : Surroundings → Sizing → Count ℕ → Option ℕ → ℕ × Sizing
resolve_at w s (fixed n) cached = (n, s)
resolve_at w s auto (some n) = (n, s)
resolve_at w s auto none =
    (compute_auto_worker_count w, record s { cached = some (compute_auto_worker_count w) })

unfoldable pub resolve_worker_count : Surroundings → Sizing → ℕ × Sizing
unfolding resolve_at
resolve_worker_count w s = resolve_at w s s.count s.cached

abbrev pub is_auto : Count ℕ → Bool
is_auto auto = true
is_auto (fixed n) = false

-- The value of a whole number.
abbrev pub whole_of : Num → ℕ
whole_of (finite s n d) = n / suc d
whole_of not_a_number = 0
whole_of (infinite s) = 0

-- `overrideWorkerCount`; `none` where it throws.
unfoldable pub override_worker_count : Num → Sizing → Option Sizing
override_worker_count n s =
    if lt n (whole 1) || not (is_integer n)
    then none
    else if lt (whole max_auto_workers) n
    then none
    else if not (is_auto s.count)
    then none
    else if s.has_forked
    then none
    else some (record s { count = fixed (whole_of n) })
