-- ===== src/Cgroup.antt =====
-- packages/worker-manager/src/cgroup.ts: the limits of the control group. The files are a function
-- from paths to contents, `none` where reading throws, and do not change while the limits are read;
-- `path.join` and `path.resolve` are arguments too.
pub mod Paths
pub mod Bounds
pub mod Confined
use Prim.Native.Char.{Char, code}
use Prim.Native.String.{String, [] as end, ◌∷◌ as ◌⊳◌}
use text.Mathlib.Text.{◌==◌ as str_eq}
use clusterkit.Common.{
  ℕ, zero, suc, ◌+◌, ◌-◌, ◌*◌, ◌/◌, ◌^◌, max, Bool, true, false, not, ◌&&◌, ◌||◌, Option, none,
  some, List, [], ◌∷◌, ◌++◌, map, filterb, anyb, if◌then◌else◌, ltb, leb, ◌==◌,
}
use clusterkit.Sizing.{is_digit}
use clusterkit.Texts.{split_on, join_with, starts_with, is_empty, append, parse_int}
use clusterkit.Validation.Text.{trim}
use clusterkit.Cgroup.Paths.{
  Node, ProcCgroupEntry, controllers_of, path_of, entry_of, parse_proc_self_cgroup,
  normalize_cgroup_path, normalized, guarded, build_candidate_path, with_fallback,
  build_candidate_paths, first_path, no_controllers, get_v2_process_path, get_v1_controller_path,
  trimmed, try_read_first,
}

-- A CPU limit as quota and period, each with its sign.
pub record Quota : Type 0 where
  pub quota : Bool × ℕ
  pub period : Bool × ℕ

-- The guards of `parseCpuLimit`; `none` where there is no limit.
unfoldable pub quota_of : Option (Bool × ℕ) → Option (Bool × ℕ) → Option Quota
quota_of none period = none
quota_of (some q) none = none
quota_of (some q) (some p) =
    if q.0 && q.1 == 1
    then none
    else if p.1 == 0
    then none
    else some (record { quota = q; period = p })

unfoldable pub parse_opt : Option String → Option (Bool × ℕ)
unfolding parse_int
parse_opt none = none
parse_opt (some s) = parse_int s

unfoldable pub parse_cpu_limit : String → Option String → Option Quota
unfolding quota_of parse_opt parse_int
parse_cpu_limit quota_raw period_raw =
    if str_eq quota_raw "max" then none else quota_of (parse_int quota_raw) (parse_opt period_raw)

-- `Math.max(1, Math.floor(quota / period))`: a negative quotient floors below 1.
unfoldable pub whole_quotient : ℕ → ℕ → ℕ
whole_quotient n zero = 0
whole_quotient n (suc d) = n / suc d

unfoldable pub floored : Quota → ℕ
unfolding whole_quotient
floored q =
    if (q.quota.0 && not q.period.0) || (not q.quota.0 && q.period.0)
    then 1
    else max 1 (whole_quotient q.quota.1 q.period.1)

-- `raw.split(" ")` and the two fields.
unfoldable pub limit_of_fields : List String → Option Quota
unfolding parse_cpu_limit
limit_of_fields [] = none
limit_of_fields (q ∷ []) = parse_cpu_limit q none
limit_of_fields (q ∷ p ∷ rest) = parse_cpu_limit q (some p)

-- `if (!raw) return null`.
unfoldable pub non_empty : Option String → Option String
unfolding is_empty
non_empty none = none
non_empty (some s) = if is_empty s then none else some s

unfoldable pub v2_limit : Option String → Option Quota
unfolding limit_of_fields split_on
v2_limit none = none
v2_limit (some raw) = limit_of_fields (split_on 32 raw)

unfoldable pub v1_limit : Option String → Option String → Option Quota
unfolding parse_cpu_limit
v1_limit none period = none
v1_limit (some q) none = none
v1_limit (some q) (some p) = parse_cpu_limit q (some p)

-- `readProcSelfCgroupSync` and `readProcSelfCgroupAsync`.
unfoldable pub entries_of : Option String → List ProcCgroupEntry
unfolding parse_proc_self_cgroup
entries_of none = []
entries_of (some raw) = parse_proc_self_cgroup raw

unfoldable pub read_proc_self_cgroup : Node → List ProcCgroupEntry
unfolding entries_of trimmed
read_proc_self_cgroup e = entries_of (trimmed (e.read_file "/proc/self/cgroup"))

-- `readCgroupV2Sync` and `readV2Cpu`, before the floor.
unfoldable pub read_v2_cpu : Node → Option Quota
unfolding v2_limit non_empty try_read_first build_candidate_paths get_v2_process_path
    read_proc_self_cgroup
read_v2_cpu e = v2_limit (
    non_empty (
      try_read_first e (
        build_candidate_paths e "/sys/fs/cgroup" (get_v2_process_path (read_proc_self_cgroup e))
          "cpu.max" "/sys/fs/cgroup/cpu.max")))

abbrev pub v1_file : Node → String → String → String → String → Option String
v1_file e root controller name fallback_path = non_empty (
    try_read_first e (
      build_candidate_paths e root (get_v1_controller_path (read_proc_self_cgroup e) controller)
        name fallback_path))

-- `readCgroupV1Sync` and `readV1Cpu`, before the floor.
unfoldable pub read_v1_cpu : Node → Option Quota
unfolding v1_limit non_empty try_read_first build_candidate_paths get_v1_controller_path
    read_proc_self_cgroup
read_v1_cpu e =
    v1_limit
      (v1_file e "/sys/fs/cgroup/cpu" "cpu" "cpu.cfs_quota_us"
        "/sys/fs/cgroup/cpu/cpu.cfs_quota_us")
      (v1_file e "/sys/fs/cgroup/cpu" "cpu" "cpu.cfs_period_us"
        "/sys/fs/cgroup/cpu/cpu.cfs_period_us")

-- `v2 !== null ? v2 : v1`, floored.
unfoldable pub either_limit : Option Quota → Option Quota → Option ℕ
unfolding floored
either_limit none none = none
either_limit none (some q) = some (floored q)
either_limit (some q) v1 = some (floored q)

unfoldable pub get_cgroup_cpu_limit : Node → Option ℕ
unfolding either_limit read_v2_cpu read_v1_cpu
get_cgroup_cpu_limit e = if e.is_linux then either_limit (read_v2_cpu e) (read_v1_cpu e) else none

-- `parseCgroupV2Memory`, and after `if (!raw)`.
unfoldable pub v2_memory : Option String → Option (Bool × ℕ)
unfolding parse_int
v2_memory none = none
v2_memory (some raw) = if str_eq raw "max" then none else parse_int raw

unfoldable pub read_v2_memory : Node → Option (Bool × ℕ)
unfolding v2_memory non_empty try_read_first build_candidate_paths get_v2_process_path
    read_proc_self_cgroup
read_v2_memory e = v2_memory (
    non_empty (
      try_read_first e (
        build_candidate_paths e "/sys/fs/cgroup" (get_v2_process_path (read_proc_self_cgroup e))
          "memory.max" "/sys/fs/cgroup/memory.max")))

-- `BigInt(raw)` of a trimmed text that is not empty: decimal digits with an optional sign. A text
-- in another radix, which the kernel does not write, throws here.
unfoldable pub all_digits : ℕ → String → Option ℕ
all_digits n end = some n
all_digits n (c ⊳ s) =
    let more = all_digits (10 * n + (code c - 48)) s in if is_digit c then more else none

unfoldable pub with_sign : Bool → Option ℕ → Option (Bool × ℕ)
with_sign sign none = none
with_sign sign (some n) = some (sign, n)

unfoldable pub big_int_digits : Bool → String → Option (Bool × ℕ)
unfolding all_digits with_sign
big_int_digits sign end = none
big_int_digits sign (c ⊳ s) = with_sign sign (all_digits 0 (c ⊳ s))

unfoldable pub big_int : String → Option (Bool × ℕ)
unfolding big_int_digits
big_int end = none
big_int (c ⊳ s) =
    if code c == 45
    then big_int_digits true s
    else if code c == 43
    then big_int_digits false s
    else big_int_digits false (c ⊳ s)

abbrev pub v1_unlimited_threshold : ℕ
v1_unlimited_threshold = 9223372036854771712 - 4096

-- `parseCgroupV1Memory`.
unfoldable pub below_threshold : Option (Bool × ℕ) → Option (Bool × ℕ)
below_threshold none = none
below_threshold (some (sign, n)) =
    if not sign && leb v1_unlimited_threshold n then none else some (sign, n)

unfoldable pub v1_memory : Option String → Option (Bool × ℕ)
unfolding below_threshold big_int
v1_memory none = none
v1_memory (some raw) = below_threshold (big_int raw)

unfoldable pub read_v1_memory : Node → Option (Bool × ℕ)
unfolding v1_memory non_empty try_read_first build_candidate_paths get_v1_controller_path
    read_proc_self_cgroup
read_v1_memory e = v1_memory (
    v1_file e "/sys/fs/cgroup/memory" "memory" "memory.limit_in_bytes"
      "/sys/fs/cgroup/memory/memory.limit_in_bytes")

pub record CgroupLimits : Type 0 where
  pub cpu_limit : Option Quota
  pub memory_limit_bytes : Option (Bool × ℕ)

-- `readCgroupLimits`: the file cgroup.controllers tells version 2 from version 1.
unfoldable pub limits_by : Node → Option String → CgroupLimits
unfolding read_v1_cpu read_v1_memory read_v2_cpu read_v2_memory
limits_by e none = record { cpu_limit = read_v1_cpu e; memory_limit_bytes = read_v1_memory e }
limits_by e (some raw) = record { cpu_limit = read_v2_cpu e; memory_limit_bytes = read_v2_memory e }

unfoldable pub read_cgroup_limits : Node → CgroupLimits
unfolding limits_by
read_cgroup_limits e =
    if e.is_linux
    then limits_by e (e.read_file "/sys/fs/cgroup/cgroup.controllers")
    else record { cpu_limit = none; memory_limit_bytes = none }
