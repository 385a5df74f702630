-- ===== src/Cgroup/Bounds.antt =====
-- packages/worker-manager/src/cgroup.ts: what the CPU limit can be, and how the two interfaces
-- agree.
use Prim.Native.String.{String}
use clusterkit.Common.{
  ℕ, ◌≤◌, ◌≡◌, refl, sym, ap, ◌∙◌, Bool, true, Option, none, some, ◌⊎◌, inl, inr, if_cases,
  if◌then◌else◌, arith,
}
use clusterkit.Sizing.{Surroundings, compute_auto_worker_count}
use clusterkit.Sizing.Fixed.{Bounded, auto-Bounded}
use clusterkit.Cgroup.{
  Quota, floored, either_limit, read_v2_cpu, read_v1_cpu, get_cgroup_cpu_limit, limits_by,
  read_cgroup_limits,
}
use clusterkit.Cgroup.Paths.{Node}

floored-pos : (q : Quota) → 1 ≤ floored q
unfolding floored
floored-pos q = ground arith

either_limit-pos : (a b : Option Quota) (n : ℕ) → either_limit a b ≡ some n → 1 ≤ n
unfolding either_limit
either_limit-pos none none n h = cc
either_limit-pos none (some q) n h = ground (arith, h, floored-pos q)
either_limit-pos (some q) b n h = ground (arith, h, floored-pos q)

limit_pos : (e : Node) (n : ℕ) → get_cgroup_cpu_limit e ≡ some n → 1 ≤ n
unfolding get_cgroup_cpu_limit
limit_pos e n =
    if_cases (λ (o : Option ℕ). o ≡ some n → 1 ≤ n) e.is_linux
      (either_limit (read_v2_cpu e) (read_v1_cpu e)) none
      (λ _. either_limit-pos (read_v2_cpu e) (read_v1_cpu e) n) (λ _ h. cc)

-- Whatever the files of the control group hold, and WEB_CONCURRENCY with them, the automatic count
-- that is derived from the control group's limit is at least one and at most the larger of 256 and
-- the host's CPUs, if there is a CPU.
pub auto_in_cgroup :
    (e : Node) (w : Surroundings)
    → 1 ≤ w.host_cpus
    → w.cgroup_limit ≡ get_cgroup_cpu_limit e
    → Bounded 256 w.host_cpus (compute_auto_worker_count w)
auto_in_cgroup e w cpus h = auto-Bounded w cpus (λ n k. limit_pos e n (sym h ∙ k))

-- The two ways to choose a version come to the same limit.
chosen :
    (v2 v1 : Option Quota) (q : Quota)
    → (v2 ≡ some q) ⊎ ((v2 ≡ none) × (v1 ≡ some q))
    → either_limit v2 v1 ≡ some (floored q)
unfolding either_limit
chosen none none q (inl h) = cc
chosen none none q (inr h) = absurd (cc h.1)
chosen none (some p) q (inl h) = cc
chosen none (some p) q (inr h) = ground (arith, h.1)
chosen (some p) v1 q (inl h) = ground (arith, h)
chosen (some p) v1 q (inr h) = absurd (cc h.0)

by_version :
    (e : Node) (o : Option String) (q : Quota)
    → (o ≡ none → read_v2_cpu e ≡ none)
    → (limits_by e o).cpu_limit ≡ some q
    → (read_v2_cpu e ≡ some q) ⊎ ((read_v2_cpu e ≡ none) × (read_v1_cpu e ≡ some q))
unfolding limits_by
by_version e none q h k = inr (h refl, k)
by_version e (some raw) q h k = inl k

-- On Linux, where readCgroupLimits finds a CPU limit, getCgroupCpuLimit gives it too, rounded down
-- and at least one, provided that without the file cgroup.controllers there is no limit of version
-- 2.
pub limits_agree :
    (e : Node) (q : Quota)
    → e.is_linux ≡ true
    → (e.read_file "/sys/fs/cgroup/cgroup.controllers" ≡ none → read_v2_cpu e ≡ none)
    → (read_cgroup_limits e).cpu_limit ≡ some q
    → get_cgroup_cpu_limit e ≡ some (floored q)
unfolding read_cgroup_limits get_cgroup_cpu_limit
limits_agree e q l v h =
    let o = e.read_file "/sys/fs/cgroup/cgroup.controllers" in
    ap (λ (b : Bool). if b then either_limit (read_v2_cpu e) (read_v1_cpu e) else none) l
    ∙ chosen (read_v2_cpu e) (read_v1_cpu e) q (
        by_version e o q v (
          sym (
            ap
              (λ (b : Bool).
                (if b
                  then limits_by e o
                  else record { cpu_limit = none; memory_limit_bytes = none }).cpu_limit)
              l)
          ∙ h))
