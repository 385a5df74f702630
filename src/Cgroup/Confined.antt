-- ===== src/Cgroup/Confined.antt =====
-- packages/worker-manager/src/cgroup.ts: which files the limits depend on.
use Prim.Native.String.{String, [] as end, ◌∷◌ as ◌⊳◌}
use text.Mathlib.Text.{◌==◌ as str_eq}
use text.Mathlib.TextEquality.{eq_iff}
use clusterkit.Common.{
  ◌≡◌, refl, sym, ap, Bool-cases, ◌∙◌, subst, Bool, true, false, not, ◌&&◌, ◌||◌, anyb, Option,
  none, some, List, [], ◌∷◌, All, ◌⊎◌, inl, inr, if_cases, if◌then◌else◌, arith,
}
use clusterkit.Texts.{split_on, starts_with, append}
use clusterkit.Cgroup.{
  v2_limit, non_empty, v2_memory, v1_file, v1_limit, v1_memory, read_proc_self_cgroup, entries_of,
  either_limit, read_v2_cpu, read_v1_cpu, read_v2_memory, read_v1_memory, get_cgroup_cpu_limit,
  limits_by, read_cgroup_limits,
}
use clusterkit.Cgroup.Paths.{
  ProcCgroupEntry, get_v2_process_path, get_v1_controller_path, Node, guarded, with_fallback,
  build_candidate_path, build_candidate_paths, trimmed, try_read_first,
}

-- No segment of the path is "." or "..".
abbrev pub is_normal : String → Bool
is_normal path =
    not (anyb (λ segment. str_eq segment "." || str_eq segment "..") (split_on 47 path))

abbrev Below : String → Type 0
Below path = (path ≡ "/sys/fs/cgroup") ⊎ (starts_with "/sys/fs/cgroup/" path ≡ true)

-- The process's own entry, or what is under /sys/fs/cgroup and does not leave it again.
abbrev pub Inside : String → Type 0
Inside path = (is_normal path ≡ true) × ((path ≡ "/proc/self/cgroup") ⊎ Below path)

starts_with-append : (a b s : String) → starts_with (append a b) s ≡ true → starts_with a s ≡ true
unfolding starts_with append
starts_with-append end b s h = refl
starts_with-append (c ⊳ a) b end h = cc
starts_with-append (c ⊳ a) b (d ⊳ s) h = ground (arith, h, starts_with-append a b s)

-- The roots: what is in one is inside.
abbrev IsRoot : String → Type 0
IsRoot root = (root ≡ "/sys/fs/cgroup") ⊎ ((sub : String) × (root ≡ append "/sys/fs/cgroup/" sub))

starts_with_self : (a b : String) → starts_with a (append a b) ≡ true
unfolding starts_with append
starts_with_self end b = refl
starts_with_self (c ⊳ a) b = ground (arith, starts_with_self a b)

in_root :
    (root path : String) → IsRoot root → starts_with (append root "/") path ≡ true → Below path
unfolding append
in_root root path (inl h) k =
    inr (subst (λ (r : String). starts_with (append r "/") path ≡ true) h k)
in_root root path (inr (sub, h)) k = inr (
    starts_with-append "/sys/fs/cgroup/" (append sub "/") path
      (subst (λ (r : String). starts_with (append r "/") path ≡ true) h k))

-- What the guard lets through is inside.
abbrev Lands : Option String → Type 0
Lands none = Unit
Lands (some path) = Inside path

root_Below : (root path : String) → IsRoot root → path ≡ root → Below path
unfolding append
root_Below root path (inl h) e = inl (e ∙ h)
root_Below root path (inr (sub, h)) e = inr (
    subst (λ (p : String). starts_with "/sys/fs/cgroup/" p ≡ true) (sym (e ∙ h))
      (starts_with_self "/sys/fs/cgroup/" sub))

guarded-Lands :
    (root path : String) → IsRoot root → is_normal path ≡ true → Lands (guarded root path)
unfolding guarded
guarded-Lands root path r n =
    if_cases Lands (not (str_eq path root) && not (starts_with (append root "/") path)) none
      (some path) (λ _. tt) (λ h. (n, inr (kept h)))
  where
    kept : (not (str_eq path root) && not (starts_with (append root "/") path)) ≡ false → Below path
    kept h = elim (Bool-cases (str_eq path root)) as (λ _. Below path) [
      | inl b ↦ root_Below root path r ((eq_iff path root).0 b)
      | inr b ↦ in_root root path r (ground (arith, h, b))
    ]

fallback_Inside :
    (o : Option String) (fallback_path : String)
    → Lands o
    → Inside fallback_path
    → All Inside (with_fallback o fallback_path)
unfolding with_fallback
fallback_Inside none fb l i = (i, tt)
fallback_Inside (some path) fb l i = (l, (i, tt))

-- The program on the files `f`.
abbrev pub on_files : Node → (String → Option String) → Node
on_files e f = record e { read_file = f }

module _ (e : Node)
    (resolved : (e.resolve "/sys/fs/cgroup" ≡ "/sys/fs/cgroup")
      × (e.resolve "/sys/fs/cgroup/cpu" ≡ "/sys/fs/cgroup/cpu")
      × (e.resolve "/sys/fs/cgroup/memory" ≡ "/sys/fs/cgroup/memory"))
    (normal : (path : String) → is_normal (e.resolve path) ≡ true) (f g : String → Option String)
    (agree : (path : String) → Inside path → f path ≡ g path) where
  candidates-Inside :
      (root file fallback_path : String) (o : Option String)
      → IsRoot root
      → e.resolve root ≡ root
      → Inside fallback_path
      → All Inside (build_candidate_paths e root o file fallback_path)
  unfolding build_candidate_paths build_candidate_path
  candidates-Inside root file fb o r s i =
      fallback_Inside (build_candidate_path e root o file) fb
        (guarded-Lands (e.resolve root) _ (subst IsRoot (sym s) r) (normal _)) i

  first_agrees :
      (paths : List String)
      → All Inside paths
      → try_read_first (on_files e f) paths ≡ try_read_first (on_files e g) paths
  unfolding try_read_first
  first_agrees [] h = refl
  first_agrees (p ∷ ps) (h, hs) =
      λ i. elim (trimmed (agree p h i)) [ none ↦ first_agrees ps hs i | some raw ↦ some raw ]

  entries_agree : read_proc_self_cgroup (on_files e f) ≡ read_proc_self_cgroup (on_files e g)
  unfolding read_proc_self_cgroup split_on anyb
  entries_agree =
      ap (λ (o : Option String). entries_of (trimmed o))
        (agree "/proc/self/cgroup" (refl, inl refl))

  file_agrees :
      (root file fallback_path : String) (pick : List ProcCgroupEntry → Option String)
      → IsRoot root
      → e.resolve root ≡ root
      → Inside fallback_path
      → try_read_first (on_files e f) (
          build_candidate_paths
            (on_files e f)
            root
            (pick (read_proc_self_cgroup (on_files e f)))
            file
            fallback_path)
        ≡ try_read_first (on_files e g) (
            build_candidate_paths
              (on_files e g)
              root
              (pick (read_proc_self_cgroup (on_files e g)))
              file
              fallback_path)
  unfolding build_candidate_paths build_candidate_path
  file_agrees root file fb pick r s i =
      (λ j.
        try_read_first (on_files e f)
          (build_candidate_paths e root (pick (entries_agree j)) file fb))
      ∙ first_agrees
          (build_candidate_paths e root (pick (read_proc_self_cgroup (on_files e g))) file fb)
          (candidates-Inside root file fb (pick (read_proc_self_cgroup (on_files e g))) r s i)

  within :
      (sub : String)
      → is_normal (append "/sys/fs/cgroup/" sub) ≡ true
      → Inside (append "/sys/fs/cgroup/" sub)
  within sub n = (n, inr (inr (starts_with_self "/sys/fs/cgroup/" sub)))

  cpu-IsRoot : IsRoot "/sys/fs/cgroup/cpu"
  unfolding append
  cpu-IsRoot = inr ("cpu", refl)

  memory-IsRoot : IsRoot "/sys/fs/cgroup/memory"
  unfolding append
  memory-IsRoot = inr ("memory", refl)

  v2_cpu_agrees : read_v2_cpu (on_files e f) ≡ read_v2_cpu (on_files e g)
  unfolding read_v2_cpu append split_on anyb
  v2_cpu_agrees =
      ap (λ (o : Option String). v2_limit (non_empty o))
        (file_agrees "/sys/fs/cgroup" "cpu.max" "/sys/fs/cgroup/cpu.max" get_v2_process_path
          (inl refl) resolved.0 (within "cpu.max" refl))

  v2_memory_agrees : read_v2_memory (on_files e f) ≡ read_v2_memory (on_files e g)
  unfolding read_v2_memory append split_on anyb
  v2_memory_agrees =
      ap (λ (o : Option String). v2_memory (non_empty o))
        (file_agrees "/sys/fs/cgroup" "memory.max" "/sys/fs/cgroup/memory.max" get_v2_process_path
          (inl refl) resolved.0 (within "memory.max" refl))

  v1_file_agrees :
      (root controller file fallback_path : String)
      → IsRoot root
      → e.resolve root ≡ root
      → Inside fallback_path
      → v1_file (on_files e f) root controller file fallback_path
        ≡ v1_file (on_files e g) root controller file fallback_path
  v1_file_agrees root controller file fb r s i =
      ap non_empty
        (file_agrees root file fb (λ entries. get_v1_controller_path entries controller) r s i)

  v1_cpu_agrees : read_v1_cpu (on_files e f) ≡ read_v1_cpu (on_files e g)
  unfolding read_v1_cpu append split_on anyb
  v1_cpu_agrees = λ j.
      v1_limit
        (v1_file_agrees "/sys/fs/cgroup/cpu" "cpu" "cpu.cfs_quota_us"
          "/sys/fs/cgroup/cpu/cpu.cfs_quota_us" cpu-IsRoot resolved.1
          (within "cpu/cpu.cfs_quota_us" refl) j)
        (v1_file_agrees "/sys/fs/cgroup/cpu" "cpu" "cpu.cfs_period_us"
          "/sys/fs/cgroup/cpu/cpu.cfs_period_us" cpu-IsRoot resolved.1
          (within "cpu/cpu.cfs_period_us" refl) j)

  v1_memory_agrees : read_v1_memory (on_files e f) ≡ read_v1_memory (on_files e g)
  unfolding read_v1_memory append split_on anyb
  v1_memory_agrees = ap v1_memory (
      v1_file_agrees "/sys/fs/cgroup/memory" "memory" "memory.limit_in_bytes"
        "/sys/fs/cgroup/memory/memory.limit_in_bytes" memory-IsRoot resolved.2
        (within "memory/memory.limit_in_bytes" refl))

  by_agrees : (o : Option String) → limits_by (on_files e f) o ≡ limits_by (on_files e g) o
  unfolding limits_by
  by_agrees none =
      λ j. record { cpu_limit = v1_cpu_agrees j; memory_limit_bytes = v1_memory_agrees j }
  by_agrees (some raw) =
      λ j. record { cpu_limit = v2_cpu_agrees j; memory_limit_bytes = v2_memory_agrees j }

  -- The limits depend on no file but /proc/self/cgroup and those under /sys/fs/cgroup: on two file
  -- systems that agree on these, both functions give the same, whatever paths /proc/self/cgroup
  -- names, be it that they climb with "..". A path counts as under /sys/fs/cgroup if it begins so
  -- and has no segment "." or "..". Of path.resolve it is assumed that its results have no such
  -- segment and that it leaves the three roots as they are; nothing is assumed of path.join.
  pub limits_confined :
      (get_cgroup_cpu_limit (on_files e f) ≡ get_cgroup_cpu_limit (on_files e g))
      × (read_cgroup_limits (on_files e f) ≡ read_cgroup_limits (on_files e g))
  unfolding get_cgroup_cpu_limit read_cgroup_limits append split_on anyb
  limits_confined = (
    λ j. if e.is_linux then either_limit (v2_cpu_agrees j) (v1_cpu_agrees j) else none,
    (λ j.
          if e.is_linux
          then limits_by (on_files e f)
              (agree "/sys/fs/cgroup/cgroup.controllers" (within "cgroup.controllers" refl) j)
          else record { cpu_limit = none; memory_limit_bytes = none })
        ∙ (λ j.
            if e.is_linux
            then by_agrees (g "/sys/fs/cgroup/cgroup.controllers") j
            else record { cpu_limit = none; memory_limit_bytes = none }),
  )
