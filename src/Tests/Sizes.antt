-- ===== src/Tests/Sizes.antt =====
-- The size of a fleet on a host with eight CPUs, of which the control group allows two.
use clusterkit.Common.{◌≡◌, true, false, some, none, [], ◌∷◌}
use clusterkit.Config.{auto}
use clusterkit.Validation.Numbers.{whole}
use clusterkit.Sizing.{Surroundings, Sizing, resolve_worker_count}
use clusterkit.Sizing.Fixed.{resolves, overrides, calls, resolve_worker_count_settled}

abbrev container : Surroundings
container = record { web_concurrency = some "400"; host_cpus = 8; cgroup_limit = some 2 }

abbrev resized : Surroundings
resized = record { web_concurrency = none; host_cpus = 8; cgroup_limit = none }

abbrev fresh_sizing : Sizing
fresh_sizing = record { count = auto; has_forked = false; cached = none }

resolve_worker_count_settled_example :
    (resolve_worker_count resized (
      calls
        (overrides (whole 7) ∷ resolves resized ∷ [])
        (record (resolve_worker_count container fresh_sizing).1 { has_forked = true }))).0
    ≡ (resolve_worker_count container fresh_sizing).0
resolve_worker_count_settled_example =
    resolve_worker_count_settled container resized fresh_sizing
      (overrides (whole 7) ∷ resolves resized ∷ [])
