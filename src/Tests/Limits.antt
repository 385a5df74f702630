-- ===== src/Tests/Limits.antt =====
-- A control group of two CPUs and 2 GB on a host with eight CPUs, and the sizing for it.
use Prim.Native.String.{String}
use text.Mathlib.Text.{◌==◌ as str_eq}
use text.Mathlib.TextEquality.{eq_iff}
use clusterkit.Common.{
  ◌||◌, ◌*◌, ◌≤◌, max, ◌≡◌, refl, sym, ap, subst, Bool, true, false, Bool-cases, if_cases, anyb,
  Option, none, some, List, [], ◌∷◌, if◌then◌else◌, inl, inr, arith,
}
use clusterkit.Config.{auto, fixed}
use clusterkit.Sizing.{Surroundings, compute_auto_worker_count}
use clusterkit.Texts.{split_on}
use clusterkit.Cgroup.{whole_quotient, CgroupLimits, get_cgroup_cpu_limit, read_cgroup_limits}
use clusterkit.Cgroup.Paths.{Node}
use clusterkit.Cgroup.Bounds.{auto_in_cgroup}
use clusterkit.Cgroup.Confined.{Inside, is_normal, on_files, limits_confined}
use clusterkit.Container.Options.{
  SizingOptions, validate_sizing_options, assert_fraction, assert_positive_integer,
  memory_overhead_factor_of, heap_ratio_of, min_workers_of, max_workers_of, strategy_of, default,
}
use clusterkit.Validation.Numbers.{lt}
use clusterkit.Container.{
  Host, SizingResult, calculate_sizing, sizing_of, count_for, effective_memory, step_down, heap_mb,
  divided, whole_cpus, raw_heap, memory_per_worker,
}
use clusterkit.Container.Bounds.{IsSized, calculate_sizing-IsSized}
use clusterkit.Container.Memory.{of_container, heaps_fit}
use clusterkit.Container.Plugin.{off, PluginOptions, Environment, Target, is_limited, install}
use clusterkit.Container.Plugin.Applied.{install_sizes}

-- A path in /proc/self/cgroup that tries to leave the root.
abbrev files : String → Option String
files path =
    if str_eq path "/proc/self/cgroup"
    then some "0::/../../etc"
    else if str_eq path "/sys/fs/cgroup/cpu.max"
    then some "200000 100000"
    else none

abbrev joined_path : List String → String
joined_path [] = "."
joined_path (p ∷ ps) = "/sys/fs/cgroup/../../etc/cpu.max"

abbrev node : Node
node = record { is_linux = true; read_file = files; join = joined_path; resolve = λ path. path }

abbrev in_container : Surroundings
in_container = record {
  web_concurrency = some "400";
  host_cpus = 8;
  cgroup_limit = get_cgroup_cpu_limit node;
}

auto_in_cgroup_example :
    (1 ≤ compute_auto_worker_count in_container)
    × (compute_auto_worker_count in_container ≤ max 256 8)
auto_in_cgroup_example = auto_in_cgroup node in_container (omega arith) refl

-- The file is none that the limits may depend on: only a path that climbs leads to it.
abbrev climbing : String
climbing = "/sys/fs/cgroup/../../etc/cpu.max"

abbrev more_files : String → Option String
more_files path = if str_eq path climbing then some "100000 100000" else files path

climbs : is_normal climbing ≡ false
unfolding split_on anyb
climbs = refl

outside : (path : String) → Inside path → str_eq path climbing ≡ false
outside path i = elim (Bool-cases (str_eq path climbing)) as (λ _. str_eq path climbing ≡ false) [
  | inl b ↦
      absurd
        (cc (subst (λ (p : String). is_normal p ≡ true) ((eq_iff path climbing).0 b) i.0, climbs))
  | inr b ↦ b
]

same-Inside : (path : String) → Inside path → files path ≡ more_files path
same-Inside path i =
    sym (ap (λ (b : Bool). if b then some "100000 100000" else files path) (outside path i))

-- A resolution that leaves normal paths alone and takes the others to the root.
abbrev resolved_path : String → String
resolved_path path = if is_normal path then path else "/"

resolved_path_lem : (path : String) → is_normal (resolved_path path) ≡ true
unfolding split_on anyb
resolved_path_lem path =
    if_cases (λ (p : String). is_normal p ≡ true) (is_normal path) path "/" (λ h. h) (λ _. refl)

abbrev climbing_node : Node
climbing_node = record node { resolve = resolved_path }

roots_resolved :
    (resolved_path "/sys/fs/cgroup" ≡ "/sys/fs/cgroup")
    × (resolved_path "/sys/fs/cgroup/cpu" ≡ "/sys/fs/cgroup/cpu")
    × (resolved_path "/sys/fs/cgroup/memory" ≡ "/sys/fs/cgroup/memory")
unfolding split_on anyb
roots_resolved = (refl, refl, refl)

limits_confined_example :
    (get_cgroup_cpu_limit (on_files climbing_node files)
      ≡ get_cgroup_cpu_limit (on_files climbing_node more_files))
    × (read_cgroup_limits (on_files climbing_node files)
        ≡ read_cgroup_limits (on_files climbing_node more_files))
limits_confined_example =
    limits_confined climbing_node roots_resolved resolved_path_lem files more_files same-Inside

abbrev two_cpus : CgroupLimits
two_cpus = record {
  cpu_limit = some (record { quota = (false, 200000); period = (false, 100000) });
  memory_limit_bytes = some (false, 2147483648);
}

abbrev eight_cpus : Host
eight_cpus = record { os_cpus = 8; os_total_memory_bytes = 34359738368 }

abbrev no_options : SizingOptions
no_options = record {
  memory_overhead_factor = none;
  heap_ratio = none;
  min_workers = none;
  max_workers = none;
  strategy = none;
}

abbrev sized : SizingResult
sized = sizing_of two_cpus eight_cpus no_options (count_for two_cpus eight_cpus no_options)

sized_lem : calculate_sizing two_cpus eight_cpus no_options ≡ some sized
unfolding calculate_sizing validate_sizing_options assert_fraction assert_positive_integer
    memory_overhead_factor_of heap_ratio_of min_workers_of max_workers_of default lt
sized_lem = refl

unconstrained : sized.constrained ≡ false
unfolding sizing_of count_for raw_heap memory_per_worker divided effective_memory step_down heap_mb
    whole_cpus memory_overhead_factor_of heap_ratio_of min_workers_of max_workers_of default
    strategy_of
unconstrained = refl

calculate_sizing-IsSized_example : IsSized no_options sized
calculate_sizing-IsSized_example =
    calculate_sizing-IsSized two_cpus eight_cpus no_options sized sized_lem

heaps_fit_example : sized.v8_heap_mb * (sized.workers * 1048576) ≤ 2147483648
heaps_fit_example =
    heaps_fit two_cpus eight_cpus no_options sized 2147483648 (of_container 2147483648 refl)
      sized_lem unconstrained

abbrev plugin_options : PluginOptions
plugin_options = record {
  override_count = true;
  inject_node_options = true;
  extra_node_options = none;
  compile_cache = off;
  fallback = true;
  sizing_options = no_options;
}

abbrev environment : Environment
environment = record {
  is_primary = true;
  limits = two_cpus;
  host = eight_cpus;
  node_options = some "--max-old-space-size=4096 --enable-source-maps";
  cache_directory = "/tmp/clusterkit-compile-cache";
}

abbrev target : Target
target = record {
  count = record { count = auto; has_forked = false; cached = none };
  guards = record {
    plugins = [];
    is_primary_started = true;
    is_worker_started = false;
    has_forked = false;
    worker_env = none;
  };
  sizing = none;
}

limited : (is_limited two_cpus || true) ≡ true
unfolding is_limited
limited = refl

install_sizes_example :
    (u : Target) × (install environment plugin_options target ≡ some u)
    × (u.sizing ≡ some sized)
    × (u.count.count ≡ fixed sized.workers)
install_sizes_example =
    install_sizes environment plugin_options target sized refl limited refl sized_lem refl refl refl

-- With 427 MiB, two workers have 170.8 MB each, of which the loop gives 128 MB to the heap and the
-- result, which rounds down twice, 127.
abbrev tight : CgroupLimits
tight = record {
  cpu_limit = some (record { quota = (false, 200000); period = (false, 100000) });
  memory_limit_bytes = some (false, 447741952);
}

tight_run :
    (count_for tight eight_cpus no_options ≡ 2)
    × ((sizing_of tight eight_cpus no_options 2).constrained ≡ true)
unfolding sizing_of count_for raw_heap memory_per_worker divided effective_memory step_down heap_mb
    whole_cpus whole_quotient memory_overhead_factor_of heap_ratio_of min_workers_of max_workers_of
    default strategy_of
tight_run = (refl, refl)
