-- ===== src/Container/Plugin.antt =====
-- packages/plugin-container-sizing/src/index.ts and `mergeNodeOptions` of calculator.ts: what the
-- plugin does to the orchestrator. Where `overrideWorkerCount` or `patchWorkerEnv` throws, so does
-- it.
pub mod Merge
pub mod Applied
use Prim.Native.String.{String}
use clusterkit.Common.{
  ℕ, Bool, true, false, not, ◌&&◌, ◌||◌, Option, none, some, List, [], ◌∷◌, if◌then◌else◌,
}
use clusterkit.Config.{Count, auto, fixed}
use clusterkit.Texts.{is_empty}
use clusterkit.EnvVars.{EnvVars, get_env, set_env}
use clusterkit.Validation.Numbers.{whole}
use clusterkit.Sizing.{Sizing, override_worker_count}
use clusterkit.Cgroup.{CgroupLimits, Quota}
use clusterkit.Lifecycle.{Guards, patch_worker_env}
use clusterkit.Container.Options.{SizingOptions}
use clusterkit.Container.{Host, SizingResult, calculate_sizing}
use clusterkit.Container.Plugin.Merge.{merge_node_options}

-- `compileCache`: off, on, or a directory.
pub data CompileCache : Type 0 where
  off on : CompileCache
  directory : String → CompileCache

pub record PluginOptions : Type 0 where
  pub override_count : Bool
  pub inject_node_options : Bool
  pub extra_node_options : Option String
  pub compile_cache : CompileCache
  pub fallback : Bool
  pub sizing_options : SizingOptions

-- What the process sees, with `join(tmpdir(), "clusterkit-compile-cache")`.
pub record Environment : Type 0 where
  pub is_primary : Bool
  pub limits : CgroupLimits
  pub host : Host
  pub node_options : Option String  -- process.env.NODE_OPTIONS
  pub cache_directory : String

-- The orchestrator's part that the plugin changes, and `sizing`.
pub record Target : Type 0 where
  pub count : Sizing
  pub guards : Guards Unit
  pub sizing : Option SizingResult

-- `config.workers.env?.NODE_OPTIONS ?? process.env.NODE_OPTIONS ?? ""`.
unfoldable pub env_option : Option EnvVars → Option String
unfolding get_env
env_option none = none
env_option (some env) = get_env "NODE_OPTIONS" env

unfoldable pub base_node_options : Option String → Option String → String
base_node_options none none = ""
base_node_options none (some s) = s
base_node_options (some s) other = s

-- A directory that is the empty string is falsy.
unfoldable pub cache_env : CompileCache → String → EnvVars → EnvVars
unfolding set_env
cache_env off default_directory env = env
cache_env on default_directory env = set_env "NODE_COMPILE_CACHE" default_directory env
cache_env (directory d) default_directory env =
    if is_empty d then env else set_env "NODE_COMPILE_CACHE" d env

unfoldable pub build_worker_env : Environment → PluginOptions → Option EnvVars → String → EnvVars
unfolding env_option base_node_options cache_env merge_node_options set_env
build_worker_env e o worker_env node_options =
    let env : EnvVars =
      if o.inject_node_options
      then set_env "NODE_OPTIONS"
          (merge_node_options node_options
            (base_node_options (env_option worker_env) e.node_options) o.extra_node_options)
          []
      else [] in
    cache_env o.compile_cache e.cache_directory env

unfoldable pub is_limited : CgroupLimits → Bool
is_limited limits = is_some_quota limits.cpu_limit || is_some_memory limits.memory_limit_bytes
  where
    is_some_quota : Option Quota → Bool
    is_some_quota none = false
    is_some_quota (some q) = true

    is_some_memory : Option (Bool × ℕ) → Bool
    is_some_memory none = false
    is_some_memory (some m) = true

-- `overrideWorkerCount`, which is skipped where the count is configured.
unfoldable pub overridden : Bool → Count ℕ → ℕ → Sizing → Option Sizing
unfolding override_worker_count
overridden false count workers s = some s
overridden true (fixed n) workers s = some s
overridden true auto workers s = override_worker_count (whole workers) s

unfoldable pub patched_guards : EnvVars → Guards Unit → Option (Guards Unit)
unfolding patch_worker_env
patched_guards [] g = some g
patched_guards (kv ∷ env) g = patch_worker_env (kv ∷ env) g

unfoldable pub applied : SizingResult → Option Sizing → Option (Guards Unit) → Option Target
applied r none g = none
applied r (some s) none = none
applied r (some s) (some g) = some (record { count = s; guards = g; sizing = some r })

unfoldable pub apply_sizing :
    Environment → PluginOptions → Option SizingResult → Target → Option Target
unfolding applied overridden patched_guards build_worker_env
apply_sizing e o none t = none
apply_sizing e o (some r) t =
    applied r (overridden o.override_count t.count.count r.workers t.count)
      (patched_guards (build_worker_env e o t.guards.worker_env r.node_options) t.guards)

-- `install`; `none` where it throws.
unfoldable pub install : Environment → PluginOptions → Target → Option Target
unfolding is_limited apply_sizing
install e o t =
    if not e.is_primary
    then some t
    else if not (is_limited e.limits) && not o.fallback
    then some t
    else apply_sizing e o (calculate_sizing e.limits e.host o.sizing_options) t
