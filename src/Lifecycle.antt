-- ===== src/Lifecycle.antt =====
-- packages/worker-manager/src/orchestrator.ts: the plugins' life and the calls that are open before
-- the fork. A plugin is code of its own: what its two methods do to the rest of the program is an
-- argument, with the error that they throw.
pub mod Rollback
use Prim.Native.String.{String}
use clusterkit.Common.{
  ℕ, Bool, true, false, not, ◌&&◌, ◌||◌, Option, none, some, List, [], ◌∷◌, ◌++◌, if◌then◌else◌,
  anyb,
}
use clusterkit.EnvVars.{EnvVars, spread, is_forbidden}

-- `OrchestratorPlugin`, in a program whose state is `W`.
pub record Plugin (W : Type 0) : Type 0 where
  pub name : String
  pub install : W → W × Option String
  pub uninstall : Option (W → W × Option String)

-- `Plugin '...' install failed: ...`
abbrev pub Failure : Type 0
Failure = String × String

module _ {W : Type 0} where
  -- `plugin.uninstall?.(this)` in its `try`: an error is logged.
  unfoldable pub uninstall_one : Option (W → W × Option String) → W → W
  uninstall_one none w = w
  uninstall_one (some uninstall) w = (uninstall w).0

  -- `rollbackInstalledPlugins`, and `uninstallPlugins`.
  unfoldable pub uninstall_plugins : List (Plugin W) → W → W
  unfolding uninstall_one
  uninstall_plugins [] w = w
  uninstall_plugins (p ∷ ps) w = uninstall_plugins ps (uninstall_one p.uninstall w)

  -- `installPlugins`, after the plugins `installed`.
  unfoldable pub install_from : List (Plugin W) → List (Plugin W) → W → W × Option Failure
  unfolding uninstall_plugins
  install_from installed [] w = (w, none)
  install_from installed (p ∷ ps) w =
      let rest = install_from (installed ++ p ∷ []) ps (p.install w).0 in
      elim ((p.install w).1) [
        | none ↦ rest
        | some err ↦ (uninstall_plugins installed (p.install w).0, some (p.name, err))
      ]

  unfoldable pub install_plugins : List (Plugin W) → W → W × Option Failure
  unfolding install_from
  install_plugins ps w = install_from [] ps w

-- The fields that guard the calls, with `cfg.workers.env`.
pub record Guards (W : Type 0) : Type 0 where
  pub plugins : List (Plugin W)
  pub is_primary_started : Bool
  pub is_worker_started : Bool
  pub has_forked : Bool
  pub worker_env : Option EnvVars

-- `use`; `none` where it throws.
unfoldable pub register : {W : Type 0} → Plugin W → Guards W → Option (Guards W)
register p g =
    if g.is_primary_started || g.is_worker_started
    then none
    else some (record g { plugins = g.plugins ++ p ∷ [] })

-- `patchWorkerEnv`, with the environment that is patched.
unfoldable pub patched : Option EnvVars → EnvVars → EnvVars
unfolding spread
patched none env = spread [] env
patched (some own) env = spread own env

unfoldable pub patch_worker_env : {W : Type 0} → EnvVars → Guards W → Option (Guards W)
unfolding patched is_forbidden
patch_worker_env env g =
    if g.has_forked
    then none
    else if anyb (λ kv. is_forbidden kv.0) env
    then none
    else some (record g { worker_env = some (patched g.worker_env env) })

-- How `runPrimary` and `runWorker` end.
pub data Run : Type 0 where
  already_called : Run
  refused : Failure → Run
  started : Run

unfoldable pub after_install : {W : Type 0} → (W → W) → W × Option Failure → W × Run
after_install start (w, none) = (start w, started)
after_install start (w, some failure) = (w, refused failure)

-- `start` is `startPrimary(resolveWorkerCount())`.
unfoldable pub run_primary : {W : Type 0} → (W → W) → Guards W → W → (Guards W × W) × Run
unfolding after_install install_plugins
run_primary start g w =
    let r = after_install start (install_plugins g.plugins w) in
    if g.is_primary_started
    then ((g, w), already_called)
    else ((record g { is_primary_started = true }, r.0), r.1)

-- `start` is `startWorker(start)`.
unfoldable pub run_worker : {W : Type 0} → (W → W) → Guards W → W → (Guards W × W) × Run
unfolding after_install install_plugins
run_worker start g w =
    let r = after_install start (install_plugins g.plugins w) in
    if g.is_worker_started
    then ((g, w), already_called)
    else ((record g { is_worker_started = true }, r.0), r.1)

-- `run`.
unfoldable pub run : {W : Type 0} → Bool → (W → W) → (W → W) → Guards W → W → (Guards W × W) × Run
unfolding run_primary run_worker
run is_primary primary worker g w =
    if is_primary then run_primary primary g w else run_worker worker g w
