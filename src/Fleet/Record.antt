-- ===== src/Fleet/Record.antt =====
-- The state that the worker manager keeps and the coordinators share, and its surroundings.
use clusterkit.Common.{ℕ, Bool, false, Option, List, [], ◌∷◌}
use clusterkit.EnvVars.{EnvVars}
use clusterkit.Config.{ResolvedConfig, WorkerMetrics, Event, RecycleReason}

-- The configuration, `node:cluster`'s fork, and the worker count once it is resolved.
pub record Env : Type 0 where
  pub cfg : ResolvedConfig ℕ
  pub spawn : ℕ → Option EnvVars → Option ℕ
  pub target : ℕ

pub record Host : Type 0 where
  pub now : ℕ  -- Date.now()
  pub attempts : ℕ  -- calls of cluster.fork so far
  pub live : List ℕ  -- cluster.workers that are not dead
  pub start_times : List (ℕ × ℕ)
  pub recycling : List ℕ
  pub pending_recycles : List ℕ
  pub sweeping : Bool  -- the recycle interval runs
  pub applied_exec_argv : Bool
  pub setups : ℕ  -- cluster.setupPrimary calls
  pub metrics : WorkerMetrics
  pub exit_code : ℕ  -- process.exitCode, 0 while undefined
  pub ready : Bool
  pub shutting_down : Bool
  pub recycle_reasons : List (ℕ × RecycleReason)
  pub drains : List (ℕ × ℕ)  -- DrainCoordinator.recycle calls, newest first
  pub warnings : ℕ  -- process.emitWarning calls
  pub events : List Event  -- newest first

-- `safeEmit`: a listener that throws changes nothing here.
abbrev pub emit : Event → Host → Host
emit ev h = record h { events = ev ∷ h.events }

unfoldable pub start_host : ℕ → Host
start_host now = record {
  now = now;
  attempts = 0;
  live = [];
  start_times = [];
  recycling = [];
  pending_recycles = [];
  sweeping = false;
  applied_exec_argv = false;
  setups = 0;
  metrics = record {
    worker_restarts = 0;
    active_workers = 0;
    crash_loop_backoffs = 0;
    graceful_shutdowns = 0;
    forced_kills = 0;
  };
  exit_code = 0;
  ready = Bool.true;
  shutting_down = false;
  recycle_reasons = [];
  drains = [];
  warnings = 0;
  events = [];
}
