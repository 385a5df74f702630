-- ===== src/Orchestrator/Record.antt =====
-- packages/worker-manager/src/orchestrator.ts: the primary's state, with the parts that its
-- services keep.
use clusterkit.Common.{ℕ, Bool, true, false, List, [], Option}
use clusterkit.EnvVars.{EnvVars}
use clusterkit.Fleet.Record.{Host, Env, start_host}
use clusterkit.Restart.Record.{State, RestartCoordinator, start_coord}
use clusterkit.Health.{HealthMonitor, start_monitor}

-- Where `rollWorkers` stands; `restartInProgress` is true in all but `not_rolling`.
-- `awaiting old rest done`: in `awaitBoundedWorkerExit`; `staggering rest done`: in the pause.
pub data Roll : Type 0 where
  not_rolling : Roll
  awaiting : ℕ → List ℕ → List ℕ → Option EnvVars → ℕ → Roll
  staggering : List ℕ → List ℕ → Option EnvVars → ℕ → Roll

pub record System : Type 0 where
  pub core : State
  pub open core use {host, coord}
  pub monitor : HealthMonitor
  pub online : List ℕ  -- onlineWorkerIds
  pub has_forked : Bool
  pub primary_started : Bool
  pub handlers : Bool  -- the signal handlers are registered
  pub listening : Bool  -- the cluster listeners, until `dispose`
  pub closing : Bool  -- `initiateShutdown` is under way
  pub cleaning : Bool  -- crashCleanupInterval
  pub degraded : Bool
  pub degraded_since : ℕ
  pub degraded_timer : Bool
  pub roll : Roll

unfoldable pub start_system : Env → ℕ → System
unfolding start_host start_coord start_monitor
start_system e now = record {
  core = record { host = start_host now; coord = start_coord e.cfg };
  monitor = start_monitor;
  online = [];
  has_forked = false;
  primary_started = false;
  handlers = false;
  listening = true;
  closing = false;
  cleaning = false;
  degraded = false;
  degraded_since = 0;
  degraded_timer = false;
  roll = not_rolling;
}

abbrev pub with_host : Host → System → System
with_host h s = record s { core = record { host = h; coord = s.coord } }

abbrev pub with_coord : RestartCoordinator → System → System
with_coord c s = record s { core = record { host = s.host; coord = c } }
