-- ===== src/Watcher/Record.antt =====
-- packages/plugin-file-watcher/src/index.ts: the options with their defaults, and the variables of
-- the closure.
use Prim.Native.String.{String}
use clusterkit.Common.{ℕ, Bool, false, Option, none, some, List, [], ◌∷◌}
use clusterkit.EnvVars.{EnvVars}
use clusterkit.EnvFile.{parse_env_file}

-- `string[] | string`.
pub data Paths : Type 0 where
  one : String → Paths
  many : List String → Paths

pub record FileWatcherOptions : Type 0 where
  pub watch : Option Paths
  pub env_file : Option Paths
  pub env_parser : Option (String → Option EnvVars)  -- `none` where it throws
  pub poll_env : Option Bool
  pub poll_env_interval_ms : Option ℕ
  pub debounce_ms : Option ℕ
  pub debounce_max_wait_ms : Option ℕ
  pub min_restart_interval_ms : Option ℕ
  pub stagger_ms : Option ℕ
  pub reason : Option String
  pub start_delay_ms : Option ℕ
  pub dry_run : Option Bool

-- The constants of `createFileWatcherPlugin`.
pub record Settings : Type 0 where
  pub watch_paths : List String
  pub env_files : List String
  pub env_parser : String → Option EnvVars
  pub poll_env : Bool
  pub poll_env_interval_ms : ℕ
  pub debounce_ms : ℕ
  pub debounce_max_wait_ms : ℕ
  pub min_restart_interval_ms : ℕ
  pub stagger_ms : ℕ
  pub default_reason : Option String
  pub start_delay_ms : ℕ
  pub dry_run : Bool

unfoldable pub to_array : Option Paths → List String
to_array none = []
to_array (some (one p)) = p ∷ []
to_array (some (many ps)) = ps

-- `value ?? fallback`.
unfoldable pub or_else {ℓ} : {A : Type ℓ} → A → Option A → A
or_else d none = d
or_else d (some a) = a

unfoldable pub settings : FileWatcherOptions → Settings
unfolding to_array or_else
settings o = record {
  watch_paths = to_array o.watch;
  env_files = to_array o.env_file;
  env_parser = or_else (λ content. some (parse_env_file content)) o.env_parser;
  poll_env = or_else false o.poll_env;
  poll_env_interval_ms = or_else 5000 o.poll_env_interval_ms;
  debounce_ms = or_else 300 o.debounce_ms;
  debounce_max_wait_ms = or_else 0 o.debounce_max_wait_ms;
  min_restart_interval_ms = or_else 0 o.min_restart_interval_ms;
  stagger_ms = or_else 1000 o.stagger_ms;
  default_reason = o.reason;
  start_delay_ms = or_else 0 o.start_delay_ms;
  dry_run = or_else false o.dry_run;
}

-- A change: the reason and the environment that came with it.
abbrev pub Change : Type 0
Change = String × Option EnvVars

-- A call of `orchestrator.restartWorkers`. Its rejection is caught and logged.
pub record Call : Type 0 where
  pub called_at : ℕ
  pub env : Option EnvVars
  pub stagger_ms : ℕ
  pub reason : String

-- The variables of the closure. Of `watchers` there are at most the two of `startWatchers`, open or
-- not.
pub record Watcher : Type 0 where
  pub files_open : Bool
  pub env_files_open : Bool
  pub env_poll_interval : Option ℕ
  pub snapshot : EnvVars
  pub debounce_timer : Option ℕ
  pub max_wait_timer : Option ℕ
  pub trailing_timer : Option ℕ
  pub start_delay_timer : Option ℕ
  pub closed : Bool
  pub pending_reason : Option String
  pub pending_env : Option EnvVars
  pub last_restart_at : ℕ
  pub watching : Bool
  pub registered : ℕ  -- callbacks given to `registerOnShutdown`

abbrev pub new_watcher : Watcher
new_watcher = record {
  files_open = false;
  env_files_open = false;
  env_poll_interval = none;
  snapshot = [];
  debounce_timer = none;
  max_wait_timer = none;
  trailing_timer = none;
  start_delay_timer = none;
  closed = false;
  pending_reason = none;
  pending_env = none;
  last_restart_at = 0;
  watching = false;
  registered = 0;
}
