-- ===== src/Watcher/Sources.antt =====
-- packages/plugin-file-watcher/src/index.ts: the events, and the change that each reports.
use Prim.Native.String.{String}
use text.Mathlib.Text.{◌==◌ as str_eq}
use clusterkit.Common.{
  ℕ, Bool, true, false, not, ◌&&◌, ◌||◌, Option, none, some, [], anyb, if◌then◌else◌, leb,
}
use clusterkit.EnvVars.{EnvVars, get_env, spread}
use clusterkit.Watcher.Record.{Settings, or_else, Change, Watcher}

-- The interval's test: a key of the current environment has another value than in the snapshot, or
-- a key of the snapshot is gone.
unfoldable pub differs : Option String → String → Bool
differs none v = true
differs (some u) v = not (str_eq u v)

unfoldable pub is_missing : Option String → Bool
is_missing none = true
is_missing (some u) = false

unfoldable pub env_changed : EnvVars → EnvVars → Bool
unfolding differs is_missing get_env
env_changed snapshot current =
    anyb (λ kv. differs (get_env kv.0 snapshot) kv.1) current
    || anyb (λ kv. is_missing (get_env kv.0 current)) snapshot

-- `on("change" | "add" | "unlink")`, a change of an .env file with what reading it gave (`none`
-- where that throws), and a tick of the poll with `process.env`.
unfoldable pub file_change : Settings → (String → String) → String → Option Change
file_change s resolve path =
    if anyb (λ f. str_eq (resolve f) (resolve path)) s.env_files
    then none
    else some (or_else "file-change" s.default_reason, none)

unfoldable pub env_file_change : Settings → Option EnvVars → Option Change
env_file_change s none = none
env_file_change s (some env) = some (or_else "env-change" s.default_reason, some env)

unfoldable pub parsed : Settings → Option String → Option EnvVars
parsed s none = none
parsed s (some content) = s.env_parser content

pub data Event : Type 0 where
  -- `install`, with `cluster.isPrimary`, the two `chokidar.watch` and `process.env`
  installed : Bool → Bool → Bool → EnvVars → Event
  start_delay_due : Bool → Bool → EnvVars → Event
  file_changed : String → Event
  env_file_changed : Option String → Event
  poll_due : EnvVars → Event
  debounce_due max_wait_due trailing_due : Event
  -- `uninstall`, or the callback at shutdown
  teardown_begins teardown_ends : Event

-- A timer's callback runs at its due time or later, and only where the timer is set.
unfoldable pub is_due : ℕ → Option ℕ → Bool
is_due now none = false
is_due now (some due) = leb due now

-- The change that an event reports, if its source is open.
unfoldable pub change_of : Settings → (String → String) → ℕ → Event → Watcher → Option Change
unfolding file_change env_file_change parsed is_due env_changed
change_of s resolve now (file_changed path) w =
    if w.files_open then file_change s resolve path else none
change_of s resolve now (env_file_changed content) w =
    if w.env_files_open then env_file_change s (parsed s content) else none
change_of s resolve now (poll_due process_env) w =
    if is_due now w.env_poll_interval && env_changed w.snapshot process_env
    then some (or_else "env-change" s.default_reason, some (spread [] process_env))
    else none
change_of s resolve now e w = none
