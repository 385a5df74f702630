-- ===== src/Watcher.antt =====
-- packages/plugin-file-watcher/src/index.ts: the state that `createFileWatcherPlugin` closes over
-- and every callback that changes it. The file system, chokidar and `resolvePath` are outside: what
-- they do stands in the events. A timer is the time at which it is due; times are `Date.now()`.
pub mod Sources
pub mod Record
pub mod Spacing
pub mod Reports
pub mod Pending
pub mod Storm
pub mod Closed
pub mod Polling
use Prim.Native.String.{String}
use text.Mathlib.Text.{◌==◌ as str_eq}
use clusterkit.Common.{
  ℕ, suc, ◌++◌, ◌+◌, ◌-◌, Bool, true, false, not, ◌&&◌, ◌||◌, Option, none, some, List, [], ◌∷◌,
  map, anyb, if◌then◌else◌, ltb, leb,
}
use clusterkit.EnvVars.{EnvVars, get_env, spread}
use clusterkit.EnvFile.{parse_env_file}
use clusterkit.Watcher.Record.{
  Paths, FileWatcherOptions, Settings, to_array, or_else, settings, Change, Call, Watcher,
  new_watcher, one, many,
}
use clusterkit.Watcher.Sources.{
  differs, is_missing, env_changed, file_change, env_file_change, parsed, Event, is_due, change_of,
  installed, start_delay_due, file_changed, env_file_changed, poll_due, debounce_due, max_wait_due,
  trailing_due, teardown_begins, teardown_ends,
}

-- `flushRestart`: what it does with the pending change.
pub data Flush : Type 0 where
  rehearses holds fires : Flush

unfoldable pub decide : Settings → ℕ → ℕ → Flush
decide s now last =
    if s.dry_run
    then rehearses
    else if ltb 0 s.min_restart_interval_ms && ltb now (last + s.min_restart_interval_ms)
    then holds
    else fires

abbrev pub without_timers : Watcher → Watcher
without_timers w = record w { debounce_timer = none; max_wait_timer = none; trailing_timer = none }

abbrev pub without_pending : Watcher → Watcher
without_pending w = record w { pending_reason = none; pending_env = none }

abbrev pub call : Settings → ℕ → Watcher → Call
call s now w = record {
  called_at = now;
  env = w.pending_env;
  stagger_ms = s.stagger_ms;
  reason = or_else "file-change" w.pending_reason;
}

unfoldable pub flushed : Flush → Settings → ℕ → Watcher → Watcher × List Call
unfolding or_else
flushed rehearses s now w = (without_pending (without_timers w), [])
flushed holds s now w = (
  record (without_timers w) {
    trailing_timer = some (now + ((w.last_restart_at + s.min_restart_interval_ms) - now));
  },
  [],
)
flushed fires s now w =
    (record (without_pending (without_timers w)) { last_restart_at = now }, call s now w ∷ [])

unfoldable pub flush_restart : Settings → ℕ → Watcher → Watcher × List Call
unfolding decide flushed
flush_restart s now w = flushed (decide s now w.last_restart_at) s now w

-- `triggerRestart`.
unfoldable pub merged : Option EnvVars → Option EnvVars → Option EnvVars
unfolding spread
merged pending none = pending
merged none (some env) = some (spread [] env)
merged (some pending) (some env) = some (spread pending env)

-- `if (debounceMaxWaitMs > 0 && !maxWaitTimer)`.
unfoldable pub armed : Settings → ℕ → Option ℕ → Option ℕ
armed s now (some due) = some due
armed s now none =
    if ltb 0 s.debounce_max_wait_ms then some (now + s.debounce_max_wait_ms) else none

unfoldable pub trigger_restart : Settings → ℕ → Change → Watcher → Watcher
unfolding merged armed
trigger_restart s now (reason, env) w = record w {
  pending_reason = some reason;
  pending_env = merged w.pending_env env;
  debounce_timer = some (now + s.debounce_ms);
  max_wait_timer = armed s now w.max_wait_timer;
}

abbrev is_empty : List String → Bool
is_empty [] = true
is_empty (p ∷ ps) = false

-- `startWatchers`, where the two flags say whether chokidar.watch returns and not throws.
unfoldable pub start_watchers : Settings → ℕ → Bool → Bool → EnvVars → Watcher → Watcher
start_watchers s now files env_files process_env w = if w.closed then w else record w {
  files_open = w.files_open || (not (is_empty s.watch_paths) && files);
  env_files_open = w.env_files_open || (not (is_empty s.env_files) && env_files);
  env_poll_interval =
      if s.poll_env then some (now + s.poll_env_interval_ms) else w.env_poll_interval;
  snapshot = if s.poll_env then process_env else w.snapshot;
  watching = true;
}

-- `install`; the callback for the shutdown is registered after `start()`.
unfoldable pub start : Settings → ℕ → Bool → Bool → EnvVars → Watcher → Watcher
unfolding start_watchers
start s now files env_files process_env w =
    if ltb 0 s.start_delay_ms
    then record w { start_delay_timer = some (now + s.start_delay_ms) }
    else start_watchers s now files env_files process_env w

unfoldable pub install : Settings → ℕ → Bool → Bool → Bool → EnvVars → Watcher → Watcher
unfolding start
install s now is_primary files env_files process_env w =
    let opened : Watcher = record w { closed = false; last_restart_at = 0 } in
    let started = start s now files env_files process_env opened in
    if is_primary then record started { registered = suc started.registered } else opened

-- `teardown`, up to its `await` and after it.
unfoldable pub begin_teardown : Watcher → Watcher
begin_teardown w = record w { closed = true; start_delay_timer = none }

unfoldable pub end_teardown : Watcher → Watcher
end_teardown w = record (without_timers w) {
  files_open = false;
  env_files_open = false;
  env_poll_interval = none;
  watching = false;
}

unfoldable pub reported : Settings → ℕ → Option Change → Watcher → Watcher
unfolding trigger_restart
reported s now none w = w
reported s now (some c) w = trigger_restart s now c w

-- A tick of the poll; the interval is set again, and a changed environment is the new snapshot.
unfoldable pub ticked : Settings → ℕ → EnvVars → Watcher → Watcher
unfolding is_due env_changed
ticked s now process_env w =
    if is_due now w.env_poll_interval
    then record w {
      env_poll_interval = some (now + s.poll_env_interval_ms);
      snapshot = if env_changed w.snapshot process_env then process_env else w.snapshot;
    }
    else w

-- A timer that has run counts as unset, which is what clearing it again amounts to.
unfoldable pub delayed_start : Settings → ℕ → Bool → Bool → EnvVars → Watcher → Watcher
unfolding is_due start_watchers
delayed_start s now files env_files process_env w =
    if is_due now w.start_delay_timer
    then start_watchers s now files env_files process_env (record w { start_delay_timer = none })
    else w

-- The callback of a flush timer.
unfoldable pub flushed_if : Bool → Settings → ℕ → Watcher → Watcher × List Call
unfolding flush_restart
flushed_if false s now w = (w, [])
flushed_if true s now w = flush_restart s now w

unfoldable pub step : Settings → (String → String) → ℕ → Event → Watcher → Watcher × List Call
unfolding install delayed_start reported change_of ticked flushed_if is_due begin_teardown
    end_teardown
step s resolve now (installed p f g env) w = (install s now p f g env w, [])
step s resolve now (start_delay_due f g env) w = (delayed_start s now f g env w, [])
step s resolve now (file_changed path) w =
    (reported s now (change_of s resolve now (file_changed path) w) w, [])
step s resolve now (env_file_changed content) w =
    (reported s now (change_of s resolve now (env_file_changed content) w) w, [])
step s resolve now (poll_due env) w =
    (reported s now (change_of s resolve now (poll_due env) w) (ticked s now env w), [])
step s resolve now debounce_due w = flushed_if (is_due now w.debounce_timer) s now w
step s resolve now max_wait_due w = flushed_if (is_due now w.max_wait_timer) s now w
step s resolve now trailing_due w = flushed_if (is_due now w.trailing_timer) s now w
step s resolve now teardown_begins w = (begin_teardown w, [])
step s resolve now teardown_ends w = (end_teardown w, [])

-- Events, each with its time; the calls in order.
unfoldable pub run : Settings → (String → String) → List (ℕ × Event) → Watcher → Watcher × List Call
unfolding step
run s resolve [] w = (w, [])
run s resolve ((now, e) ∷ es) w =
    let one = step s resolve now e w in
    let rest = run s resolve es one.0 in (rest.0, one.1 ++ rest.1)
