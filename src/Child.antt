-- ===== src/Child.antt =====
-- packages/worker-manager/src/orchestrator.ts: a worker process: `startWorker`, its shutdown
-- handler and the callbacks that run in it. A callback is a number; whether it throws is of no
-- account.
pub mod Phases
pub mod First
pub mod Once
use Prim.Native.String.{String}
use clusterkit.Common.{
  ℕ, zero, suc, Bool, true, false, not, Option, none, some, List, [], ◌∷◌, ◌++◌, if◌then◌else◌,
}

-- The callbacks that have been called, each with its signal, and those that the loop over
-- `shutdownCallbacks` has yet to call; the last called one may still be awaited.
pub record Process : Type 0 where
  pub reporting : Bool
  pub ready : Bool
  pub local_shutdown_in_progress : Bool
  pub signal : String
  pub called : List (ℕ × String)
  pub waiting : List ℕ
  pub awaited : Bool
  pub exit_timer : Bool
  pub shutdown_timed_out : Bool
  pub exit_code : Option ℕ
  pub acks : ℕ

abbrev pub new_process : Process
new_process = record {
  reporting = true;
  ready = true;
  local_shutdown_in_progress = false;
  signal = "";
  called = [];
  waiting = [];
  awaited = false;
  exit_timer = false;
  shutdown_timed_out = false;
  exit_code = none;
  acks = 0;
}

pub data Event : Type 0 where
  -- `registerOnShutdown`, also while the callbacks run
  registers : ℕ → Event
  -- SIGTERM or SIGINT
  signals : String → Event
  -- the primary's shutdown message; false where sending the ACK throws
  asked : Bool → Event
  -- the awaited callback resolves or rejects
  settles : Event
  -- the exit timer
  times_out : Event

-- The `finally` of the handler.
unfoldable pub finish : Process → Process
finish p =
    let cleared : Process = record p { exit_timer = false } in
    if p.shutdown_timed_out then cleared else record cleared { exit_code = some 0 }

-- The next turn of `runShutdownCallbacks`.
unfoldable pub next_callback : List ℕ → Process → Process
unfolding finish
next_callback [] p = finish (record p { waiting = []; awaited = false })
next_callback (c ∷ cs) p = record p {
  called = p.called ++ (c, p.signal) ∷ [];
  waiting = cs;
  awaited = true;
}

abbrev pub quiet : Process → Process
quiet p = record p { reporting = false }

abbrev pub entered : String → Process → Process
entered signal p = record (quiet p) {
  local_shutdown_in_progress = true;
  ready = false;
  exit_timer = true;
  signal = signal;
}

-- `handleShutdown`, by `localShutdownInProgress`.
unfoldable pub handled : Bool → String → Process → Process
unfolding next_callback
handled true signal p = quiet p
handled false signal p = next_callback p.waiting (entered signal p)

unfoldable pub handle_shutdown : String → Process → Process
unfolding handled
handle_shutdown signal p = handled p.local_shutdown_in_progress signal p

unfoldable pub react : Event → Process → Process
unfolding handle_shutdown next_callback
react (registers c) p = record p { waiting = p.waiting ++ c ∷ [] }
react (signals s) p = handle_shutdown s p
react (asked true) p = handle_shutdown "IPC" (record p { acks = suc p.acks })
react (asked false) p = handle_shutdown "IPC" p
react settles p = if p.awaited then next_callback p.waiting p else p
react times_out p =
    if p.exit_timer then record p { shutdown_timed_out = true; exit_code = some 1 } else p

-- Nothing runs after `process.exit`.
unfoldable pub alive : Option ℕ → Event → Process → Process
unfolding react
alive none e p = react e p
alive (some code) e p = p

unfoldable pub step : Event → Process → Process
unfolding alive
step e p = alive p.exit_code e p

unfoldable pub run : List Event → Process → Process
unfolding step
run [] p = p
run (e ∷ es) p = run es (step e p)
