-- ===== src/SignalRestart.antt =====
-- packages/plugin-signal-restart/src/index.ts: the handler that a signal restarts the fleet with. The
-- listeners of the process are numbers; whether `restartWorkers` rejects stands in the events.
use Prim.Native.String.{String}
use clusterkit.Common.{
  ℕ, suc, Bool, true, false, Option, none, some, List, ◌∷◌, if◌then◌else◌, add, delete,
}
use clusterkit.Texts.{append}

pub record SignalRestartOptions : Type 0 where
  pub signal : Option String
  pub stagger_ms : Option ℕ
  pub reason : Option String

-- `options?.signal ?? "SIGHUP"` and the others.
unfoldable pub or_default {ℓ} : {A : Type ℓ} → A → Option A → A
or_default d none = d
or_default d (some x) = x

unfoldable pub signal_of : SignalRestartOptions → String
unfolding or_default
signal_of o = or_default "SIGHUP" o.signal

unfoldable pub stagger_of : SignalRestartOptions → ℕ
unfolding or_default
stagger_of o = or_default 1000 o.stagger_ms

unfoldable pub reason_of : SignalRestartOptions → String
unfolding or_default signal_of append
reason_of o = or_default (append "signal:" (signal_of o)) o.reason

-- A call of `orchestrator.restartWorkers`: its delay and its reason.
pub record SignalRestart : Type 0 where
  pub listeners : List ℕ  -- those of the process for the signal
  pub installations : ℕ
  pub handler : Option ℕ
  pub last_restart : Option ℕ
  pub calls : List (ℕ × String)

-- `install`: each installation has a handler of its own.
unfoldable pub install : Bool → SignalRestart → SignalRestart
unfolding add
install is_primary p =
    if is_primary
    then record p {
      listeners = add p.installations p.listeners;
      installations = suc p.installations;
      handler = some p.installations;
    }
    else p

-- `handleSignal` at its call, and when `restartWorkers` has resolved or rejected.
unfoldable pub handle_signal : SignalRestartOptions → SignalRestart → SignalRestart
unfolding stagger_of reason_of
handle_signal o p = record p { calls = (stagger_of o, reason_of o) ∷ p.calls }

unfoldable pub restarted : ℕ → Bool → SignalRestart → SignalRestart
restarted now true p = record p { last_restart = some now }
restarted now false p = p

-- `uninstall`.
unfoldable pub removed : Option ℕ → SignalRestart → SignalRestart
unfolding delete
removed none p = p
removed (some n) p = record p { listeners = delete n p.listeners; handler = none }

unfoldable pub uninstall : Bool → SignalRestart → SignalRestart
unfolding removed
uninstall is_primary p = if is_primary then removed p.handler p else p
