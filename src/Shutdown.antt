-- ===== src/Shutdown.antt =====
-- packages/worker-manager/src/shutdown-coordinator.ts: notify, wait, kill. What the workers do is
-- the environment's: for each worker, when it answers and when it dies (which may depend on what it
-- is sent). Times are counted from the start of the shutdown.
pub mod Ack
pub mod Outcome
use clusterkit.Common.{
  ℕ, zero, suc, ◌+◌, ◌≤◌, min, max, Bool, true, false, not, ◌||◌, Option, none, some, List, [], ◌∷◌,
  ◌++◌, if◌then◌else◌, ltb, leb, filterb, length, allb,
}
use clusterkit.Config.{ResolvedConfig, Event, shutdown_start}
use clusterkit.Fleet.Record.{Host, emit}

-- What can reach a worker's handle while its acknowledgement is awaited.
pub data AckEvent : Type 0 where
  ack_message other_message exit disconnect error timeout : AckEvent

-- `waitForWorkerAck`: pending, or resolved.
pub data AckWait : Type 0 where
  pending : AckWait
  resolved : Bool → AckWait

unfoldable pub start_ack : Bool → Bool → Bool → AckWait
start_ack dead connected send_throws =
    if dead || not connected then resolved true else if send_throws then resolved false else pending

-- The listeners are removed when the promise resolves.
unfoldable pub ack_step : AckEvent → AckWait → AckWait
ack_step ev (resolved b) = resolved b
ack_step ack_message pending = resolved true
ack_step other_message pending = pending
ack_step exit pending = resolved false
ack_step disconnect pending = resolved false
ack_step error pending = resolved false
ack_step timeout pending = resolved false

unfoldable pub ack_steps : List AckEvent → AckWait → AckWait
ack_steps [] w = w
ack_steps (ev ∷ evs) w = ack_steps evs (ack_step ev w)

-- One worker's behaviour.
pub record WorkerRun : Type 0 where
  pub id : ℕ
  pub connected : Bool
  pub send_throws : Bool
  pub reply : Option (ℕ × Bool)  -- the first event that settles the wait, and whether it is an ACK
  pub dies : Option ℕ

unfoldable pub is_dead : ℕ → WorkerRun → Bool
is_dead t w = elim w.dies [ none ↦ false | some d ↦ leb d t ]

-- When the wait for a worker's ACK is over, and how.
unfoldable pub ack_wait : ResolvedConfig ℕ → WorkerRun → ℕ × Bool
unfolding is_dead
ack_wait cfg w =
    if is_dead 0 w || not w.connected
    then (0, true)
    else if w.send_throws
    then (0, false)
    else elim w.reply [
      | none ↦ (cfg.shutdown.ack_timeout_ms, false)
      | some (t, acked) ↦
          if ltb t cfg.shutdown.ack_timeout_ms
          then (t, acked)
          else (cfg.shutdown.ack_timeout_ms, false)
    ]

-- `Promise.all` over the workers: the time at which the last wait is over.
unfoldable pub send_shutdown_and_wait_acks : ResolvedConfig ℕ → List WorkerRun → ℕ
send_shutdown_and_wait_acks cfg [] = 0
send_shutdown_and_wait_acks cfg (w ∷ ws) =
    max (ack_wait cfg w).0 (send_shutdown_and_wait_acks cfg ws)

later : Option ℕ → Option ℕ → Option ℕ
later none b = none
later (some a) none = none
later (some a) (some b) = some (max a b)

-- When all of them are dead, if ever.
unfoldable pub last_death : List WorkerRun → Option ℕ
unfolding later
last_death [] = some 0
last_death (w ∷ ws) = later w.dies (last_death ws)

-- The check at once and at each exit, against the timeout.
wait_until : ℕ → ℕ → Option ℕ → ℕ
wait_until start limit none = limit
wait_until start limit (some d) = min (max d start) limit

unfoldable pub wait_for_workers_to_exit : ResolvedConfig ℕ → ℕ → List WorkerRun → ℕ
unfolding wait_until
wait_for_workers_to_exit cfg start ws =
    wait_until start (start + cfg.shutdown.timeout_ms) (last_death ws)

pub data Signal : Type 0 where
  sigterm sigint sigkill : Signal

-- `killWorkerGradually` from a time on: the signals with their times, and when it returns.
unfoldable pub kill_worker_gradually : ResolvedConfig ℕ → ℕ → WorkerRun → List (ℕ × Signal) × ℕ
kill_worker_gradually cfg t w =
    let t' = if is_dead t w then t else t + cfg.shutdown.sigterm_delay_ms in
    let t'' = if is_dead t' w then t' else t' + cfg.shutdown.sigint_delay_ms in
    (
      (if is_dead t w then [] else (t, sigterm) ∷ [])
          ++ ((if is_dead t' w then [] else (t', sigint) ∷ [])
              ++ (if is_dead t'' w then [] else (t'', sigkill) ∷ [])),
      t'',
    )

abbrev pub is_kill : ℕ × Signal → Bool
is_kill (t, sigkill) = true
is_kill (t, sigterm) = false
is_kill (t, sigint) = false

-- `Promise.all` over the survivors: who was sent what, the forced kills, and the end.
pub record Kills : Type 0 where
  pub sent : List (ℕ × List (ℕ × Signal))
  pub forced : ℕ
  pub ends : ℕ

unfoldable pub kill_all : ResolvedConfig ℕ → ℕ → List WorkerRun → Kills
kill_all cfg t [] = record { sent = []; forced = 0; ends = t }
kill_all cfg t (w ∷ ws) =
    let (signals, over) = kill_worker_gradually cfg t w in
    let rest = kill_all cfg t ws in
    record {
      sent = (w.id, signals) ∷ rest.sent;
      forced = length (filterb is_kill signals) + rest.forced;
      ends = max over rest.ends;
    }

-- The body of `initiateShutdown`, from the notification to the last kill.
unfoldable pub sequence : ResolvedConfig ℕ → List WorkerRun → Kills
sequence cfg ws =
    let acked = send_shutdown_and_wait_acks cfg ws in
    let waited = wait_for_workers_to_exit cfg acked ws in
    kill_all cfg waited (filterb (λ w. not (is_dead waited w)) ws)

-- `initiateShutdown` up to the first message: once.
unfoldable pub begin : Host → Host
begin h = if h.shutting_down then h else emit shutdown_start (record h { shutting_down = true })

-- And from there to its end.
unfoldable pub conclude : ResolvedConfig ℕ → List WorkerRun → Host → Host
unfolding sequence
conclude cfg ws h =
    let k = sequence cfg ws in
    record h { metrics = record h.metrics { forced_kills = h.metrics.forced_kills + k.forced } }
