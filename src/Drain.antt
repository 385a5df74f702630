-- ===== src/Drain.antt =====
-- packages/worker-manager/src/drain-coordinator.ts: one hand-over from an old worker to its
-- replacement, and the bounded wait for an exit. Timers and worker events are the stimuli; what the
-- code reads when one arrives (is the old worker dead, is a shutdown under way, does the call to
-- the worker throw, and `disconnect` apart from the others) comes
-- with it.
pub mod Escalation
pub mod Progress
use clusterkit.Common.{
  ℕ, suc, ◌+◌, Bool, true, false, not, ◌&&◌, ◌||◌, List, [], ◌∷◌, if◌then◌else◌,
}
use clusterkit.Config.{ResolvedConfig}

-- `workerDrainBudgetMs`.
abbrev pub worker_drain_budget_ms : ResolvedConfig ℕ → ℕ
worker_drain_budget_ms cfg =
    cfg.shutdown.timeout_ms + cfg.shutdown.sigterm_delay_ms + cfg.shutdown.sigint_delay_ms + 5000

-- What is sent to the old worker.
pub data Sent : Type 0 where
  shutdown_message disconnect sigterm sigkill : Sent

pub record Seen : Type 0 where
  pub shutting_down : Bool
  pub dead : Bool
  pub throws : Bool
  pub disconnect_throws : Bool

pub data Stimulus : Type 0 where
  replacement_exit replacement_online failsafe force_kill sigkill_due old_exit : Stimulus

-- The closure variables and timers of `recycle` and `drainRecycledWorker`.
pub record Drain : Type 0 where
  pub is_online : Bool
  pub drained : Bool
  pub failsafe_timer : Bool
  pub force_timer : Bool
  pub sigkill_timer : Bool
  pub sent : List Sent  -- newest first
  pub forced_kills : ℕ

-- `recycle` registers its listeners and arms the failsafe.
unfoldable pub recycle : Drain
recycle = record {
  is_online = false;
  drained = false;
  failsafe_timer = true;
  force_timer = false;
  sigkill_timer = false;
  sent = [];
  forced_kills = 0;
}

-- `drainRecycledWorker`: the message, the disconnect, then the force-kill timer.
unfoldable pub drain_recycled_worker : Seen → Drain → Drain
drain_recycled_worker o d = record d {
  sent =
      if o.throws
      then d.sent
      else if o.dead || o.disconnect_throws
      then shutdown_message ∷ d.sent
      else disconnect ∷ shutdown_message ∷ d.sent;
  force_timer = if o.dead then d.force_timer else true;
}

unfoldable pub drain_old_worker : Seen → Drain → Drain
unfolding drain_recycled_worker
drain_old_worker o d =
    if d.drained
    then d
    else drain_recycled_worker o (record d { drained = true; failsafe_timer = false })

-- The callback of the force-kill timer.
unfoldable pub on_force_kill : Seen → Drain → Drain
on_force_kill o d =
    let fired : Drain = record d { force_timer = false } in
    if not o.dead && not o.shutting_down
    then record fired { sent = if o.throws then d.sent else sigterm ∷ d.sent; sigkill_timer = true }
    else fired

-- The callback of the SIGKILL timer.
unfoldable pub on_sigkill : Seen → Drain → Drain
on_sigkill o d =
    let fired : Drain = record d { sigkill_timer = false } in
    if not o.dead && not o.shutting_down
    then (if o.throws
        then fired
        else record fired { sent = sigkill ∷ d.sent; forced_kills = suc d.forced_kills })
    else fired

-- A timer that is not set does not fire.
unfoldable pub react : Seen → Stimulus → Drain → Drain
unfolding drain_old_worker on_force_kill on_sigkill
react o replacement_exit d =
    if d.drained || d.is_online || o.shutting_down then d else drain_old_worker o d
react o replacement_online d =
    let online : Drain = record d { is_online = true } in
    if o.shutting_down then online else drain_old_worker o online
react o failsafe d =
    let fired : Drain = record d { failsafe_timer = false } in
    if d.failsafe_timer
    then (if d.is_online || o.shutting_down || o.dead then fired else drain_old_worker o fired)
    else d
react o force_kill d = if d.force_timer then on_force_kill o d else d
react o sigkill_due d = if d.sigkill_timer then on_sigkill o d else d
react o old_exit d = record d { force_timer = false; sigkill_timer = false }

unfoldable pub react_all : List (Seen × Stimulus) → Drain → Drain
react_all [] d = d
react_all ((o, s) ∷ rest) d = react_all rest (react o s d)

-- `awaitBoundedWorkerExit`.
pub data Wait : Type 0 where
  waiting in_grace settled : Wait

pub data WaitEvent : Type 0 where
  exited wait_over grace_over : WaitEvent

-- The state of the wait, and the forced kills that it made.
unfoldable pub await_start : Bool → Wait
await_start dead = if dead then settled else waiting

unfoldable pub await_step : Bool → Bool → WaitEvent → Wait → Wait × ℕ
await_step dead throws exited w = (settled, 0)
await_step dead throws wait_over waiting = (in_grace, if dead then 0 else (if throws then 0 else 1))
await_step dead throws grace_over in_grace = (settled, 0)
await_step dead throws _ w = (w, 0)

unfoldable pub await_all : List (Bool × Bool × WaitEvent) → Wait → Wait × ℕ
await_all [] w = (w, 0)
await_all ((dead, throws, ev) ∷ rest) w =
    let (w', k) = await_step dead throws ev w in let (w'', k') = await_all rest w' in (w'', k + k')
