-- ===== src/Shutdown/Outcome.antt =====
-- packages/worker-manager/src/shutdown-coordinator.ts: how long a shutdown takes, and what becomes
-- of each worker.
use clusterkit.Common.{
  ℕ, ◌+◌, ◌≤◌, ◌≡◌, refl, true, false, not, List, [], ◌∷◌, if◌then◌else◌, filterb, length,
  Bool-cases, inl, inr, arith,
}
use clusterkit.Config.{ResolvedConfig}
use clusterkit.Shutdown.{
  WorkerRun, is_dead, ack_wait, send_shutdown_and_wait_acks, wait_for_workers_to_exit,
  kill_worker_gradually, is_kill, kill_all, sequence, wait_until,
}

ack_wait_bounded :
    (cfg : ResolvedConfig ℕ) (w : WorkerRun) → (ack_wait cfg w).0 ≤ cfg.shutdown.ack_timeout_ms
unfolding ack_wait
ack_wait_bounded cfg w = ground arith

acks_bounded :
    (cfg : ResolvedConfig ℕ) (ws : List WorkerRun)
    → send_shutdown_and_wait_acks cfg ws ≤ cfg.shutdown.ack_timeout_ms
unfolding send_shutdown_and_wait_acks
acks_bounded cfg [] = omega arith
acks_bounded cfg (w ∷ ws) = omega (arith, ack_wait_bounded cfg w, acks_bounded cfg ws)

wait_bounded :
    (cfg : ResolvedConfig ℕ) (start : ℕ) (ws : List WorkerRun)
    → wait_for_workers_to_exit cfg start ws ≤ start + cfg.shutdown.timeout_ms
unfolding wait_for_workers_to_exit wait_until
wait_bounded cfg start ws = ground arith

gradual_bounded :
    (cfg : ResolvedConfig ℕ) (t : ℕ) (w : WorkerRun)
    → (kill_worker_gradually cfg t w).1
      ≤ t + cfg.shutdown.sigterm_delay_ms + cfg.shutdown.sigint_delay_ms
unfolding kill_worker_gradually
gradual_bounded cfg t w = ground arith

kill_all_bounded :
    (cfg : ResolvedConfig ℕ) (t : ℕ) (ws : List WorkerRun)
    → (kill_all cfg t ws).ends ≤ t + cfg.shutdown.sigterm_delay_ms + cfg.shutdown.sigint_delay_ms
unfolding kill_all
kill_all_bounded cfg t [] = omega arith
kill_all_bounded cfg t (w ∷ ws) = omega (arith, gradual_bounded cfg t w, kill_all_bounded cfg t ws)

-- A coordinated shutdown of any fleet, however its workers behave, is over within the ACK timeout,
-- the graceful timeout and the two signal delays together.
pub sequence_bounded :
    (cfg : ResolvedConfig ℕ) (ws : List WorkerRun)
    → (sequence cfg ws).ends
      ≤ cfg.shutdown.ack_timeout_ms + cfg.shutdown.timeout_ms + cfg.shutdown.sigterm_delay_ms
        + cfg.shutdown.sigint_delay_ms
unfolding sequence
sequence_bounded cfg ws =
    let acked = send_shutdown_and_wait_acks cfg ws in
    let waited = wait_for_workers_to_exit cfg acked ws in
    omega (
      arith,
      acks_bounded cfg ws,
      wait_bounded cfg acked ws,
      kill_all_bounded cfg waited (filterb (λ w. not (is_dead waited w)) ws),
    )

-- When the two signal windows are over.
abbrev pub escalated : ResolvedConfig ℕ → ℕ → ℕ
escalated cfg t = t + cfg.shutdown.sigterm_delay_ms + cfg.shutdown.sigint_delay_ms

kills_of_one :
    (cfg : ResolvedConfig ℕ) (t : ℕ) (w : WorkerRun)
    → is_dead t w ≡ false
    → length (filterb is_kill (kill_worker_gradually cfg t w).0)
      ≡ (if not (is_dead (escalated cfg t) w) then 1 else 0)
unfolding kill_worker_gradually filterb is_dead
kills_of_one cfg t w alive = ground arith

dead_earlier :
    (cfg : ResolvedConfig ℕ) (t : ℕ) (w : WorkerRun)
    → is_dead t w ≡ true
    → is_dead (escalated cfg t) w ≡ true
unfolding is_dead
dead_earlier cfg t w h = ground arith

kill_all-forced :
    (cfg : ResolvedConfig ℕ) (t : ℕ) (ws : List WorkerRun)
    → (kill_all cfg t (filterb (λ w. not (is_dead t w)) ws)).forced
      ≡ length (filterb (λ w. not (is_dead (escalated cfg t) w)) ws)
unfolding kill_all filterb
kill_all-forced cfg t [] = refl
kill_all-forced cfg t (w ∷ ws) = elim (Bool-cases (is_dead t w)) [
  | inl dead ↦ rw (dead, dead_earlier cfg t w dead) (kill_all-forced cfg t ws)
  | inr alive ↦ rw alive (ground (arith, kills_of_one cfg t w alive, kill_all-forced cfg t ws))
]

-- The forced kills of a shutdown are exactly the workers that outlive the wait for their exit and
-- both signal delays after it.
pub sequence-forced :
    (cfg : ResolvedConfig ℕ) (ws : List WorkerRun)
    → let waited = wait_for_workers_to_exit cfg (send_shutdown_and_wait_acks cfg ws) ws in
      (sequence cfg ws).forced
      ≡ length (
          filterb
            (λ w.
              not
                (is_dead (waited + cfg.shutdown.sigterm_delay_ms + cfg.shutdown.sigint_delay_ms) w))
            ws)
unfolding sequence
sequence-forced cfg ws = kill_all-forced cfg _ ws
