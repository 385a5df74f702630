-- ===== src/Restart/Breaker.antt =====
-- packages/worker-manager/src/restart-coordinator.ts: what a tripped breaker and a shutdown hold
-- back.
use clusterkit.Common.{
  ℕ, zero, suc, ◌+◌, ◌≡◌, refl, Bool, true, false, ◌&&◌, ltb, List, [], ◌∷◌, ◌⊎◌, inl, inr,
  if◌then◌else◌, if_cases,
}
use clusterkit.Fleet.Record.{Env}
use clusterkit.Fleet.{cleanup_worker}
use clusterkit.Restart.Record.{State, RestartQueueEntry, Phase, idle, yielded, sleeping}
use clusterkit.Restart.{recorded, on_worker_crash}
use clusterkit.Restart.Loop.{
  fork_attempt, advance, breaker_open, wake_phase, resume_phase, process_restart_queue,
  process_phase,
}
use clusterkit.Restart.Rounds.{turn, turn_at}

-- Shutting down, or tripped at this moment.
abbrev pub IsGated : State → Type 0
IsGated s = (s.host.shutting_down ≡ true) ⊎ (breaker_open s ≡ true)

advance_gated :
    (e : Env) (q : List RestartQueueEntry) (s : State) → IsGated s → (advance e q s).host ≡ s.host
unfolding advance
advance_gated e [] s g = refl
advance_gated e (x ∷ rest) s (inl down) =
    if_cases (λ (r : State). r.host ≡ s.host) s.host.shutting_down _ _ (λ h. refl) (λ h. cc)
advance_gated e (x ∷ rest) s (inr trip) =
    if_cases (λ (r : State). r.host ≡ s.host) s.host.shutting_down _ _ (λ h. refl)
      λ up. if_cases (λ (r : State). r.host ≡ s.host) (breaker_open s) _ _ (λ h. refl) (λ h. cc)

turn_at_gated : (e : Env) (p : Phase) (s : State) → IsGated s → (turn_at e p s).host ≡ s.host
unfolding wake_phase resume_phase fork_attempt
turn_at_gated e idle s g = refl
turn_at_gated e yielded s g = advance_gated e s.coord.queue s g
turn_at_gated e (sleeping x d) s (inl down) =
    if_cases (λ (r : State). r.host ≡ s.host) s.host.shutting_down _ _ (λ h. refl) (λ h. cc)
turn_at_gated e (sleeping x d) s (inr trip) =
    if_cases (λ (r : State). r.host ≡ s.host) s.host.shutting_down _ _ (λ h. refl)
      λ up. if_cases (λ (r : State). r.host ≡ s.host) (breaker_open s) _ _ (λ h. refl) (λ h. cc)

pub process_gated : (e : Env) (s : State) → IsGated s → (process_restart_queue e s).host ≡ s.host
unfolding process_restart_queue
process_gated e s g = go s.coord.phase
  where
    go : (p : Phase) → (process_phase e p s).host ≡ s.host
    go idle = unfold process_phase in advance_gated e s.coord.queue s g
    go yielded = unfold process_phase in refl
    go (sleeping x d) = unfold process_phase in refl

-- While the breaker is tripped, or once a shutdown has begun, the restart loop does nothing to the
-- fleet: neither a turn of it, be it the end of a wait that began before, nor a new kick forks a
-- worker, changes a metric or the exit code, or emits an event.
pub gated_no_fork :
    (e : Env) (s : State)
    → IsGated s
    → ((turn e s).host ≡ s.host) × ((process_restart_queue e s).host ≡ s.host)
unfolding turn
gated_no_fork e s g = (turn_at_gated e s.coord.phase s g, process_gated e s g)

-- A worker exits after some time, and is no longer tracked.
abbrev pub left_after : ℕ → ℕ → State → State
left_after dt id s = record s { host = cleanup_worker id (record s.host { now = s.host.now + dt }) }

-- A run of crashes, some time apart, each of which finds the breaker tripped once it is recorded.
-- None is a crash at boot that the quarantine counts.
pub data Trips (e : Env) (s : State) : ℕ → State → Type 0 where
  untouched : Trips e s zero s
  trips :
      {n : ℕ} {t : State} (dt id : ℕ) (boot_failed has_online : Bool) (u : State)
      → Trips e s n t
      → (boot_failed && (ltb 0 e.cfg.restart.boot_fail_quarantine && has_online)) ≡ false
      → breaker_open (recorded (left_after dt id t)) ≡ true
      → u ≡ on_worker_crash e id boot_failed has_online (left_after dt id t)
      → Trips e s (suc n) u

-- What n of them do, at least one.
pub record TrippedBy (n : ℕ) (s u : State) : Type 0 where
  pub exit_code : u.host.exit_code ≡ 1
  pub ready : u.host.ready ≡ false
  pub attempts : u.host.attempts ≡ s.host.attempts
  pub queue : u.coord.queue ≡ s.coord.queue
  pub hold : u.coord.hold ≡ false
  pub warned : u.coord.warning_emitted ≡ true
  pub warnings :
      u.host.warnings ≡ (if s.coord.warning_emitted then s.host.warnings else suc s.host.warnings)
  pub backoffs : u.host.metrics.crash_loop_backoffs ≡ n + s.host.metrics.crash_loop_backoffs
