-- ===== src/Restart/Rounds.antt =====
-- How many turns the restart loop takes: a measure of what is queued and of the failures left.
use clusterkit.Common.{
  ℕ, suc, ◌+◌, ◌-◌, ◌*◌, ◌≤◌, ◌≡◌, refl, Option, none, some, List, [], ◌∷◌, ltb, ◌==◌, length,
  length-append, if_cases, arith,
}
use clusterkit.Crash.{CrashTracker}
use clusterkit.Fleet.Record.{Host, Env}
use clusterkit.Fleet.{fork_worker}
use clusterkit.Restart.Record.{
  State, RestartCoordinator, RestartQueueEntry, Phase, idle, yielded, sleeping,
}
use clusterkit.Restart.Loop.{
  after_fork, fork_attempt, begin_restart, advance, wake_phase, resume_phase, pruned, breaker_open,
  missing_workers, next_delay,
}

-- One turn of the loop: the end of a wait, or the next reading of the queue.
abbrev pub turn_at : Env → Phase → State → State
turn_at e idle s = s
turn_at e yielded s = resume_phase e yielded s
turn_at e (sleeping x d) s = wake_phase e (sleeping x d) s

unfoldable pub turn : Env → State → State
turn e s = turn_at e s.coord.phase s

-- The fleet with its clock, and the tracker of the crashes, as they have become.
abbrev pub meanwhile : Host → CrashTracker → State → State
meanwhile h t s = record { host = h; coord = record s.coord { tracker = t } }

-- Turns of the loop, each after whatever has happened to those.
unfoldable pub turns : Env → List (Host × CrashTracker) → State → State
turns e [] s = s
turns e ((h, t) ∷ gaps) s = turns e gaps (turn e (meanwhile h t s))

abbrev weight : Phase → ℕ → ℕ → ℕ
weight idle q f = 0
weight yielded q f = 8 * q + 2 * (3 - f) + 1
weight (sleeping x d) q f = 8 * q + 8 + 2 * (3 - f)

abbrev measure : State → ℕ
measure s = weight s.coord.phase (length s.coord.queue) s.coord.fork_failures

after_fork-measure :
    (e : Env) (x : RestartQueueEntry) (d : ℕ) (r : Option ℕ × Host) (c : RestartCoordinator)
    → suc (measure (after_fork e x d r c)) ≤ 8 * length c.queue + 8 + 2 * (3 - c.fork_failures)
unfolding after_fork
after_fork-measure e x d (none, h) c = ground (arith, length-append c.queue (x ∷ []))
after_fork-measure e x d (some id, h) c = omega arith

fork_attempt-measure :
    (e : Env) (x : RestartQueueEntry) (d : ℕ) (s : State)
    → suc (measure (fork_attempt e x d s))
      ≤ 8 * length s.coord.queue + 8 + 2 * (3 - s.coord.fork_failures)
unfolding fork_attempt
fork_attempt-measure e x d s =
    if_cases (λ r. suc (measure r) ≤ 8 * length s.coord.queue + 8 + 2 * (3 - s.coord.fork_failures))
      (breaker_open s) _ _ (λ open'. omega arith)
      (λ shut. after_fork-measure e x d (fork_worker e none (pruned s).host) (pruned s).coord)

begin_restart-measure :
    (e : Env) (x : RestartQueueEntry) (s : State)
    → measure (begin_restart e x s) ≤ 8 * length s.coord.queue + 8 + 2 * (3 - s.coord.fork_failures)
unfolding begin_restart
begin_restart-measure e x s =
    if_cases (λ r. measure r ≤ 8 * length s.coord.queue + 8 + 2 * (3 - s.coord.fork_failures))
      (ltb 0 (next_delay e s.coord)) _ _ (λ waits. omega arith)
      (λ at_once. omega (arith, fork_attempt-measure e x (next_delay e s.coord) s))

advance-measure :
    (e : Env) (q : List RestartQueueEntry) (s : State)
    → measure (advance e q s) ≤ 8 * length q + 2 * (3 - s.coord.fork_failures)
unfolding advance
advance-measure e [] s = omega arith
advance-measure e (x ∷ rest) s =
    let P : State → Type 0 =
      λ r. measure r ≤ 8 * length (x ∷ rest) + 2 * (3 - s.coord.fork_failures) in
    let t = pruned s in
    if_cases P s.host.shutting_down _ _ (λ down. omega arith)
      λ up.
        if_cases P (breaker_open s) _ _ (λ open'. omega arith)
          λ shut.
            if_cases P (missing_workers e s.host == 0) _ _
              (λ full. omega (arith, advance-measure e rest t))
              (λ short. omega (
                arith,
                begin_restart-measure e x (record t { coord = record t.coord { queue = rest } }),
              ))

turn_at-measure :
    (e : Env) (p : Phase) (s : State)
    → measure s ≡ weight p (length s.coord.queue) s.coord.fork_failures
    → measure (turn_at e p s) ≤ measure s - 1
unfolding wake_phase resume_phase
turn_at-measure e idle s m = omega (arith, m)
turn_at-measure e yielded s m = omega (arith, m, advance-measure e s.coord.queue s)
turn_at-measure e (sleeping x d) s m =
    if_cases (λ r. measure r ≤ measure s - 1) s.host.shutting_down _ _ (λ down. omega (arith, m))
      (λ up. omega (arith, m, fork_attempt-measure e x d s))

turn-measure : (e : Env) (s : State) → measure (turn e s) ≤ measure s - 1
unfolding turn
turn-measure e s = turn_at-measure e s.coord.phase s refl

turns-measure :
    (e : Env) (gaps : List (Host × CrashTracker)) (s : State)
    → measure (turns e gaps s) ≤ measure s - length gaps
unfolding turns
turns-measure e [] s = omega arith
turns-measure e ((h, t) ∷ gaps) s =
    let u = meanwhile h t s in omega (arith, turns-measure e gaps (turn e u), turn-measure e u)

weight_zero : (p : Phase) (q f : ℕ) → weight p q f ≡ 0 → p ≡ idle
weight_zero idle q f h = refl
weight_zero yielded q f h = absurd (omega arith)
weight_zero (sleeping x d) q f h = absurd (omega arith)

weight_bound : (p : Phase) (q f : ℕ) → weight p q f ≤ 8 * q + 14
weight_bound idle q f = omega arith
weight_bound yielded q f = omega arith
weight_bound (sleeping x d) q f = omega arith

-- The loop ends by itself: with n entries queued it is left after at most 8 n + 14 turns if nothing
-- more is queued, whatever the forks do and however often they fail, and whatever becomes of the
-- fleet, the clock, the shutdown flag and the tracker, and so of the breaker, before each turn.
pub turns-idle :
    (e : Env) (s : State) (gaps : List (Host × CrashTracker))
    → 8 * length s.coord.queue + 14 ≤ length gaps
    → (turns e gaps s).coord.phase ≡ idle
turns-idle e s gaps enough =
    let r = turns e gaps s in
    weight_zero r.coord.phase (length r.coord.queue) r.coord.fork_failures (
      omega (
        arith,
        enough,
        turns-measure e gaps s,
        weight_bound s.coord.phase (length s.coord.queue) s.coord.fork_failures,
      ))
