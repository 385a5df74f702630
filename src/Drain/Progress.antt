-- ===== src/Drain/Progress.antt =====
-- packages/worker-manager/src/drain-coordinator.ts: a stuck old worker, and the end of the bounded
-- wait.
use clusterkit.Common.{
  ℕ, ◌+◌, ◌≤◌, ◌≡◌, ◌≢◌, refl, Bool, true, false, List, [], ◌∷◌, ◌++◌, All, arith,
}
use clusterkit.Drain.{
  Drain, Seen, Stimulus, replacement_exit, replacement_online, failsafe, force_kill, sigkill_due,
  old_exit, recycle, react, react_all, Wait, waiting, in_grace, settled, WaitEvent, exited,
  wait_over, grace_over, await_step, await_all,
}
use clusterkit.Drain.Escalation.{total, is_message, is_disconnect, is_sigkill, bit}

-- No shutdown is under way, and the old worker neither dies nor refuses what is sent to it.
abbrev pub IsStuck : Seen × Stimulus → Type 0
IsStuck p =
    (p.0.shutting_down ≡ false)
    × (p.0.dead ≡ false)
    × (p.0.throws ≡ false)
    × (p.0.disconnect_throws ≡ false)
    × (p.1 ≢ old_exit)

-- Before the drain the failsafe is armed and nothing is sent; after it the message and the
-- disconnect are, once each, and exactly one of the two timers is, or the
-- SIGKILL is out.
record IsPending (d : Drain) : Type 0 where
  armed : d.drained ≡ false → (d.failsafe_timer ≡ true) × (d.is_online ≡ false)
  messages : total is_message d.sent ≡ bit d.drained
  disconnects : total is_disconnect d.sent ≡ bit d.drained
  staged : bit d.force_timer + bit d.sigkill_timer + total is_sigkill d.sent ≡ bit d.drained

react-IsPending :
    (o : Seen) (s : Stimulus) (d : Drain) → IsStuck (o, s) → IsPending d → IsPending (react o s d)
unfolding react
react-IsPending o replacement_exit d q v = ground arith
react-IsPending o replacement_online d q v = ground arith
react-IsPending o failsafe d q v = ground arith
react-IsPending o force_kill d q v = ground arith
react-IsPending o sigkill_due d q v = ground arith
react-IsPending o old_exit d q v = absurd (q.4 refl)

react_all-IsPending :
    (xs : List (Seen × Stimulus)) (d : Drain)
    → All IsStuck xs
    → IsPending d
    → IsPending (react_all xs d)
unfolding react_all
react_all-IsPending [] d q v = v
react_all-IsPending ((o, s) ∷ xs) d q v =
    react_all-IsPending xs (react o s d) q.1 (react-IsPending o s d q.0 v)

-- What the code sees of a stuck worker.
abbrev pub stuck : Seen
stuck = record { shutting_down = false; dead = false; throws = false; disconnect_throws = false }

abbrev pub budget_spent : List (Seen × Stimulus)
budget_spent = (stuck, failsafe) ∷ (stuck, force_kill) ∷ (stuck, sigkill_due) ∷ []

react_all-append :
    (xs ys : List (Seen × Stimulus)) (d : Drain)
    → react_all (xs ++ ys) d ≡ react_all ys (react_all xs d)
unfolding react_all
react_all-append [] ys d = refl
react_all-append ((o, s) ∷ xs) ys d = react_all-append xs ys (react o s d)

budget-kills :
    (d : Drain)
    → IsPending d
    → (total is_message (react_all budget_spent d).sent ≡ 1)
      × (total is_disconnect (react_all budget_spent d).sent ≡ 1)
      × (total is_sigkill (react_all budget_spent d).sent ≡ 1)
unfolding react_all react
budget-kills d v = ground arith

-- A stuck old worker does not linger. Whatever the replacement does, be it that it comes online,
-- dies, or hangs in its boot, once the failsafe and the two kill timers have run out the old worker
-- has been sent the shutdown message, been disconnected and been sent SIGKILL, each exactly once.
pub stuck_worker_killed :
    (xs : List (Seen × Stimulus))
    → All IsStuck xs
    → let d = react_all (xs ++ budget_spent) recycle in
      (total is_message d.sent ≡ 1)
      × (total is_disconnect d.sent ≡ 1)
      × (total is_sigkill d.sent ≡ 1)
stuck_worker_killed xs q =
    rw (react_all-append xs budget_spent recycle)
      (budget-kills (react_all xs recycle) (react_all-IsPending xs recycle q start))
  where
    start : IsPending recycle
    start = unfold recycle in ground arith

rank : Wait → ℕ
rank waiting = 1
rank _ = 0

await_step-kills :
    (dead throws : Bool) (ev : WaitEvent) (w : Wait)
    → (await_step dead throws ev w).1 + rank (await_step dead throws ev w).0 ≤ rank w
unfolding await_step rank
await_step-kills dead throws ev w = ground arith

await_all-kills :
    (xs : List (Bool × Bool × WaitEvent)) (w : Wait)
    → (await_all xs w).1 + rank (await_all xs w).0 ≤ rank w
unfolding await_all
await_all-kills [] w = omega arith
await_all-kills ((dead, throws, ev) ∷ xs) w =
    let r = await_step dead throws ev w in
    omega (arith, await_step-kills dead throws ev w, await_all-kills xs r.0)

settled_stays : (xs : List (Bool × Bool × WaitEvent)) → (await_all xs settled).0 ≡ settled
unfolding await_all await_step
settled_stays [] = refl
settled_stays ((dead, throws, exited) ∷ xs) = settled_stays xs
settled_stays ((dead, throws, wait_over) ∷ xs) = settled_stays xs
settled_stays ((dead, throws, grace_over) ∷ xs) = settled_stays xs

-- The bounded wait for an exit makes at most one forced kill, whatever arrives; it has settled once
-- the budget and then the grace period are over, also if no exit ever comes.
pub await_bounded :
    (xs ys : List (Bool × Bool × WaitEvent)) (d t d' t' : Bool) (w : Wait)
    → ((await_all xs w).1 ≤ 1)
      × ((await_all ((d, t, wait_over) ∷ (d', t', grace_over) ∷ ys) w).0 ≡ settled)
unfolding await_all await_step rank
await_bounded xs ys d t d' t' waiting =
    (omega (arith, await_all-kills xs waiting), settled_stays ys)
await_bounded xs ys d t d' t' in_grace =
    (omega (arith, await_all-kills xs in_grace), settled_stays ys)
await_bounded xs ys d t d' t' settled =
    (omega (arith, await_all-kills xs settled), settled_stays ys)
