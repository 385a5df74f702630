-- ===== src/Drain/Escalation.antt =====
-- packages/worker-manager/src/drain-coordinator.ts: what the old worker can be sent, and how often.
use clusterkit.Common.{ℕ, ◌+◌, ◌≤◌, ◌≡◌, Bool, true, false, List, [], ◌∷◌, arith}
use clusterkit.Drain.{
  Drain, Sent, shutdown_message, disconnect, sigterm, sigkill, Seen, Stimulus, replacement_exit,
  replacement_online, failsafe, force_kill, sigkill_due, old_exit, recycle, react, react_all,
}

abbrev pub is_message : Sent → ℕ
is_message shutdown_message = 1
is_message _ = 0

abbrev pub is_disconnect : Sent → ℕ
is_disconnect disconnect = 1
is_disconnect _ = 0

abbrev pub is_sigterm : Sent → ℕ
is_sigterm sigterm = 1
is_sigterm _ = 0

abbrev pub is_sigkill : Sent → ℕ
is_sigkill sigkill = 1
is_sigkill _ = 0

abbrev pub total : (Sent → ℕ) → List Sent → ℕ
total f [] = 0
total f (x ∷ xs) = f x + total f xs

abbrev pub bit : Bool → ℕ
bit true = 1
bit false = 0

-- Each stage follows the one before it, once.
pub record IsOrderly (d : Drain) : Type 0 where
  pub messages : total is_message d.sent ≤ bit d.drained
  pub disconnects : total is_disconnect d.sent ≤ total is_message d.sent
  pub terms : total is_sigterm d.sent + bit d.force_timer ≤ bit d.drained
  pub kills : total is_sigkill d.sent + bit d.sigkill_timer + bit d.force_timer ≤ bit d.drained
  pub counted : d.forced_kills ≡ total is_sigkill d.sent

react-IsOrderly : (o : Seen) (s : Stimulus) (d : Drain) → IsOrderly d → IsOrderly (react o s d)
unfolding react
react-IsOrderly o replacement_exit d v = ground arith
react-IsOrderly o replacement_online d v = ground arith
react-IsOrderly o failsafe d v = ground arith
react-IsOrderly o force_kill d v = ground arith
react-IsOrderly o sigkill_due d v = ground arith
react-IsOrderly o old_exit d v = ground arith

react_all-IsOrderly :
    (xs : List (Seen × Stimulus)) (d : Drain) → IsOrderly d → IsOrderly (react_all xs d)
unfolding react_all
react_all-IsOrderly [] d v = v
react_all-IsOrderly ((o, s) ∷ xs) d v =
    react_all-IsOrderly xs (react o s d) (react-IsOrderly o s d v)

-- However the replacement's events, the timers and the old worker's exit are ordered or repeated, a
-- hand-over sends the old worker at most one shutdown message, one disconnect, one SIGTERM and one
-- SIGKILL, none of them before it is drained and no disconnect without the message, and counts
-- exactly the SIGKILLs sent as forced kills.
pub recycle-IsOrderly :
    (xs : List (Seen × Stimulus))
    → let d = react_all xs recycle in
      (total is_message d.sent ≤ bit d.drained)
      × (total is_disconnect d.sent ≤ total is_message d.sent)
      × (total is_sigterm d.sent ≤ bit d.drained)
      × (total is_sigkill d.sent ≤ bit d.drained)
      × (d.forced_kills ≡ total is_sigkill d.sent)
unfolding recycle
recycle-IsOrderly xs = ground (arith, react_all-IsOrderly xs recycle start)
  where
    start : IsOrderly recycle
    start = ground arith
