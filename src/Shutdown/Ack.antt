-- ===== src/Shutdown/Ack.antt =====
-- packages/worker-manager/src/shutdown-coordinator.ts: when a worker counts as having acknowledged.
use clusterkit.Common.{◌≡◌, ◌≢◌, refl, Bool, true, false, List, [], ◌∷◌, ◌++◌, ◌↔◌}
use clusterkit.Shutdown.{
  AckEvent, ack_message, other_message, exit, disconnect, error, timeout, AckWait, pending,
  resolved, start_ack, ack_step, ack_steps,
}

-- The wait begins with messages of other kinds only, and then comes the ACK.
pub data AcksFirst : List AckEvent → Type 0 where
  now : (evs : List AckEvent) → AcksFirst (ack_message ∷ evs)
  after : (evs : List AckEvent) → AcksFirst evs → AcksFirst (other_message ∷ evs)

resolved_stays : (evs : List AckEvent) (b : Bool) → ack_steps evs (resolved b) ≡ resolved b
unfolding ack_steps ack_step
resolved_stays [] b = refl
resolved_stays (ev ∷ evs) b = resolved_stays evs b

pub ack_steps-AcksFirst :
    (evs : List AckEvent) → AcksFirst evs → ack_steps evs pending ≡ resolved true
unfolding ack_steps ack_step
ack_steps-AcksFirst evs' (now evs) = resolved_stays evs true
ack_steps-AcksFirst evs' (after evs a) = ack_steps-AcksFirst evs a

pub AcksFirst-ack_steps :
    (evs : List AckEvent) → ack_steps evs pending ≡ resolved true → AcksFirst evs
unfolding ack_steps ack_step
AcksFirst-ack_steps [] h = cc
AcksFirst-ack_steps (ack_message ∷ evs) h = now evs
AcksFirst-ack_steps (other_message ∷ evs) h = after evs (AcksFirst-ack_steps evs h)
AcksFirst-ack_steps (exit ∷ evs) h = cc (resolved_stays evs false)
AcksFirst-ack_steps (disconnect ∷ evs) h = cc (resolved_stays evs false)
AcksFirst-ack_steps (error ∷ evs) h = cc (resolved_stays evs false)
AcksFirst-ack_steps (timeout ∷ evs) h = cc (resolved_stays evs false)

timeout_resolves :
    (evs rest : List AckEvent) (w : AckWait) → ack_steps (evs ++ timeout ∷ rest) w ≢ pending
unfolding ack_steps
timeout_resolves [] rest (resolved b) h = unfold ack_step in cc (resolved_stays rest b)
timeout_resolves [] rest pending h = unfold ack_step in cc (resolved_stays rest false)
timeout_resolves (ev ∷ evs) rest w h = timeout_resolves evs rest (ack_step ev w) h

-- For a live and connected worker to which the message could be sent: the wait is over once its
-- timeout has fired, whatever else came, and it resolves to an acknowledgement exactly if the ACK
-- came before any exit, disconnect, error or timeout.
pub ack_decided :
    (evs rest : List AckEvent)
    → (ack_steps (evs ++ timeout ∷ rest) (start_ack false true false) ≢ pending)
      × ((ack_steps evs (start_ack false true false) ≡ resolved true) ↔ AcksFirst evs)
unfolding start_ack
ack_decided evs rest =
    (timeout_resolves evs rest pending, (AcksFirst-ack_steps evs, ack_steps-AcksFirst evs))
