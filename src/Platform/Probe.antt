-- ===== src/Platform/Probe.antt =====
-- packages/worker-manager/src/platform.ts: `detectRuntimeReusePortSupport`, the probe with two
-- sockets.
use clusterkit.Common.{
  ◌≢◌, ◌≡◌, refl, ap, ◌∙◌, sym, Bool, true, false, Option, none, some, List, [], ◌∷◌, if◌then◌else◌,
}
use clusterkit.Platform.{Outcome, resolved, timed_out}

-- `first_listening`: whether the address has a port, and whether `second.listen` returns.
pub data Event : Type 0 where
  first_error second_error second_listening times_out : Event
  first_listening : Bool → Bool → Event

-- `outcome` is set once `settled` is, when the listeners are removed and the timer is cleared.
pub record Probe : Type 0 where
  pub second_bound : Bool  -- the listener for the second server's "listening" is set
  pub outcome : Option Outcome

-- `cleanup`, or the timer's rejection.
unfoldable pub settle : Outcome → Probe → Probe
settle o p = record p { outcome = some o }

-- The first bind, which may throw.
unfoldable pub start_probe : Bool → Probe
unfolding settle
start_probe true = record { second_bound = false; outcome = none }
start_probe false = record { second_bound = false; outcome = some (resolved false) }

unfoldable pub on_first : Bool → Bool → Probe → Probe
unfolding settle
on_first false returns p = settle (resolved false) p
on_first true false p = settle (resolved false) (record p { second_bound = true })
on_first true true p = record p { second_bound = true }

unfoldable pub react : Event → Probe → Probe
unfolding settle on_first
react first_error p = settle (resolved false) p
react second_error p = settle (resolved false) p
react second_listening p = if p.second_bound then settle (resolved true) p else p
react times_out p = settle timed_out p
react (first_listening port returns) p = on_first port returns p

-- A probe that has settled has no listeners left.
unfoldable pub unless_settled : Option Outcome → Event → Probe → Probe
unfolding react
unless_settled none e p = react e p
unless_settled (some o) e p = p

unfoldable pub probe_step : Event → Probe → Probe
unfolding unless_settled
probe_step e p = unless_settled p.outcome e p

unfoldable pub probe_run : List Event → Probe → Probe
unfolding probe_step
probe_run [] p = p
probe_run (e ∷ es) p = probe_run es (probe_step e p)

-- The second server listens, and before that the first one does, on a port.
pub data SecondBound : List Event → Type 0 where
  listens : {es : List Event} → SecondBound (second_listening ∷ es)
  waits_on : {e : Event} {es : List Event} → SecondBound es → SecondBound (e ∷ es)

pub data BothBound : List Event → Type 0 where
  bound : {es : List Event} → SecondBound es → BothBound (first_listening true true ∷ es)
  waits : {e : Event} {es : List Event} → BothBound es → BothBound (e ∷ es)

settled_stays :
    (es : List Event) (p : Probe) (o : Outcome)
    → p.outcome ≡ some o
    → (probe_run es p).outcome ≡ some o
unfolding probe_run probe_step unless_settled
settled_stays [] p o h = h
settled_stays (e ∷ es) p o h = settled_stays es (probe_step e p) o (stays p.outcome h)
  where
    stays : (q : Option Outcome) → q ≡ some o → (unless_settled q e p).outcome ≡ some o
    stays none k = absurd (cc k)
    stays (some r) k = h

-- With another outcome the probe does not find support.
refuted :
    (es : List Event) (p : Probe) (o : Outcome)
    → o ≢ resolved true
    → p.outcome ≡ some o
    → (probe_run es p).outcome ≢ some (resolved true)
refuted es p o n h k = n (cc (settled_stays es p o h, k))

no_support : (resolved false) ≢ resolved true
no_support h = absurd (cc (ap is_resolved_true h))
  where
    is_resolved_true : Outcome → Bool
    is_resolved_true (resolved b) = b
    is_resolved_true o = false

inconclusive : timed_out ≢ resolved true
inconclusive h = cc

-- One event, where the listener of the second server is set.
second_step :
    (e : Event) (es : List Event) (p : Probe)
    → p.second_bound ≡ true
    → (probe_run es (react e p)).outcome ≡ some (resolved true)
    → p.outcome ≡ none
    → ((q : Probe)
        → q.second_bound ≡ true
        → q.outcome ≡ none
        → (probe_run es q).outcome ≡ some (resolved true)
        → SecondBound es)
    → SecondBound (e ∷ es)
unfolding react on_first settle
second_step first_error es p s h n k =
    absurd
      (refuted es (record p { outcome = some (resolved false) }) (resolved false) no_support refl h)
second_step second_error es p s h n k =
    absurd
      (refuted es (record p { outcome = some (resolved false) }) (resolved false) no_support refl h)
second_step times_out es p s h n k =
    absurd (refuted es (record p { outcome = some timed_out }) timed_out inconclusive refl h)
second_step second_listening es p s h n k = listens
second_step (first_listening false r) es p s h n k =
    absurd
      (refuted es (record p { outcome = some (resolved false) }) (resolved false) no_support refl h)
second_step (first_listening true false) es p s h n k = absurd (
    refuted es (record p { second_bound = true; outcome = some (resolved false) }) (resolved false)
      no_support refl h)
second_step (first_listening true true) es p s h n k =
    waits_on (k (record p { second_bound = true }) refl n h)

supported_second :
    (es : List Event) (p : Probe)
    → p.second_bound ≡ true
    → p.outcome ≡ none
    → (probe_run es p).outcome ≡ some (resolved true)
    → SecondBound es
unfolding probe_run probe_step unless_settled
supported_second [] p s n h = absurd (cc (n, h))
supported_second (e ∷ es) p s n h =
    second_step e es p s
      (ap (λ (o : Option Outcome). (probe_run es (unless_settled o e p)).outcome) (sym n) ∙ h) n
      (λ q a b c. supported_second es q a b c)

first_step :
    (e : Event) (es : List Event) (p : Probe)
    → p.second_bound ≡ false
    → (probe_run es (react e p)).outcome ≡ some (resolved true)
    → p.outcome ≡ none
    → ((q : Probe)
        → q.second_bound ≡ false
        → q.outcome ≡ none
        → (probe_run es q).outcome ≡ some (resolved true)
        → BothBound es)
    → BothBound (e ∷ es)
unfolding react on_first settle
first_step first_error es p s h n k =
    absurd
      (refuted es (record p { outcome = some (resolved false) }) (resolved false) no_support refl h)
first_step second_error es p s h n k =
    absurd
      (refuted es (record p { outcome = some (resolved false) }) (resolved false) no_support refl h)
first_step times_out es p s h n k =
    absurd (refuted es (record p { outcome = some timed_out }) timed_out inconclusive refl h)
first_step second_listening es p s h n k = waits (
    k p s n (
      ap
        (λ (b : Bool).
          (probe_run es (if b then record p { outcome = some (resolved true) } else p)).outcome)
        (sym s)
      ∙ h))
first_step (first_listening false r) es p s h n k =
    absurd
      (refuted es (record p { outcome = some (resolved false) }) (resolved false) no_support refl h)
first_step (first_listening true false) es p s h n k = absurd (
    refuted es (record p { second_bound = true; outcome = some (resolved false) }) (resolved false)
      no_support refl h)
first_step (first_listening true true) es p s h n k =
    bound (supported_second es (record p { second_bound = true }) refl n h)

supported_first :
    (es : List Event) (p : Probe)
    → p.second_bound ≡ false
    → p.outcome ≡ none
    → (probe_run es p).outcome ≡ some (resolved true)
    → BothBound es
unfolding probe_run probe_step unless_settled
supported_first [] p s n h = absurd (cc (n, h))
supported_first (e ∷ es) p s n h =
    first_step e es p s
      (ap (λ (o : Option Outcome). (probe_run es (unless_settled o e p)).outcome) (sym n) ∙ h) n
      (λ q a b c. supported_first es q a b c)

-- The probe finds support only if its first server listens, on a port, and its second one after
-- that on the same port, whatever else happens: neither one bind nor a time-out nor an error is
-- taken for it.
pub supported_bound :
    (first : Bool) (es : List Event)
    → (probe_run es (start_probe first)).outcome ≡ some (resolved true)
    → BothBound es
unfolding start_probe
supported_bound true es h =
    supported_first es (record { second_bound = false; outcome = none }) refl refl h
supported_bound false es h = absurd (
    refuted es (record { second_bound = false; outcome = some (resolved false) }) (resolved false)
      no_support refl h)
