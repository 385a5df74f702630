-- ===== src/Child/Once.antt =====
-- packages/worker-manager/src/orchestrator.ts: what a worker's shutdown does once, and how it ends.
use Prim.Native.String.{String}
use clusterkit.Common.{
  ℕ, zero, suc, ◌≡◌, refl, sym, ap, ◌∙◌, subst, Bool, true, false, Option, none, some, List, [],
  ◌∷◌, ◌++◌, map, if◌then◌else◌, if_cases, length, All,
}
use clusterkit.Child.{
  Process, new_process, Event, registers, signals, settles, times_out, finish, next_callback,
  handled, entered, handle_shutdown, react, alive, step, run,
}
use clusterkit.Child.Phases.{
  IsEntered, Phase, serves, drains, finished, forced, called-IsEntered, run-Phase,
}

-- The callbacks registered while the process lives, in order.
abbrev pub registered_at : Option ℕ → Event → List ℕ
registered_at none (registers c) = c ∷ []
registered_at none e = []
registered_at (some code) e = []

unfoldable pub registered : List Event → Process → List ℕ
unfolding step
registered [] p = []
registered (e ∷ es) p = registered_at p.exit_code e ++ registered es (step e p)

-- What has been called and what has not, in one list.
abbrev pub known : Process → List ℕ
known p = map (λ c. c.0) p.called ++ p.waiting

fresh-Phase : Phase new_process
fresh-Phase = serves refl refl refl refl refl refl

-- So many callbacks settle.
abbrev pub settling : ℕ → List Event
settling zero = []
settling (suc n) = settles ∷ settling n

-- One callback that settles.
settle_drained :
    (p : Process) → IsEntered p → p.awaited ≡ true → step settles p ≡ next_callback p.waiting p
unfolding step alive react
settle_drained p h aw =
    ap (λ (o : Option ℕ). alive o settles p) h.running
    ∙ ap (λ (b : Bool). if b then next_callback p.waiting p else p) aw

drained :
    (cs : List ℕ) (p : Process)
    → IsEntered p
    → (run (settling (length cs)) (next_callback cs p)).exit_code ≡ some 0
unfolding run next_callback finish
drained [] p h =
    if_cases (λ (q : Process). q.exit_code ≡ some 0) p.shutdown_timed_out _ _
      (λ e. absurd (cc (e, h.in_time))) (λ _. refl)
drained (c ∷ cs) p h =
    let q = next_callback (c ∷ cs) p in
    ap (λ (r : Process). (run (settling (length cs)) r).exit_code)
      (settle_drained q (called-IsEntered c cs p h) refl)
    ∙ drained cs q (called-IsEntered c cs p h)

-- How a process in each phase ends.
abbrev pub Ends : Process → Type 0
Ends p =
    (p.local_shutdown_in_progress ≡ false
      → (s : String) → (run (signals s ∷ settling (length p.waiting)) p).exit_code ≡ some 0)
    × (p.local_shutdown_in_progress ≡ true
        → ((run (settling (suc (length p.waiting))) p).exit_code ≡ some 0)
          × ((step times_out p).exit_code ≡ some 1))

fresh-IsEntered :
    (s : String) (p : Process)
    → p.called ≡ []
    → p.shutdown_timed_out ≡ false
    → p.exit_code ≡ none
    → IsEntered (entered s p)
fresh-IsEntered s p ca out ex = record {
  in_progress = refl;
  silent = refl;
  not_ready = refl;
  timer = refl;
  in_time = out;
  running = ex;
  same_signal = subst (All (λ (c : ℕ × String). c.1 ≡ s)) (sym ca) tt;
}

phase-Ends : (p : Process) → Phase p → p.exit_code ≡ none → Ends p
unfolding run step alive react handle_shutdown handled
phase-Ends p (serves ip ca aw ti out ex) n = (
  λ _ s.
      ap (λ (o : Option ℕ). (run (settling (length p.waiting)) (alive o (signals s) p)).exit_code) n
      ∙ (ap (λ (b : Bool). (run (settling (length p.waiting)) (handled b s p)).exit_code) ip
          ∙ drained p.waiting (entered s p) (fresh-IsEntered s p ca out ex)),
  λ e. absurd (cc (e, ip)),
)
phase-Ends p (drains h aw) n = (
  λ e. absurd (cc (e, h.in_progress)),
  λ _. (
    ap (λ (r : Process). (run (settling (length p.waiting)) r).exit_code) (settle_drained p h aw)
        ∙ drained p.waiting p h,
    ap (λ (o : Option ℕ). (alive o times_out p).exit_code) n
        ∙ if_cases (λ (q : Process). q.exit_code ≡ some 1) p.exit_timer _ _ (λ _. refl)
            (λ e. absurd (cc (e, h.timer))),
  ),
)
phase-Ends p (finished ex w aw sg) n = absurd (cc (n, ex))
phase-Ends p (forced ex) n = absurd (cc (n, ex))

-- A worker's shutdown ends. In whatever state the events have brought a worker that has not exited,
-- a signal and then the settling of the callbacks that wait makes it exit with code 0 where no
-- shutdown is under way; where one is, the settling of those and of the one awaited does, and the
-- exit timer makes it exit with code 1.
pub shutdown-Ends :
    (es : List Event) → (run es new_process).exit_code ≡ none → Ends (run es new_process)
shutdown-Ends es n = phase-Ends (run es new_process) (run-Phase es new_process fresh-Phase) n
