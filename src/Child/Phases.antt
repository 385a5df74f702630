-- ===== src/Child/Phases.antt =====
-- packages/worker-manager/src/orchestrator.ts: the phases of a worker process, from serving to its
-- exit.
use Prim.Native.String.{String}
use clusterkit.Common.{
  ℕ, suc, ◌≡◌, refl, sym, subst, Bool, true, false, Option, none, some, List, [], ◌∷◌, ◌++◌,
  if◌then◌else◌, if_cases, All, All-append,
}
use clusterkit.Child.{
  Process, Event, registers, signals, asked, settles, times_out, finish, next_callback, handled,
  entered, handle_shutdown, react, alive, step, run,
}

-- A shutdown under way that has not ended, without what is awaited.
pub record IsEntered (p : Process) : Type 0 where
  pub in_progress : p.local_shutdown_in_progress ≡ true
  pub silent : p.reporting ≡ false
  pub not_ready : p.ready ≡ false
  pub timer : p.exit_timer ≡ true
  pub in_time : p.shutdown_timed_out ≡ false
  pub running : p.exit_code ≡ none
  pub same_signal : All (λ c. c.1 ≡ p.signal) p.called

-- The four phases of a process.
pub data Phase (p : Process) : Type 0 where
  serves :
      p.local_shutdown_in_progress ≡ false
      → p.called ≡ []
      → p.awaited ≡ false
      → p.exit_timer ≡ false
      → p.shutdown_timed_out ≡ false
      → p.exit_code ≡ none
      → Phase p
  drains : IsEntered p → p.awaited ≡ true → Phase p
  finished :
      p.exit_code ≡ some 0
      → p.waiting ≡ []
      → p.awaited ≡ false
      → All (λ c. c.1 ≡ p.signal) p.called
      → Phase p
  forced : p.exit_code ≡ some 1 → Phase p

pub called-IsEntered :
    (c : ℕ) (cs : List ℕ) (p : Process) → IsEntered p → IsEntered (next_callback (c ∷ cs) p)
unfolding next_callback
called-IsEntered c cs p h = record {
  in_progress = h.in_progress;
  silent = h.silent;
  not_ready = h.not_ready;
  timer = h.timer;
  in_time = h.in_time;
  running = h.running;
  same_signal =
      All-append (λ (c : ℕ × String). c.1 ≡ p.signal) p.called ((c, p.signal) ∷ []) h.same_signal
        (refl, tt);
}

next-Phase : (cs : List ℕ) (p : Process) → IsEntered p → Phase (next_callback cs p)
unfolding next_callback finish
next-Phase [] p h =
    subst
      (λ (b : Bool). Phase (
        if b
        then record p { waiting = []; awaited = false; exit_timer = false }
        else record p { waiting = []; awaited = false; exit_timer = false; exit_code = some 0 }))
      (sym h.in_time) (finished refl refl refl h.same_signal)
next-Phase (c ∷ cs) p h = drains (called-IsEntered c cs p h) refl

-- What a request for a shutdown, the first or another, leaves.
handle-Phase :
    (s : String) (p : Process) → p.exit_code ≡ none → Phase p → Phase (handle_shutdown s p)
unfolding handle_shutdown
handle-Phase s p n (serves ip ca aw ti out ex) =
    subst (λ (b : Bool). Phase (handled b s p)) (sym ip)
      (next-Phase p.waiting (entered s p) (record {
        in_progress = refl;
        silent = refl;
        not_ready = refl;
        timer = refl;
        in_time = out;
        running = ex;
        same_signal = subst (All (λ (c : ℕ × String). c.1 ≡ s)) (sym ca) tt;
      }))
handle-Phase s p n (drains h aw) =
    subst (λ (b : Bool). Phase (handled b s p)) (sym h.in_progress)
      (drains
        (record {
          in_progress = h.in_progress;
          silent = refl;
          not_ready = h.not_ready;
          timer = h.timer;
          in_time = h.in_time;
          running = h.running;
          same_signal = h.same_signal;
        })
        aw)
handle-Phase s p n (finished ex w aw sg) = absurd (cc (n, ex))
handle-Phase s p n (forced ex) = absurd (cc (n, ex))

-- The other fields of a process are not looked at.
acked-Phase : (p : Process) → Phase p → Phase (record p { acks = suc p.acks })
acked-Phase p (serves ip ca aw ti out ex) = serves ip ca aw ti out ex
acked-Phase p (drains h aw) =
    drains
      (record {
        in_progress = h.in_progress;
        silent = h.silent;
        not_ready = h.not_ready;
        timer = h.timer;
        in_time = h.in_time;
        running = h.running;
        same_signal = h.same_signal;
      })
      aw
acked-Phase p (finished ex w aw sg) = finished ex w aw sg
acked-Phase p (forced ex) = forced ex

registered-Phase :
    (c : ℕ) (p : Process)
    → p.exit_code ≡ none
    → Phase p
    → Phase (record p { waiting = p.waiting ++ c ∷ [] })
registered-Phase c p n (serves ip ca aw ti out ex) = serves ip ca aw ti out ex
registered-Phase c p n (drains h aw) =
    drains
      (record {
        in_progress = h.in_progress;
        silent = h.silent;
        not_ready = h.not_ready;
        timer = h.timer;
        in_time = h.in_time;
        running = h.running;
        same_signal = h.same_signal;
      })
      aw
registered-Phase c p n (finished ex w aw sg) = absurd (cc (n, ex))
registered-Phase c p n (forced ex) = absurd (cc (n, ex))

settled-Phase :
    (p : Process)
    → p.exit_code ≡ none
    → Phase p
    → Phase (if p.awaited then next_callback p.waiting p else p)
settled-Phase p n (serves ip ca aw ti out ex) =
    subst (λ (b : Bool). Phase (if b then next_callback p.waiting p else p)) (sym aw)
      (serves ip ca aw ti out ex)
settled-Phase p n (drains h aw) =
    subst (λ (b : Bool). Phase (if b then next_callback p.waiting p else p)) (sym aw)
      (next-Phase p.waiting p h)
settled-Phase p n (finished ex w aw sg) = absurd (cc (n, ex))
settled-Phase p n (forced ex) = absurd (cc (n, ex))

react-Phase : (e : Event) (p : Process) → p.exit_code ≡ none → Phase p → Phase (react e p)
unfolding react
react-Phase (registers c) p n h = registered-Phase c p n h
react-Phase (signals s) p n h = handle-Phase s p n h
react-Phase (asked true) p n h =
    handle-Phase "IPC" (record p { acks = suc p.acks }) n (acked-Phase p h)
react-Phase (asked false) p n h = handle-Phase "IPC" p n h
react-Phase settles p n h = settled-Phase p n h
react-Phase times_out p n h = if_cases Phase p.exit_timer _ _ (λ _. forced refl) (λ _. h)

step-Phase : (e : Event) (p : Process) → Phase p → Phase (step e p)
unfolding step alive
step-Phase e p h = go p.exit_code refl
  where
    go : (o : Option ℕ) → p.exit_code ≡ o → Phase (alive o e p)
    go none n = react-Phase e p n h
    go (some code) n = h

pub run-Phase : (es : List Event) (p : Process) → Phase p → Phase (run es p)
unfolding run
run-Phase [] p h = h
run-Phase (e ∷ es) p h = run-Phase es (step e p) (step-Phase e p h)
