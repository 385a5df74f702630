-- ===== src/Child/First.antt =====
-- packages/worker-manager/src/orchestrator.ts: the first request for a worker's shutdown is the one
-- whose signal stays.
use Prim.Native.String.{String}
use clusterkit.Common.{
  ℕ, suc, ◌≡◌, refl, sym, ap, subst, Bool, true, false, Option, none, some, List, [], ◌∷◌, ◌++◌,
  if_cases,
}
use clusterkit.Child.{
  Process, Event, registers, signals, asked, settles, times_out, finish, next_callback, handled,
  entered, handle_shutdown, react, alive, step, run,
}

-- What the first request for a shutdown is.
abbrev pub first_request : List Event → Option String
first_request [] = none
first_request (signals s ∷ es) = some s
first_request (asked acked ∷ es) = some "IPC"
first_request (e ∷ es) = first_request es

-- A shutdown on the signal `s` has begun.
abbrev Began : String → Process → Type 0
Began s p = (p.local_shutdown_in_progress ≡ true) × (p.signal ≡ s)

next-Began : (s : String) (cs : List ℕ) (p : Process) → Began s p → Began s (next_callback cs p)
unfolding next_callback finish
next-Began s [] p h = if_cases (Began s) p.shutdown_timed_out _ _ (λ _. h) (λ _. h)
next-Began s (c ∷ cs) p h = h

handle-Began : (s t : String) (p : Process) → Began s p → Began s (handle_shutdown t p)
unfolding handle_shutdown handled
handle-Began s t p h = subst (λ (b : Bool). Began s (handled b t p)) (sym h.0) h

react-Began : (s : String) (e : Event) (p : Process) → Began s p → Began s (react e p)
unfolding react
react-Began s (registers c) p h = h
react-Began s (signals t) p h = handle-Began s t p h
react-Began s (asked true) p h = handle-Began s "IPC" (record p { acks = suc p.acks }) h
react-Began s (asked false) p h = handle-Began s "IPC" p h
react-Began s settles p h =
    if_cases (Began s) p.awaited _ _ (λ _. next-Began s p.waiting p h) (λ _. h)
react-Began s times_out p h = if_cases (Began s) p.exit_timer _ _ (λ _. h) (λ _. h)

run-Began : (s : String) (es : List Event) (p : Process) → Began s p → Began s (run es p)
unfolding run step alive
run-Began s [] p h = h
run-Began s (e ∷ es) p h = run-Began s es (alive p.exit_code e p) (go p.exit_code)
  where
    go : (o : Option ℕ) → Began s (alive o e p)
    go none = react-Began s e p h
    go (some code) = h

-- No shutdown has begun.
pub record IsServing (p : Process) : Type 0 where
  pub idle : p.local_shutdown_in_progress ≡ false
  pub unawaited : p.awaited ≡ false
  pub no_timer : p.exit_timer ≡ false
  pub running : p.exit_code ≡ none

begun : (s : String) (p : Process) → IsServing p → Began s (handle_shutdown s p)
unfolding handle_shutdown handled
begun s p v =
    subst (λ (b : Bool). Began s (handled b s p)) (sym v.idle)
      (next-Began s p.waiting (entered s p) (refl, refl))

-- What the process does with one event more.
steps_on :
    (e : Event) (es : List Event) (p : Process) → IsServing p → run (e ∷ es) p ≡ run es (react e p)
unfolding run step alive
steps_on e es p v = ap (λ (o : Option ℕ). run es (alive o e p)) v.running

-- A process that exits with code 0 has done so on the signal `o`.
abbrev pub ExitsOn : Option String → Process → Type 0
ExitsOn o p = p.exit_code ≡ some 0 → some p.signal ≡ o

served :
    (e : Event) (es : List Event) (p : Process) (o : Option String)
    → IsServing p
    → ExitsOn o (run es (react e p))
    → ExitsOn o (run (e ∷ es) p)
served e es p o v h = subst (ExitsOn o) (sym (steps_on e es p v)) h

pub run-first_request :
    (es : List Event) (p : Process) → IsServing p → ExitsOn (first_request es) (run es p)
unfolding react
run-first_request [] p v = λ h. absurd (unfold run in cc (h, v.running))
run-first_request (registers c ∷ es) p v = served (registers c) es p (first_request es) v (
    run-first_request es (record p { waiting = p.waiting ++ c ∷ [] })
      (record {
        idle = v.idle;
        unawaited = v.unawaited;
        no_timer = v.no_timer;
        running = v.running;
      }))
run-first_request (signals s ∷ es) p v =
    served (signals s) es p (some s) v
      (λ _. ap some (run-Began s es (handle_shutdown s p) (begun s p v)).1)
run-first_request (asked true ∷ es) p v =
    let q : Process = record p { acks = suc p.acks } in
    served (asked true) es p (some "IPC") v (λ _.
      ap some
        (run-Began "IPC" es (handle_shutdown "IPC" q) (
          begun "IPC" q (record {
            idle = v.idle;
            unawaited = v.unawaited;
            no_timer = v.no_timer;
            running = v.running;
          }))).1)
run-first_request (asked false ∷ es) p v =
    served (asked false) es p (some "IPC") v
      (λ _. ap some (run-Began "IPC" es (handle_shutdown "IPC" p) (begun "IPC" p v)).1)
run-first_request (settles ∷ es) p v = served settles es p (first_request es) v (
    if_cases (λ (q : Process). ExitsOn (first_request es) (run es q)) p.awaited _ _
      (λ e. absurd (cc (e, v.unawaited))) (λ _. run-first_request es p v))
run-first_request (times_out ∷ es) p v = served times_out es p (first_request es) v (
    if_cases (λ (q : Process). ExitsOn (first_request es) (run es q)) p.exit_timer _ _
      (λ e. absurd (cc (e, v.no_timer))) (λ _. run-first_request es p v))
