-- ===== src/Crash/Trip.antt =====
-- packages/worker-manager/src/crash-tracker.ts: the breaker against the full history of crashes.
use clusterkit.Common.{
  Bool-cases, inl, inr, ap, ap, ℕ, ◌+◌, ◌*◌, ◌≤◌, min, max, ◌≡◌, refl, List, [], ◌∷◌, ◌++◌, ltb,
  leb, length, arith,
}
use clusterkit.Crash.{CrashTracker, new, keeps, prune, record_crash, is_tripped, count, reset}
use clusterkit.Crash.Window.{
  recent, Ascends, UpTo, Ascends-push, UpTo-push, UpTo-later, recent-push, recent-prune,
  length-limit-le, prune-Ascends, prune-UpTo, length-prune,
}

-- A call of the tracker.
pub data Call : Type 0 where
  records prunes queries counts resets : Call

-- The tracker, the time of its last call, and every crash since the last reset.
pub record Past : Type 0 where
  pub tracker : CrashTracker
  pub now : ℕ
  pub crashes : List ℕ

abbrev pub fresh : ℕ → ℕ → Past
fresh threshold window = record { tracker = new threshold window; now = 0; crashes = [] }

-- One call at `now`; the clock does not run backwards.
unfoldable pub at : ℕ → Call → Past → Past
at now records p = record {
  tracker = record_crash now p.tracker;
  now = now;
  crashes = p.crashes ++ now ∷ [];
}
at now prunes p = record { tracker = prune now p.tracker; now = now; crashes = p.crashes }
at now queries p = record { tracker = (is_tripped now p.tracker).0; now = now; crashes = p.crashes }
at now counts p = record { tracker = (count now p.tracker).0; now = now; crashes = p.crashes }
at now resets p = record { tracker = reset p.tracker; now = now; crashes = [] }

-- Each call comes with the time that has passed since the one before it.
unfoldable pub run : List (ℕ × Call) → Past → Past
run [] p = p
run ((dt, c) ∷ cs) p = run cs (at (p.now + dt) c p)

-- The array holds what decides every later query.
pub record Tracks (threshold window : ℕ) (p : Past) : Type 0 where
  pub threshold_kept : p.tracker.threshold ≡ threshold
  pub window_kept : p.tracker.window_ms ≡ window
  pub size_kept : p.tracker.max_size ≡ max (threshold * 2) 100
  pub ascends : Ascends 0 p.tracker.timestamps
  pub up_to : UpTo p.now p.tracker.timestamps
  pub agrees :
      (n : ℕ)
      → p.now ≤ n
      → min (recent p.tracker.window_ms n p.tracker.timestamps) p.tracker.max_size
        ≡ min (recent p.tracker.window_ms n p.crashes) p.tracker.max_size

module _ (threshold window : ℕ) where
  fresh-Tracks : Tracks threshold window (fresh threshold window)
  unfolding new
  fresh-Tracks = record {
    threshold_kept = refl;
    window_kept = refl;
    size_kept = refl;
    ascends = tt;
    up_to = tt;
    agrees = λ n h. refl;
  }

  -- A crash is pushed before any pruning.
  push-Tracks :
      (now : ℕ) (p : Past)
      → p.now ≤ now
      → Tracks threshold window p
      → Tracks threshold window (record {
        tracker = record p.tracker { timestamps = p.tracker.timestamps ++ now ∷ [] };
        now = now;
        crashes = p.crashes ++ now ∷ [];
      })
  push-Tracks now p h v =
      let t = p.tracker in
      let later = UpTo-later p.now now t.timestamps h v.up_to in
      record {
        threshold_kept = v.threshold_kept;
        window_kept = v.window_kept;
        size_kept = v.size_kept;
        ascends = Ascends-push 0 now t.timestamps (omega arith) later v.ascends;
        up_to = UpTo-push now t.timestamps later;
        agrees = λ n le. ground (
          arith,
          recent-push t.window_ms n now t.timestamps,
          recent-push t.window_ms n now p.crashes,
          v.agrees n,
        );
      }

  prune-Tracks :
      (now : ℕ) (p : Past)
      → p.now ≤ now
      → Tracks threshold window p
      → Tracks threshold window (at now prunes p)
  unfolding at prune
  prune-Tracks now p h v =
      let t = p.tracker in
      record {
        threshold_kept = v.threshold_kept;
        window_kept = v.window_kept;
        size_kept = v.size_kept;
        ascends = prune-Ascends (keeps t.window_ms now) 0 t.max_size t.timestamps v.ascends;
        up_to =
            prune-UpTo (keeps t.window_ms now) now t.max_size t.timestamps
              (UpTo-later p.now now t.timestamps h v.up_to);
        agrees = λ n le. omega (
          arith,
          recent-prune t.window_ms now n 0 t.max_size t.timestamps le v.ascends,
          v.agrees n (omega arith),
        );
      }

  record-Tracks :
      (now : ℕ) (p : Past)
      → p.now ≤ now
      → Tracks threshold window p
      → Tracks threshold window (at now records p)
  unfolding at record_crash
  record-Tracks now p h v =
      let pushed = push-Tracks now p h v in
      let pruned = prune-Tracks now _ (omega arith) pushed in
      elim (Bool-cases (ltb p.tracker.max_size (length (p.tracker.timestamps ++ now ∷ [])))) [
        | inl over ↦ rw over (unfold at in pruned)
        | inr fits ↦ rw fits pushed
      ]

  reset-Tracks :
      (now : ℕ) (p : Past) → Tracks threshold window p → Tracks threshold window (at now resets p)
  unfolding at reset
  reset-Tracks now p v = record {
    threshold_kept = v.threshold_kept;
    window_kept = v.window_kept;
    size_kept = v.size_kept;
    ascends = tt;
    up_to = tt;
    agrees = λ n le. refl;
  }

  at-Tracks :
      (now : ℕ) (c : Call) (p : Past)
      → p.now ≤ now
      → Tracks threshold window p
      → Tracks threshold window (at now c p)
  unfolding at is_tripped count
  at-Tracks now records p h v = record-Tracks now p h v
  at-Tracks now prunes p h v = prune-Tracks now p h v
  at-Tracks now queries p h v = prune-Tracks now p h v
  at-Tracks now counts p h v = prune-Tracks now p h v
  at-Tracks now resets p h v = reset-Tracks now p v

  run-Tracks :
      (cs : List (ℕ × Call)) (p : Past)
      → Tracks threshold window p
      → Tracks threshold window (run cs p)
  unfolding run
  run-Tracks [] p v = v
  run-Tracks ((dt, c) ∷ cs) p v =
      run-Tracks cs (at (p.now + dt) c p) (at-Tracks (p.now + dt) c p (omega arith) v)

  query_lem :
      (p : Past) (n : ℕ)
      → p.now ≤ n
      → Tracks threshold window p
      → ((is_tripped n p.tracker).1 ≡ leb threshold (recent window n p.crashes))
        × ((count n p.tracker).1 ≡ min (recent window n p.crashes) (max (threshold * 2) 100))
  unfolding is_tripped count prune
  query_lem p n h v =
      let t = p.tracker in
      let agree = v.agrees n h in
      let counted = length-prune t.window_ms n 0 t.max_size t.timestamps in
      let total = ap (λ w. recent w n p.crashes) v.window_kept in
      (
        ground (arith, agree, counted, v.threshold_kept, v.size_kept, total),
        ground (arith, agree, counted, v.size_kept, total),
      )

  -- After any history of calls from a fresh tracker, asked at any later time, the breaker is
  -- tripped exactly when the crashes since the last reset that lie in the window reach the
  -- threshold, and `count` is their number up to the array's limit.
  pub is_tripped-run :
      (cs : List (ℕ × Call)) (wait : ℕ)
      → let p = run cs (fresh threshold window) in
        let total = recent window (p.now + wait) p.crashes in
        ((is_tripped (p.now + wait) p.tracker).1 ≡ leb threshold total)
        × ((count (p.now + wait) p.tracker).1 ≡ min total (max (threshold * 2) 100))
  is_tripped-run cs wait =
      query_lem (run cs (fresh threshold window)) _ (omega arith)
        (run-Tracks cs (fresh threshold window) fresh-Tracks)

abbrev Bounded : CrashTracker → Type 0
Bounded t = length t.timestamps ≤ t.max_size

prune-Bounded : (now : ℕ) (t : CrashTracker) → Bounded (prune now t)
unfolding prune
prune-Bounded now t = length-limit-le t.max_size _

record-Bounded : (now : ℕ) (t : CrashTracker) → Bounded (record_crash now t)
unfolding record_crash
record-Bounded now t =
    ground (arith, prune-Bounded now (record t { timestamps = t.timestamps ++ now ∷ [] }))

at-Bounded : (now : ℕ) (c : Call) (p : Past) → Bounded p.tracker → Bounded (at now c p).tracker
unfolding at is_tripped count reset
at-Bounded now records p b = record-Bounded now p.tracker
at-Bounded now prunes p b = prune-Bounded now p.tracker
at-Bounded now queries p b = prune-Bounded now p.tracker
at-Bounded now counts p b = prune-Bounded now p.tracker
at-Bounded now resets p b = omega arith

run-Bounded : (cs : List (ℕ × Call)) (p : Past) → Bounded p.tracker → Bounded (run cs p).tracker
unfolding run
run-Bounded [] p b = b
run-Bounded ((dt, c) ∷ cs) p b =
    run-Bounded cs (at (p.now + dt) c p) (at-Bounded (p.now + dt) c p b)

-- The array of a tracker never outgrows its limit, the larger of 100 and twice the threshold,
-- however the calls come and however rarely it is queried.
pub run_bounded :
    (threshold window : ℕ) (cs : List (ℕ × Call))
    → length (run cs (fresh threshold window)).tracker.timestamps ≤ max (threshold * 2) 100
unfolding new
run_bounded threshold window cs =
    let size = (run-Tracks threshold window cs _ (fresh-Tracks threshold window)).size_kept in
    let start : Bounded (fresh threshold window).tracker = omega arith in
    omega (arith, size, run-Bounded cs (fresh threshold window) start)
