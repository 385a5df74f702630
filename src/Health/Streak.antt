-- ===== src/Health/Streak.antt =====
-- packages/worker-manager/src/health-monitor.ts: the lag policy against the longest run of slow
-- beats.
use clusterkit.Common.{
  ℕ, suc, ◌≤◌, ◌<◌, max, ◌≡◌, refl, sym, ap, ◌∙◌, Bool, true, false, none, some, List, [], ◌∷◌,
  ◌++◌, if◌then◌else◌, ltb, ltb→lt, leb, has, add, lookup, has-add, lookup-insert, lookup-remove,
  ==_refl, insert, remove, Bool-cases, inl, inr, arith,
}
use clusterkit.Config.{ResolvedConfig, lag}
use clusterkit.Health.{recycled_for_lag, HealthMonitor, Request, recycle, check_lag_limit, beats_of}

-- The longest run of consecutive values above the threshold, where the last `current` were.
pub longest_run : ℕ → ℕ → List ℕ → ℕ
longest_run threshold current [] = current
longest_run threshold current (x ∷ xs) =
    let longer = longest_run threshold (suc current) xs in
    let restarted = max current (longest_run threshold 0 xs) in
    if ltb threshold x then longer else restarted

-- The beats of one worker, in order.
unfoldable pub beats : ResolvedConfig ℕ → ℕ → List ℕ → HealthMonitor → HealthMonitor × List Request
beats cfg id [] m = (m, [])
beats cfg id (x ∷ xs) m =
    let (m', q) = check_lag_limit cfg false id x m in
    let (m'', q') = beats cfg id xs m' in (m'', q ++ q')

ltb→leb : (t : ℕ) → 0 < t → leb t 0 ≡ false
ltb→leb t h = ground arith

longest_run-ge : (t c : ℕ) (xs : List ℕ) → c ≤ longest_run t c xs
unfolding longest_run
longest_run-ge t c [] = omega arith
longest_run-ge t c (x ∷ xs) = ground (arith, longest_run-ge t (suc c) xs)

beats-recycled :
    (cfg : ResolvedConfig ℕ) (id : ℕ) (xs : List ℕ) (m : HealthMonitor)
    → has id m.lag_recycled ≡ true
    → beats cfg id xs m ≡ (m, [])
unfolding beats check_lag_limit
beats-recycled cfg id [] m h = refl
beats-recycled cfg id (x ∷ xs) m h = rw (h, beats-recycled cfg id xs m h) refl

-- The one request, or none.
abbrev pub asked_if : ℕ → Bool → List Request
asked_if id true = recycle id lag ∷ []
asked_if id false = []

leb-max : (n c r : ℕ) → c < n → leb n (max c r) ≡ leb n r
leb-max n c r h = ground (arith, h)

leb-above : (n c r : ℕ) → ltb c n ≡ false → c ≤ r → leb n r ≡ true
leb-above n c r h k = ground (arith, h, k)

leb-below : (n c : ℕ) → c < n → leb n c ≡ false
leb-below n c h = ground (arith, h)

module _ (cfg : ResolvedConfig ℕ) (id : ℕ) (no_spikes : cfg.health.lag_spike_ms ≡ 0)
    (enabled : 0 < cfg.health.max_event_loop_lag_ms)
    (at_least_one : 1 ≤ cfg.health.lag_recycle_beats) where
  looked_up : (n : ℕ) (b : List (ℕ × ℕ)) → lookup id (insert id n b) ≡ some n
  looked_up n b = rw (lookup-insert id id n b, ==_refl id) refl

  gone : (b : List (ℕ × ℕ)) → lookup id (remove id b) ≡ none
  gone b = rw (lookup-remove id id b, ==_refl id) refl

  added : (s : List ℕ) → has id (add id s) ≡ true
  added s = rw (has-add id id s, ==_refl id) refl

  -- The policy's decision where nothing else decides.
  check_lag_limit_lem :
      (x : ℕ) (m : HealthMonitor)
      → has id m.lag_recycled ≡ false
      → let n = suc (beats_of (lookup id m.lag_beats)) in
        check_lag_limit cfg false id x m ≡ (
          if ltb cfg.health.max_event_loop_lag_ms x
          then (if ltb n cfg.health.lag_recycle_beats
              then (record m { lag_beats = insert id n m.lag_beats }, [])
              else recycled_for_lag id m)
          else (record m { lag_beats = remove id m.lag_beats }, []))
  unfolding check_lag_limit
  check_lag_limit_lem x m fresh =
      rw (fresh, no_spikes) (rw (ltb→leb cfg.health.max_event_loop_lag_ms enabled) refl)

  -- The claim for a worker with some slow beats behind it.
  abbrev Decided : List ℕ → HealthMonitor → Type 0
  Decided xs m =
      (beats cfg id xs m).1
      ≡ asked_if id (
          leb cfg.health.lag_recycle_beats
            (longest_run cfg.health.max_event_loop_lag_ms (beats_of (lookup id m.lag_beats)) xs))

  -- One beat, by what the policy makes of it.
  Decided-cons :
      (x : ℕ) (xs : List ℕ) (m m' : HealthMonitor) (q : List Request)
      → check_lag_limit cfg false id x m ≡ (m', q)
      → q ++ (beats cfg id xs m').1
        ≡ asked_if id (
            leb cfg.health.lag_recycle_beats (
              longest_run cfg.health.max_event_loop_lag_ms
                (beats_of (lookup id m.lag_beats))
                (x ∷ xs)))
      → Decided (x ∷ xs) m
  unfolding beats
  Decided-cons x xs m m' q e h = rw e h

  beats-from :
      (xs : List ℕ) (m : HealthMonitor)
      → has id m.lag_recycled ≡ false
      → beats_of (lookup id m.lag_beats) < cfg.health.lag_recycle_beats
      → Decided xs m
  unfolding longest_run
  beats-from [] m fresh few =
      unfold beats in ap (asked_if id) (sym (leb-below _ (beats_of (lookup id m.lag_beats)) few))
  beats-from (x ∷ xs) m fresh few =
      let n = suc (beats_of (lookup id m.lag_beats)) in
      let more : HealthMonitor = record m { lag_beats = insert id n m.lag_beats } in
      let less : HealthMonitor = record m { lag_beats = remove id m.lag_beats } in
      let step = check_lag_limit_lem x m fresh in
      elim (Bool-cases (ltb cfg.health.max_event_loop_lag_ms x)) [
        | inl slow ↦ elim (Bool-cases (ltb n cfg.health.lag_recycle_beats)) [
          | inl below ↦ Decided-cons x xs m more [] (step ∙ rw (slow, below)) (
              rw slow (
                rw (looked_up n m.lag_beats) at
                  (beats-from xs more fresh (rw (looked_up n m.lag_beats) (ltb→lt n _ below)))))
          | inr reached ↦
              Decided-cons x xs m (recycled_for_lag id m).0 (recycled_for_lag id m).1
                (step ∙ rw (slow, reached))
                (rw slow (
                  ap (λ (r : HealthMonitor × List Request). (recycled_for_lag id m).1 ++ r.1)
                    (beats-recycled cfg id xs (recycled_for_lag id m).0 (added m.lag_recycled))
                  ∙ ap (asked_if id) (
                      sym (
                        leb-above _ n _ reached
                          (longest_run-ge cfg.health.max_event_loop_lag_ms n xs)))))
        ]
        | inr fast ↦ Decided-cons x xs m less [] (step ∙ rw fast) (
            rw fast (
              rw (gone m.lag_beats) at
                (beats-from xs less fresh (rw (gone m.lag_beats) (omega (arith, few))))
              ∙ ap (asked_if id) (sym (leb-max _ _ _ few))))
      ]

  -- With spikes switched off, a sequence of beats of a worker that was not recycled for lag, and of
  -- which no slow beats are recorded yet, asks for its recycling because of lag, and once, exactly
  -- if as many consecutive ones as configured exceed the threshold, and else for nothing.
  pub beats-longest_run :
      (xs : List ℕ) (m : HealthMonitor)
      → has id m.lag_recycled ≡ false
      → lookup id m.lag_beats ≡ none
      → (beats cfg id xs m).1
        ≡ asked_if id
            (leb cfg.health.lag_recycle_beats (longest_run cfg.health.max_event_loop_lag_ms 0 xs))
  beats-longest_run xs m fresh none_yet =
      rw none_yet at (beats-from xs m fresh (rw none_yet (omega (arith, at_least_one))))
