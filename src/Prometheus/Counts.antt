-- ===== src/Prometheus/Counts.antt =====
-- packages/plugin-prometheus/src/index.ts: the metrics against the history of the events.
use clusterkit.Common.{
  ℕ, suc, ◌≡◌, refl, sym, ap, ◌∙◌, subst, Bool, true, false, Option, none, some, List, [], ◌∷◌,
  if◌then◌else◌, ◌==◌, if_cases, lookup, lookup-insert, lookup-remove,
}
use clusterkit.Config.{RecycleReason}
use clusterkit.Prometheus.{
  Metrics, Report, Event, online, exit, crash, restart, tripped, health, recycle, wedged_worker,
  recovered, same_reason, increased, sync_active_workers, clear_worker_health, on, receive, install,
}
use clusterkit.Prometheus.History.{
  after, count, is_crash, is_restart, is_trip, is_recycle, is_wedged, last_report, last_recovery,
  last_active, time_of, report_of, thousandths,
}

-- The metrics are what the history says.
pub record Shows (n : ℕ) (es : List Event) (m : Metrics) : Type 0 where
  pub active : m.active_workers ≡ last_active n es
  pub crashes : m.worker_crashes ≡ count is_crash es
  pub restarts : m.worker_restarts ≡ count is_restart es
  pub trips : m.circuit_breaker_trips ≡ count is_trip es
  pub wedged : m.wedged_kills ≡ count is_wedged es
  pub recycles : (r : RecycleReason) → m.worker_recycles r ≡ count (is_recycle r) es
  pub recovery : m.recovery_duration_seconds ≡ thousandths (last_recovery es)
  pub reports : (k : ℕ) → lookup k m.last_reports ≡ time_of (last_report k es)
  pub samples : (k : ℕ) → lookup k m.worker_health ≡ report_of (last_report k es)

abbrev Stands : ℕ → List Event → Metrics → Type 0
Stands n es m = (m.installed ≡ true) × Shows n es m

synced :
    (active : ℕ) (m : Metrics)
    → m.installed ≡ true
    → sync_active_workers active m ≡ record m { active_workers = active }
unfolding sync_active_workers
synced active m h =
    if_cases (λ (r : Metrics). r ≡ record m { active_workers = active }) m.installed _ _ (λ _. refl)
      (λ e. absurd (cc (e, h)))

-- A function of a conditional.
pushed {ℓ κ} :
    {A : Type ℓ} {B : Type κ} (f : A → B) (b : Bool) (x y : A)
    → (if b then f x else f y) ≡ f (if b then x else y)
pushed f true x y = refl
pushed f false x y = refl

exited :
    (n id active : ℕ) (es : List Event) (m : Metrics)
    → Stands n es m
    → Stands n (exit id active ∷ es) (clear_worker_health id (record m { active_workers = active }))
unfolding clear_worker_health count last_report last_recovery last_active
exited n id active es m (i, s) = (
  i,
  record {
    active = refl;
    crashes = s.crashes;
    restarts = s.restarts;
    trips = s.trips;
    wedged = s.wedged;
    recycles = s.recycles;
    recovery = s.recovery;
    reports = λ k.
        lookup-remove k id m.last_reports
        ∙ (ap (λ (o : Option ℕ). if id == k then none else o) (s.reports k)
            ∙ pushed time_of (id == k) none (last_report k es));
    samples = λ k.
        lookup-remove k id m.worker_health
        ∙ (ap (λ (o : Option Report). if id == k then none else o) (s.samples k)
            ∙ pushed report_of (id == k) none (last_report k es));
  },
)

on-Stands :
    (n : ℕ) (e : Event) (es : List Event) (m : Metrics) → Stands n es m → Stands n (e ∷ es) (on e m)
unfolding on count last_report last_recovery last_active increased
on-Stands n (online active) es m (i, s) =
    subst (Stands n (online active ∷ es)) (sym (synced active m i)) (
      i,
      record {
        active = refl;
        crashes = s.crashes;
        restarts = s.restarts;
        trips = s.trips;
        wedged = s.wedged;
        recycles = s.recycles;
        recovery = s.recovery;
        reports = s.reports;
        samples = s.samples;
      },
    )
on-Stands n (exit id active) es m (i, s) =
    subst (λ (r : Metrics). Stands n (exit id active ∷ es) (clear_worker_health id r))
      (sym (synced active m i)) (exited n id active es m (i, s))
on-Stands n crash es m (i, s) = (
  i,
  record {
    active = s.active;
    crashes = ap suc s.crashes;
    restarts = s.restarts;
    trips = s.trips;
    wedged = s.wedged;
    recycles = s.recycles;
    recovery = s.recovery;
    reports = s.reports;
    samples = s.samples;
  },
)
on-Stands n restart es m (i, s) = (
  i,
  record {
    active = s.active;
    crashes = s.crashes;
    restarts = ap suc s.restarts;
    trips = s.trips;
    wedged = s.wedged;
    recycles = s.recycles;
    recovery = s.recovery;
    reports = s.reports;
    samples = s.samples;
  },
)
on-Stands n tripped es m (i, s) = (
  i,
  record {
    active = s.active;
    crashes = s.crashes;
    restarts = s.restarts;
    trips = ap suc s.trips;
    wedged = s.wedged;
    recycles = s.recycles;
    recovery = s.recovery;
    reports = s.reports;
    samples = s.samples;
  },
)
on-Stands n (health now id report) es m (i, s) = (
  i,
  record {
    active = s.active;
    crashes = s.crashes;
    restarts = s.restarts;
    trips = s.trips;
    wedged = s.wedged;
    recycles = s.recycles;
    recovery = s.recovery;
    reports = λ k.
        lookup-insert k id now m.last_reports
        ∙ (ap (λ (o : Option ℕ). if id == k then some now else o) (s.reports k)
            ∙ pushed time_of (id == k) (some (now, report)) (last_report k es));
    samples = λ k.
        lookup-insert k id report m.worker_health
        ∙ (ap (λ (o : Option Report). if id == k then some report else o) (s.samples k)
            ∙ pushed report_of (id == k) (some (now, report)) (last_report k es));
  },
)
on-Stands n (recycle reason) es m (i, s) = (
  i,
  record {
    active = s.active;
    crashes = s.crashes;
    restarts = s.restarts;
    trips = s.trips;
    wedged = s.wedged;
    recycles = λ r. ap (λ (c : ℕ). if same_reason reason r then suc c else c) (s.recycles r);
    recovery = s.recovery;
    reports = s.reports;
    samples = s.samples;
  },
)
on-Stands n wedged_worker es m (i, s) = (
  i,
  record {
    active = s.active;
    crashes = s.crashes;
    restarts = s.restarts;
    trips = s.trips;
    wedged = ap suc s.wedged;
    recycles = s.recycles;
    recovery = s.recovery;
    reports = s.reports;
    samples = s.samples;
  },
)
on-Stands n (recovered ms) es m (i, s) = (
  i,
  record {
    active = s.active;
    crashes = s.crashes;
    restarts = s.restarts;
    trips = s.trips;
    wedged = s.wedged;
    recycles = s.recycles;
    recovery = refl;
    reports = s.reports;
    samples = s.samples;
  },
)

after-Stands : (active : ℕ) (es : List Event) → Stands active es (after active es)
unfolding after install receive sync_active_workers
after-Stands active [] =
    unfold count last_report last_recovery last_active lookup in
    (
      refl,
      record {
        active = refl;
        crashes = refl;
        restarts = refl;
        trips = refl;
        wedged = refl;
        recycles = λ r. refl;
        recovery = refl;
        reports = λ r. refl;
        samples = λ r. refl;
      },
    )
after-Stands active (e ∷ es) =
    let m = after active es in
    let h = after-Stands active es in
    if_cases (Stands active (e ∷ es)) m.installed _ _ (λ _. on-Stands active e es m h)
      (λ b. absurd (cc (b, h.0)))

-- After any history of events, the metric objects of the primary's registry, from which the merged
-- metrics are collected, stand as the history says (what a scrape gets can be older by the cache's
-- time to live): the counters are the numbers of the events of their kinds (recycles by their
-- reason); a worker's memory, heap and lag, and the time from which its heartbeat's age counts, are
-- those of its last report since it last exited, and absent if there is none; the gauge of the
-- active workers has the last number that was read, and that of the recovery the last degradation's
-- milliseconds as seconds. The collected ages themselves are not covered.
pub after-Shows : (active : ℕ) (es : List Event) → Shows active es (after active es)
after-Shows active es = (after-Stands active es).1
