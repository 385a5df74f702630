-- ===== src/Prometheus/History.antt =====
-- packages/plugin-prometheus/src/index.ts: what a history of events says of each metric.
use clusterkit.Common.{
  ℕ, suc, Bool, true, false, Option, none, some, List, [], ◌∷◌, if◌then◌else◌, ◌==◌,
}
use clusterkit.Config.{RecycleReason}
use clusterkit.Validation.Numbers.{Num, finite}
use clusterkit.Prometheus.{
  Metrics, Report, Event, online, exit, crash, restart, tripped, health, recycle, wedged_worker,
  recovered, no_metrics, same_reason, receive, install,
}

-- The history is a list of events, the newest first.
unfoldable pub after : ℕ → List Event → Metrics
unfolding receive install
after active [] = install active no_metrics
after active (e ∷ es) = receive e (after active es)

unfoldable pub count : (Event → Bool) → List Event → ℕ
count p [] = 0
count p (e ∷ es) = let n = count p es in if p e then suc n else n

abbrev pub is_crash : Event → Bool
is_crash crash = true
is_crash e = false

abbrev pub is_restart : Event → Bool
is_restart restart = true
is_restart e = false

abbrev pub is_trip : Event → Bool
is_trip tripped = true
is_trip e = false

abbrev pub is_recycle : RecycleReason → Event → Bool
is_recycle r (recycle reason) = same_reason reason r
is_recycle r e = false

abbrev pub is_wedged : Event → Bool
is_wedged wedged_worker = true
is_wedged e = false

-- A worker's last report since it last exited, with its time.
unfoldable pub last_report : ℕ → List Event → Option (ℕ × Report)
last_report k [] = none
last_report k (health now id report ∷ es) =
    let older = last_report k es in if id == k then some (now, report) else older
last_report k (exit id active ∷ es) =
    let older = last_report k es in if id == k then none else older
last_report k (e ∷ es) = last_report k es

unfoldable pub last_recovery : List Event → Option ℕ
last_recovery [] = none
last_recovery (recovered ms ∷ es) = some ms
last_recovery (e ∷ es) = last_recovery es

-- So many thousandths.
abbrev pub thousandths : Option ℕ → Option Num
thousandths none = none
thousandths (some n) = some (finite false n 999)

-- The number of active workers at the last event that reads it.
unfoldable pub last_active : ℕ → List Event → ℕ
last_active n [] = n
last_active n (online active ∷ es) = active
last_active n (exit id active ∷ es) = active
last_active n (e ∷ es) = last_active n es

abbrev pub time_of : Option (ℕ × Report) → Option ℕ
time_of none = none
time_of (some (now, report)) = some now

abbrev pub report_of : Option (ℕ × Report) → Option Report
report_of none = none
report_of (some (now, report)) = some report
