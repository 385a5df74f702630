-- ===== src/Prometheus.antt =====
-- packages/plugin-prometheus/src/index.ts: the metrics of the primary, its listeners, the cache of
-- the merged metrics and the HTTP endpoint. What prom-client renders and what `getMetrics` and
-- `getFleetHealth` of the orchestrator return stands in the events.
pub mod History
pub mod Counts
pub mod Cache
pub mod Cached
use Prim.Native.String.{String}
use text.Mathlib.Text.{◌==◌ as str_eq}
use clusterkit.Common.{
  ℕ, suc, ◌+◌, ◌-◌, Bool, true, false, not, ◌&&◌, ◌||◌, Option, none, some, List, [], ◌∷◌, ◌++◌,
  if◌then◌else◌, ltb, ◌==◌, insert, remove,
}
use clusterkit.Config.{RecycleReason, max_age, rss as by_rss, wedged as by_wedge, lag}
use clusterkit.Validation.Numbers.{Num, finite}
use clusterkit.Texts.{append, is_empty}

-- `getFleetHealth()`.
pub record FleetHealth : Type 0 where
  pub target : ℕ
  pub active : ℕ
  pub quarantined : ℕ
  pub tripped : Bool

-- A report's numbers.
pub record Report : Type 0 where
  pub rss : ℕ
  pub heap_used : ℕ
  pub event_loop_lag_ms : ℕ

-- The gauges and counters; `worker_recycles` has a counter for each reason. The three gauges of a
-- report are set and removed together, and stand in one map.
pub record Metrics : Type 0 where
  pub installed : Bool  -- `primaryOrchestrator` is set
  pub active_workers : ℕ
  pub worker_restarts : ℕ
  pub worker_crashes : ℕ
  pub circuit_breaker_trips : ℕ
  pub last_reports : List (ℕ × ℕ)
  pub worker_health : List (ℕ × Report)
  pub heartbeat_age : List (ℕ × Num)
  pub worker_recycles : RecycleReason → ℕ
  pub wedged_kills : ℕ
  pub recovery_duration_seconds : Option Num

-- The listeners' events, with what the listener reads.
pub data Event : Type 0 where
  online : ℕ → Event  -- `getMetrics().activeWorkers`
  exit : ℕ → ℕ → Event  -- the worker, and `activeWorkers`
  crash restart tripped : Event
  health : ℕ → ℕ → Report → Event  -- the time, the worker and its report
  recycle : RecycleReason → Event
  wedged_worker : Event
  recovered : ℕ → Event

abbrev pub no_metrics : Metrics
no_metrics = record {
  installed = false;
  active_workers = 0;
  worker_restarts = 0;
  worker_crashes = 0;
  circuit_breaker_trips = 0;
  last_reports = [];
  worker_health = [];
  heartbeat_age = [];
  worker_recycles = λ reason. 0;
  wedged_kills = 0;
  recovery_duration_seconds = none;
}

unfoldable pub same_reason : RecycleReason → RecycleReason → Bool
same_reason max_age max_age = true
same_reason by_rss by_rss = true
same_reason by_wedge by_wedge = true
same_reason lag lag = true
same_reason a b = false

-- `workerRecycles.inc({ reason })`.
unfoldable pub increased : RecycleReason → (RecycleReason → ℕ) → RecycleReason → ℕ
unfolding same_reason
increased reason counts r = if same_reason reason r then suc (counts r) else counts r

-- `syncActiveWorkers`.
unfoldable pub sync_active_workers : ℕ → Metrics → Metrics
sync_active_workers active m = if m.installed then record m { active_workers = active } else m

unfoldable pub clear_worker_health : ℕ → Metrics → Metrics
unfolding remove
clear_worker_health id m = record m {
  last_reports = remove id m.last_reports;
  worker_health = remove id m.worker_health;
  heartbeat_age = remove id m.heartbeat_age;
}

-- `ms / 1000`.
abbrev pub seconds : ℕ → Num
seconds ms = finite false ms 999

-- The listeners.
unfoldable pub on : Event → Metrics → Metrics
unfolding sync_active_workers clear_worker_health increased insert
on (online active) m = sync_active_workers active m
on (exit id active) m = clear_worker_health id (sync_active_workers active m)
on crash m = record m { worker_crashes = suc m.worker_crashes }
on restart m = record m { worker_restarts = suc m.worker_restarts }
on tripped m = record m { circuit_breaker_trips = suc m.circuit_breaker_trips }
on (health now id report) m = record m {
  last_reports = insert id now m.last_reports;
  worker_health = insert id report m.worker_health;
}
on (recycle reason) m = record m { worker_recycles = increased reason m.worker_recycles }
on wedged_worker m = record m { wedged_kills = suc m.wedged_kills }
on (recovered ms) m = record m { recovery_duration_seconds = some (seconds ms) }

-- Only the installed plugin has listeners.
unfoldable pub receive : Event → Metrics → Metrics
unfolding on
receive e m = if m.installed then on e m else m

-- `collect` of `heartbeatAge`; the clock does not run backwards.
unfoldable pub ages : ℕ → List (ℕ × ℕ) → List (ℕ × Num) → List (ℕ × Num)
unfolding insert
ages now [] samples = samples
ages now ((id, ts) ∷ reports) samples = ages now reports (insert id (seconds (now - ts)) samples)

unfoldable pub collect_ages : ℕ → Metrics → Metrics
unfolding ages
collect_ages now m = record m { heartbeat_age = ages now m.last_reports m.heartbeat_age }

-- `install` in the primary, and `uninstall`.
unfoldable pub install : ℕ → Metrics → Metrics
unfolding sync_active_workers
install active m = sync_active_workers active (record m { installed = true })

unfoldable pub uninstall : ℕ → Metrics → Metrics
unfolding sync_active_workers
uninstall active m = record (sync_active_workers active m) { installed = false; last_reports = [] }

-- `/healthz`.
unfoldable pub is_degraded : Option FleetHealth → Bool
is_degraded none = true
is_degraded (some f) = ltb f.active f.target || (ltb 0 f.quarantined || f.tripped)

-- What `requestHandler` answers; merged metrics that throw, before any header is sent, give 500.
pub data Response : Type 0 where
  not_found : Response
  metrics : String → Response
  healthy degraded : Response
  failed : Response

unfoldable pub metrics_response : Option String → Response
metrics_response none = failed
metrics_response (some body) = metrics body

unfoldable pub request_handler : String → String → Option String → Option FleetHealth → Response
unfolding metrics_response is_degraded
request_handler method pathname merged fleet =
    if not (str_eq method "GET")
    then not_found
    else if str_eq pathname "/metrics"
    then metrics_response merged
    else if str_eq pathname "/healthz"
    then if is_degraded fleet then degraded else healthy
    else not_found

unfoldable pub status_code : Response → ℕ
status_code not_found = 404
status_code (metrics body) = 200
status_code healthy = 200
status_code degraded = 503
status_code failed = 500
