-- ===== src/Health.antt =====
-- packages/worker-manager/src/health-monitor.ts, the primary's side: the registry of reports and
-- the policies on memory, event-loop lag and silence. What the monitor asks of the orchestrator
-- through its dependencies is the list of requests that each call returns, in order.
pub mod Streak
pub mod Reporting
pub mod OneShot
use Prim.Native.String.{String, ◌++◌ as join_text}
use text.Mathlib.Text.{◌==◌ as str_eq}
use clusterkit.Common.{
  ℕ, suc, ◌+◌, ◌-◌, ◌*◌, Bool, true, false, ◌||◌, ◌&&◌, Option, none, some, List, [], ◌∷◌, ◌++◌,
  if◌then◌else◌, ltb, leb, ◌==◌, has, add, delete, lookup, insert, remove,
}
use clusterkit.Config.{ResolvedConfig, WorkerHealthReport, RecycleReason, rss, wedged, lag}

-- An IPC message: no object (or an array), or an object with a `type` and the three fields of a
-- report where they are numbers.
pub data Message : Type 0 where
  not_an_object : Message
  object : Option String → Option ℕ → Option ℕ → Option ℕ → Message

-- types.ts, `isTypedMessage`.
unfoldable pub is_typed_message : Message → String → Bool
is_typed_message not_an_object expected = false
is_typed_message (object none a b c) expected = false
is_typed_message (object (some t) a b c) expected = str_eq t expected

pub data Request : Type 0 where
  report : WorkerHealthReport → Request
  wedge : ℕ → ℕ → Request
  recycle : ℕ → RecycleReason → Request

pub record Entry : Type 0 where
  pub last_report : ℕ
  pub latest : WorkerHealthReport

pub record HealthMonitor : Type 0 where
  pub registry : List (ℕ × Entry)
  pub rss_recycled : List ℕ
  pub lag_recycled : List ℕ
  pub lag_beats : List (ℕ × ℕ)
  pub exited : List ℕ
  pub watching : Bool  -- wedgedTimer is set

unfoldable pub start_monitor : HealthMonitor
start_monitor = record {
  registry = [];
  rss_recycled = [];
  lag_recycled = [];
  lag_beats = [];
  exited = [];
  watching = false;
}

-- `checkRssLimit`.
unfoldable pub check_rss_limit :
    ResolvedConfig ℕ → Bool → ℕ → ℕ → HealthMonitor → HealthMonitor × List Request
check_rss_limit cfg shutting_down id bytes m =
    let limit_mb = cfg.workers.max_rss_mb in
    if leb limit_mb 0 || shutting_down
    then (m, [])
    else if has id m.rss_recycled
    then (m, [])
    else if leb bytes (limit_mb * 1024 * 1024)
    then (m, [])
    else (record m { rss_recycled = add id m.rss_recycled }, recycle id rss ∷ [])

abbrev pub beats_of : Option ℕ → ℕ
beats_of none = 0
beats_of (some n) = n

abbrev pub recycled_for_lag : ℕ → HealthMonitor → HealthMonitor × List Request
recycled_for_lag id m = (
  record m { lag_recycled = add id m.lag_recycled; lag_beats = remove id m.lag_beats },
  recycle id lag ∷ [],
)

-- `checkLagLimit`: a spike, then the consecutive beats above the threshold.
unfoldable pub check_lag_limit :
    ResolvedConfig ℕ → Bool → ℕ → ℕ → HealthMonitor → HealthMonitor × List Request
check_lag_limit cfg shutting_down id lag_ms m =
    let spike_ms = cfg.health.lag_spike_ms in
    let threshold_ms = cfg.health.max_event_loop_lag_ms in
    let beats = suc (beats_of (lookup id m.lag_beats)) in
    if shutting_down
    then (m, [])
    else if has id m.lag_recycled
    then (m, [])
    else if ltb 0 spike_ms && ltb spike_ms lag_ms
    then recycled_for_lag id m
    else if leb threshold_ms 0
    then (m, [])
    else if ltb threshold_ms lag_ms
    then (if ltb beats cfg.health.lag_recycle_beats
        then (record m { lag_beats = insert id beats m.lag_beats }, [])
        else recycled_for_lag id m)
    else (record m { lag_beats = remove id m.lag_beats }, [])

-- `onWorkerMessage` from where the report is complete.
unfoldable pub on_report :
    ResolvedConfig ℕ → ℕ → Bool → WorkerHealthReport → HealthMonitor → HealthMonitor × List Request
on_report cfg now shutting_down r m =
    let id = r.worker_id in
    let seen : HealthMonitor = record m {
      registry = insert id (record { last_report = now; latest = r }) m.registry;
    } in
    let (m', q) = check_rss_limit cfg shutting_down id r.rss seen in
    let (m'', q') = check_lag_limit cfg shutting_down id r.event_loop_lag_ms m' in
    (m'', report r ∷ q ++ q')

-- The fields of a message that are numbers.
complete : ℕ → Message → Option WorkerHealthReport
complete id (object t (some a) (some b) (some c)) =
    some (record { worker_id = id; rss = a; heap_used = b; event_loop_lag_ms = c })
complete id _ = none

consider :
    ResolvedConfig ℕ
    → ℕ
    → Bool
    → Option WorkerHealthReport
    → HealthMonitor
    → HealthMonitor × List Request
consider cfg now shutting_down none m = (m, [])
consider cfg now shutting_down (some r) m = on_report cfg now shutting_down r m

unfoldable pub on_worker_message :
    ResolvedConfig ℕ → ℕ → Bool → ℕ → Message → HealthMonitor → HealthMonitor × List Request
unfolding complete consider
on_worker_message cfg now shutting_down id msg m =
    if is_typed_message msg (join_text cfg.shutdown.message_prefix ":hb")
    then (if has id m.exited then (m, []) else consider cfg now shutting_down (complete id msg) m)
    else (m, [])

-- `startWedgedWatch`.
unfoldable pub start_wedged_watch : ResolvedConfig ℕ → HealthMonitor → HealthMonitor
start_wedged_watch cfg m =
    if leb cfg.health.wedged_timeout_ms 0 then m else record m { watching = true }

-- The loop of the watch over the registry: what stays, and what is asked for.
unfoldable pub silent_entries : ℕ → ℕ → List (ℕ × Entry) → List (ℕ × Entry) × List Request
silent_entries timeout now [] = ([], [])
silent_entries timeout now ((id, en) ∷ rest) =
    let (kept, asked) = silent_entries timeout now rest in
    let silent = now - en.last_report in
    if leb silent timeout
    then ((id, en) ∷ kept, asked)
    else (kept, wedge id silent ∷ recycle id wedged ∷ asked)

-- The watch's interval callback.
unfoldable pub wedged_watch :
    ResolvedConfig ℕ → ℕ → Bool → HealthMonitor → HealthMonitor × List Request
wedged_watch cfg now shutting_down m =
    let (kept, asked) = silent_entries cfg.health.wedged_timeout_ms now m.registry in
    if shutting_down then (m, []) else (record m { registry = kept }, asked)

unfoldable pub on_worker_exit : ℕ → HealthMonitor → HealthMonitor
on_worker_exit id m = record m {
  registry = remove id m.registry;
  rss_recycled = delete id m.rss_recycled;
  lag_recycled = delete id m.lag_recycled;
  lag_beats = remove id m.lag_beats;
  exited = add id m.exited;
}

unfoldable pub stop : HealthMonitor → HealthMonitor
stop m = record m { watching = false; registry = []; rss_recycled = []; exited = [] }
