-- ===== src/Otlp.antt =====
-- packages/plugin-otlp-meter/src/index.ts: the plugin's own state: the health samples, the counters
-- that its listeners add to, and the meter provider with its latch. The exporter and the SDK are
-- outside: whether they throw or reject stands in the calls.
pub mod Latch
use Prim.Native.String.{String}
use clusterkit.Common.{
  ℕ, suc, ◌+◌, ◌-◌, Bool, true, false, not, ◌&&◌, ◌||◌, Option, none, some, List, [], ◌∷◌, map,
  if◌then◌else◌, insert, remove,
}
use clusterkit.Config.{RecycleReason}
use clusterkit.Prometheus.{same_reason}

pub record WorkerHealthSample : Type 0 where
  pub pid : ℕ
  pub rss : ℕ
  pub heap_used : ℕ
  pub event_loop_lag_ms : ℕ
  pub last_beat_at : ℕ

-- What the listeners of the primary keep; the instruments belong to the current provider.
pub record Instruments : Type 0 where
  pub worker_health : List (ℕ × WorkerHealthSample)
  pub worker_restarts : ℕ
  pub worker_crashes : ℕ
  pub circuit_breaker_trips : ℕ
  pub worker_recycles : RecycleReason → ℕ
  pub wedged_kills : ℕ
  pub recovery_duration_ms : Option ℕ

pub data Event : Type 0 where
  crash restart tripped wedged_worker : Event
  health : ℕ → WorkerHealthSample → Event
  exit : ℕ → Event
  recycle : RecycleReason → Event
  recovered : ℕ → Event

unfoldable pub on : Event → Instruments → Instruments
unfolding insert remove same_reason
on crash i = record i { worker_crashes = suc i.worker_crashes }
on restart i = record i { worker_restarts = suc i.worker_restarts }
on tripped i = record i { circuit_breaker_trips = suc i.circuit_breaker_trips }
on wedged_worker i = record i { wedged_kills = suc i.wedged_kills }
on (health id sample) i = record i { worker_health = insert id sample i.worker_health }
on (exit id) i = record i { worker_health = remove id i.worker_health }
on (recycle reason) i = record i {
  worker_recycles = λ r. let n = i.worker_recycles r in if same_reason reason r then suc n else n;
}
on (recovered ms) i = record i { recovery_duration_ms = some ms }

-- `observeWorkerHealth`: the observations, each with its worker and process.
unfoldable pub observe_worker_health :
    (WorkerHealthSample → ℕ) → List (ℕ × WorkerHealthSample) → List (ℕ × ℕ × ℕ)
observe_worker_health pick [] = []
observe_worker_health pick ((id, sample) ∷ samples) =
    (pick sample, id, sample.pid) ∷ observe_worker_health pick samples

-- `Math.max(0, (now - s.lastBeatAt) / 1000)`, in milliseconds.
unfoldable pub heartbeat_age : ℕ → WorkerHealthSample → ℕ
heartbeat_age now s = now - s.last_beat_at

-- A provider is a number; `ended` are those whose `shutdown` has been called, the newest first.
pub record Provider : Type 0 where
  pub meter_provider : Option ℕ
  pub is_shutdown : Bool
  pub created : ℕ
  pub ended : List ℕ
  pub plugin_set_global_provider : Bool
  pub global_registered : Bool  -- the API's slot for the global provider is taken

-- `shutdownProvider` up to its `await`, and how that goes on; false where the SDK rejects.
unfoldable pub shut_down_by : Bool → Option ℕ → Provider → Provider
shut_down_by true m p = p
shut_down_by false none p = p
shut_down_by false (some n) p = record p { is_shutdown = true; ended = n ∷ p.ended }

unfoldable pub begin_shutdown_provider : Provider → Provider
unfolding shut_down_by
begin_shutdown_provider p = shut_down_by p.is_shutdown p.meter_provider p

unfoldable pub end_shutdown_provider : Provider → Provider
end_shutdown_provider p = record p { meter_provider = none }

-- The call as a whole; an early return does not reach the end, nor does a rejection.
unfoldable pub is_some : Option ℕ → Bool
is_some none = false
is_some (some n) = true

unfoldable pub shutdown_provider : Bool → Provider → Provider
unfolding begin_shutdown_provider end_shutdown_provider is_some
shutdown_provider resolves p =
    let begun = begin_shutdown_provider p in
    if (not p.is_shutdown && is_some p.meter_provider) && resolves
    then end_shutdown_provider begun
    else begun

-- `install` with an exporter that can be created. The old provider is shut down first, and if that
-- rejects so does the installation; the new one becomes the global one if there is none.
unfoldable pub renewed : Provider → Provider
renewed old =
    let fresh : Provider = record old {
      is_shutdown = false;
      meter_provider = some old.created;
      created = suc old.created;
    } in
    if old.global_registered
    then fresh
    else record fresh { plugin_set_global_provider = true; global_registered = true }

unfoldable pub install : Bool → Provider → Provider
unfolding shutdown_provider is_some renewed
install resolves p =
    if (not p.is_shutdown && is_some p.meter_provider) && not resolves
    then shutdown_provider false p
    else renewed (shutdown_provider true p)

-- `uninstall`: the global slot is released if the plugin took it.
unfoldable pub uninstall : Bool → Provider → Provider
unfolding shutdown_provider
uninstall resolves p = shutdown_provider resolves (
    if p.plugin_set_global_provider
    then record p { plugin_set_global_provider = false; global_registered = false }
    else p)

-- The calls, with what the SDK's shutdown does; the application may take or leave the global slot.
pub data Call : Type 0 where
  installs uninstalls shuts_down : Bool → Call
  app_registers : Bool → Call

unfoldable pub step : Call → Provider → Provider
unfolding install uninstall shutdown_provider
step (installs resolves) p = install resolves p
step (uninstalls resolves) p = uninstall resolves p
step (shuts_down resolves) p = shutdown_provider resolves p
step (app_registers b) p = record p { global_registered = b }

unfoldable pub run : List Call → Provider → Provider
unfolding step
run [] p = p
run (c ∷ cs) p = run cs (step c p)

abbrev pub no_provider : Provider
no_provider = record {
  meter_provider = none;
  is_shutdown = false;
  created = 0;
  ended = [];
  plugin_set_global_provider = false;
  global_registered = false;
}
