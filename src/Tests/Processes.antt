-- ===== src/Tests/Processes.antt =====
-- Concrete runs of plugins, a worker process, the metrics, the probe and the meter provider.
use Prim.Native.String.{String}
use clusterkit.Common.{ℕ, suc, ◌+◌, ◌≡◌, refl, true, false, none, some, List, [], ◌∷◌}
use clusterkit.Lifecycle.{Plugin, install_plugins}
use clusterkit.Lifecycle.Rollback.{Outcome, install_plugins-Outcome}
use clusterkit.Child.{
  new_process, Event, registers, signals, asked, settles, run, step, alive, react, handle_shutdown,
  handled, next_callback, finish,
}
use clusterkit.Child.Once.{shutdown-Ends, Ends}
use clusterkit.Prometheus.{Event as Metric, Report, online, exit, crash, health, recovered}
use clusterkit.Prometheus.History.{after}
use clusterkit.Prometheus.Counts.{Shows, after-Shows}
use clusterkit.Prometheus.Cache.{
  scraped, invalidated, settled, cached, merged_metrics, after as cache_after, step as cache_step,
  answered, valid_entry, join_or_collect, settle, stored, merged, clear_merged_metrics_cache,
}
use clusterkit.Texts.{is_empty}
use clusterkit.Platform.{
  Detection, run as detection_run, step as detection_step, settles as probe_settles,
}
use clusterkit.Otlp.{installs, shuts_down, no_provider, uninstall, run as provider_run}
use clusterkit.Otlp.Latch.{IsOver, uninstall_ends_all}

-- The second of three plugins fails; the state counts.
abbrev counting : String → Plugin ℕ
counting name = record {
  name = name;
  install = λ n. (suc n, none);
  uninstall = some (λ n. (n + 10, none));
}

abbrev failing : Plugin ℕ
failing = record { name = "broken"; install = λ n. (n + 100, some "no port"); uninstall = none }

abbrev three_plugins : List (Plugin ℕ)
three_plugins = counting "metrics" ∷ failing ∷ counting "watcher" ∷ []

install_plugins-Outcome_example : Outcome [] three_plugins 0 (install_plugins three_plugins 0)
install_plugins-Outcome_example = install_plugins-Outcome three_plugins 0

-- Two callbacks, a signal and the primary's message at the same time.
abbrev orderly : List Event
orderly = registers 7 ∷ registers 8 ∷ signals "SIGTERM" ∷ asked true ∷ settles ∷ settles ∷ []

abbrev asked_twice : List Event
asked_twice = registers 7 ∷ asked true ∷ signals "SIGTERM" ∷ []

asked_lem : (run asked_twice new_process).exit_code ≡ none
unfolding run step alive react handle_shutdown handled next_callback finish
asked_lem = refl

shutdown-Ends_example : Ends (run asked_twice new_process)
shutdown-Ends_example = shutdown-Ends asked_twice asked_lem

abbrev report : Report
report = record { rss = 100; heap_used = 40; event_loop_lag_ms = 3 }

abbrev some_history : List Metric
some_history =
    recovered 900 ∷ exit 1 1 ∷ crash ∷ health 20 2 report ∷ health 10 1 report ∷ online 2 ∷ []

after-Shows_example : Shows 0 some_history (after 0 some_history)
after-Shows_example = after-Shows 0 some_history

-- A collection that was begun before an invalidation is served from the cache after it.
stale_run :
    (merged_metrics 40 (
      cache_after 1000
        ((30, settled (some ("old", ""))) ∷ (20, invalidated) ∷ (10, scraped) ∷ []))).0
    ≡ cached "old"
unfolding merged_metrics cache_after cache_step answered valid_entry join_or_collect settle stored
    merged clear_merged_metrics_cache is_empty
stale_run = refl

abbrev undetected : Detection
undetected = record { cached = none; detecting = false }

uninstall_ends_all_example : IsOver (
    uninstall true
      (provider_run (installs true ∷ shuts_down false ∷ installs true ∷ []) no_provider))
uninstall_ends_all_example =
    uninstall_ends_all (installs true ∷ shuts_down false ∷ installs true ∷ []) true
