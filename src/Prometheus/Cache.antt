-- ===== src/Prometheus/Cache.antt =====
-- packages/plugin-prometheus/src/index.ts: `mergedMetrics`. A collection runs while other events
-- come in; it has a number, the promise of it is `inflightMetrics`, and what it gives is in the
-- event that settles it.
use Prim.Native.String.{String}
use clusterkit.Common.{ℕ, suc, ◌+◌, ◌&&◌, Option, none, some, List, [], ◌∷◌, if◌then◌else◌, ltb}
use clusterkit.Texts.{append, is_empty}

pub record Entry : Type 0 where
  pub value : String
  pub expires_at : ℕ

pub record Cache : Type 0 where
  pub ttl_ms : ℕ
  pub merged_metrics_cache : Option Entry
  pub inflight_metrics : Option ℕ
  pub collections : ℕ  -- begun so far

abbrev pub new_cache : ℕ → Cache
new_cache ttl = record {
  ttl_ms = ttl;
  merged_metrics_cache = none;
  inflight_metrics = none;
  collections = 0;
}

-- `clearMergedMetricsCache`.
unfoldable pub clear_merged_metrics_cache : Cache → Cache
clear_merged_metrics_cache c = record c { merged_metrics_cache = none; inflight_metrics = none }

-- What a scrape gets: a value at once, or that of a collection.
pub data Answer : Type 0 where
  cached : String → Answer
  awaits : ℕ → Answer

unfoldable pub valid_entry : ℕ → ℕ → Option Entry → Option String
valid_entry ttl now none = none
valid_entry ttl now (some e) = if ltb 0 ttl && ltb now e.expires_at then some e.value else none

-- The collection in flight, or a new one.
unfoldable pub join_or_collect : Option ℕ → Cache → Answer × Cache
join_or_collect (some n) c = (awaits n, c)
join_or_collect none c = (
  awaits c.collections,
  record c { inflight_metrics = some c.collections; collections = suc c.collections },
)

unfoldable pub answered : Option String → Cache → Answer × Cache
unfolding join_or_collect
answered (some v) c = (cached v, c)
answered none c = join_or_collect c.inflight_metrics c

unfoldable pub merged_metrics : ℕ → Cache → Answer × Cache
unfolding answered valid_entry
merged_metrics now c = answered (valid_entry c.ttl_ms now c.merged_metrics_cache) c

-- `orchestration` and what the workers gave, empty where the aggregation fails.
unfoldable pub merged : String → String → String
unfolding append is_empty
merged orchestration workers =
    if is_empty workers then orchestration else append orchestration (append "\n" workers)

-- A collection ends; its `finally` clears the promise, whichever that is by now. A rejection of
-- `registry.metrics()` stores nothing.
unfoldable pub stored : ℕ → Option (String × String) → Cache → Cache
unfolding merged
stored now none c = c
stored now (some (orchestration, workers)) c =
    if ltb 0 c.ttl_ms
    then record c {
      merged_metrics_cache =
          some (record { value = merged orchestration workers; expires_at = now + c.ttl_ms });
    }
    else c

unfoldable pub settle : ℕ → Option (String × String) → Cache → Cache
unfolding stored
settle now result c = record (stored now result c) { inflight_metrics = none }

pub data Event : Type 0 where
  scraped : Event
  invalidated : Event
  settled : Option (String × String) → Event

unfoldable pub step : ℕ → Event → Cache → Option Answer × Cache
unfolding merged_metrics clear_merged_metrics_cache settle
step now scraped c = (some (merged_metrics now c).0, (merged_metrics now c).1)
step now invalidated c = (none, clear_merged_metrics_cache c)
step now (settled result) c = (none, settle now result c)

-- The events so far with their times, the newest first.
unfoldable pub after : ℕ → List (ℕ × Event) → Cache
unfolding step
after ttl [] = new_cache ttl
after ttl ((now, e) ∷ es) = (step now e (after ttl es)).1
