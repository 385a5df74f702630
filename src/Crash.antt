-- ===== src/Crash.antt =====
-- packages/worker-manager/src/crash-tracker.ts: the sliding-window circuit breaker.
-- `Date.now()` is an argument of each call, in whole milliseconds.
pub mod Window
pub mod Trip
use clusterkit.Common.{
  ℕ, ◌+◌, ◌-◌, ◌*◌, max, Bool, List, [], ◌∷◌, ◌++◌, if◌then◌else◌, ltb, leb, length, drop, filterb,
}

pub record CrashTracker : Type 0 where
  pub threshold : ℕ
  pub window_ms : ℕ
  pub max_size : ℕ
  pub timestamps : List ℕ

unfoldable pub new : ℕ → ℕ → CrashTracker
new threshold window = record {
  threshold = threshold;
  window_ms = window;
  max_size = max (threshold * 2) 100;
  timestamps = [];
}

-- `t > now - windowMs`, without the subtraction.
abbrev pub keeps : ℕ → ℕ → ℕ → Bool
keeps window now t = ltb now (t + window)

-- `slice(-size)` of an array that is longer than `size`.
abbrev pub last_entries : ℕ → List ℕ → List ℕ
last_entries size ts = drop (length ts - size) ts

-- The second half of `prune`: the hard limit.
abbrev pub limit : ℕ → List ℕ → List ℕ
limit size ts = if ltb size (length ts) then last_entries size ts else ts

unfoldable pub prune : ℕ → CrashTracker → CrashTracker
prune now t = record t {
  timestamps = limit t.max_size (filterb (keeps t.window_ms now) t.timestamps);
}

unfoldable pub record_crash : ℕ → CrashTracker → CrashTracker
record_crash now t =
    let pushed : CrashTracker = record t { timestamps = t.timestamps ++ now ∷ [] } in
    if ltb t.max_size (length pushed.timestamps) then prune now pushed else pushed

-- Both queries prune first, so they return the tracker too.
unfoldable pub is_tripped : ℕ → CrashTracker → CrashTracker × Bool
is_tripped now t = let t' = prune now t in (t', leb t'.threshold (length t'.timestamps))

unfoldable pub count : ℕ → CrashTracker → CrashTracker × ℕ
count now t = let t' = prune now t in (t', length t'.timestamps)

unfoldable pub reset : CrashTracker → CrashTracker
reset t = record t { timestamps = [] }
