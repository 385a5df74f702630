-- ===== src/Health/Reporting.antt =====
-- packages/worker-manager/src/health-monitor.ts: a worker's own side, the periodic reports. What
-- `process.memoryUsage()` gives and whether `process.send` throws stands in each beat.
use clusterkit.Common.{
  ℕ, ◌+◌, ◌-◌, ◌*◌, ◌≤◌, ◌≡◌, Bool, true, false, List, [], ◌∷◌, ◌++◌, length, sym, ap, ◌∙◌,
  if◌then◌else◌, leb, arith,
}

pub record Beat : Type 0 where
  pub now : ℕ
  pub rss : ℕ
  pub heap_used : ℕ
  pub sends : Bool

-- A report that was sent: rss, heapUsed and eventLoopLagMs.
abbrev pub Sent : Type 0
Sent = ℕ × ℕ × ℕ

pub record Reporter : Type 0 where
  pub interval : ℕ  -- `heartbeatMs`
  pub has_send : Bool  -- `process.send` is a function
  pub last_beat : ℕ
  pub report_timer : Bool
  pub sent : List Sent

-- Times are whole milliseconds, so that `Math.round` changes nothing.
unfoldable pub start_worker_reporting : ℕ → Reporter → Reporter
start_worker_reporting now r =
    if leb r.interval 0
    then r
    else if r.has_send
    then record r { last_beat = now; report_timer = true }
    else r

unfoldable pub lag_at : ℕ → Reporter → ℕ
lag_at now r = now - r.last_beat - r.interval

-- The interval's callback.
unfoldable pub beat : Beat → Reporter → Reporter
unfolding lag_at
beat b r = record r {
  last_beat = b.now;
  sent = if b.sends then r.sent ++ (b.rss, b.heap_used, lag_at b.now r) ∷ [] else r.sent;
}

unfoldable pub stop_worker_reporting : Reporter → Reporter
stop_worker_reporting r = record r { report_timer = false }

unfoldable pub beats : List Beat → Reporter → Reporter
unfolding beat
beats [] r = r
beats (b ∷ bs) r = if r.report_timer then beats bs (beat b r) else r

-- The lags of the beats together, and beats of which none comes before its interval is over.
unfoldable pub total_lag : List Beat → Reporter → ℕ
unfolding lag_at beat
total_lag [] r = 0
total_lag (b ∷ bs) r = lag_at b.now r + total_lag bs (beat b r)

abbrev pub IsPunctual : ℕ → ℕ → List Beat → Type 0
IsPunctual interval last [] = Unit
IsPunctual interval last (b ∷ bs) = (last + interval ≤ b.now) × IsPunctual interval b.now bs

-- The reported lags account for all of the time: what the intervals do not cover between the start
-- and the last beat is lag.
pub beats-total_lag :
    (bs : List Beat) (r : Reporter)
    → r.report_timer ≡ true
    → IsPunctual r.interval r.last_beat bs
    → r.last_beat + (length bs * r.interval + total_lag bs r) ≡ (beats bs r).last_beat
unfolding beats total_lag
beats-total_lag [] r t p = omega arith
beats-total_lag (b ∷ bs) r t (p, ps) =
    (unfold beat lag_at in omega (arith, p, beats-total_lag bs (beat b r) t ps))
    ∙ sym (ap (λ (k : Bool). (if k then beats bs (beat b r) else r).last_beat) t)
