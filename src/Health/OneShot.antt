-- ===== src/Health/OneShot.antt =====
-- packages/worker-manager/src/health-monitor.ts: how often each policy asks for the recycling of a
-- worker.
use clusterkit.Common.{
  ℕ, ◌+◌, ◌≤◌, ◌≡◌, ◌≢◌, refl, Bool, true, false, Option, none, some, List, [], ◌∷◌, ◌++◌,
  if◌then◌else◌, ◌==◌, insert, has, has-add, has-delete, if_cases, All, arith,
}
use clusterkit.Config.{ResolvedConfig, RecycleReason, rss, lag, wedged, WorkerHealthReport}
use clusterkit.Health.{
  HealthMonitor, Request, report, wedge, recycle, Message, check_rss_limit, check_lag_limit,
  on_report, on_worker_message, wedged_watch, silent_entries, on_worker_exit, complete, consider,
  Entry, is_typed_message,
}

-- What the monitor is told.
pub data Input : Type 0 where
  message : ℕ → Bool → ℕ → Message → Input
  watch : ℕ → Bool → Input
  exit : ℕ → Input

unfoldable pub feed : ResolvedConfig ℕ → Input → HealthMonitor → HealthMonitor × List Request
feed cfg (message now down id msg) m = on_worker_message cfg now down id msg m
feed cfg (watch now down) m = wedged_watch cfg now down m
feed cfg (exit id) m = (on_worker_exit id m, [])

unfoldable pub feed_all :
    ResolvedConfig ℕ → List Input → HealthMonitor → HealthMonitor × List Request
feed_all cfg [] m = (m, [])
feed_all cfg (i ∷ is) m =
    let (m', q) = feed cfg i m in let (m'', q') = feed_all cfg is m' in (m'', q ++ q')

abbrev pub is_lag : RecycleReason → Bool
is_lag lag = true
is_lag _ = false

abbrev pub is_rss : RecycleReason → Bool
is_rss rss = true
is_rss _ = false

-- How often the requests ask for worker `id` for a reason of the kind.
unfoldable pub asked : (RecycleReason → Bool) → ℕ → List Request → ℕ
asked kind id [] = 0
asked kind id (report r ∷ q) = asked kind id q
asked kind id (wedge j s ∷ q) = asked kind id q
asked kind id (recycle j r ∷ q) =
    (if j == id then (if kind r then 1 else 0) else 0) + asked kind id q

asked-append :
    (kind : RecycleReason → Bool) (id : ℕ) (p q : List Request)
    → asked kind id (p ++ q) ≡ asked kind id p + asked kind id q
unfolding asked
asked-append kind id [] q = omega arith
asked-append kind id (report r ∷ p) q = asked-append kind id p q
asked-append kind id (wedge j s ∷ p) q = asked-append kind id p q
asked-append kind id (recycle j r ∷ p) q = omega (arith, asked-append kind id p q)

-- One while the worker is in the set.
abbrev pub once : ℕ → List ℕ → ℕ
once id s = if has id s then 1 else 0

-- The books of both policies: what was asked for is what the sets have gained.
record Books (id : ℕ) (m : HealthMonitor) (r : HealthMonitor × List Request) : Type 0 where
  by_rss : asked is_rss id r.1 + once id m.rss_recycled ≡ once id r.0.rss_recycled
  by_lag : asked is_lag id r.1 + once id m.lag_recycled ≡ once id r.0.lag_recycled

rss-Books :
    (cfg : ResolvedConfig ℕ) (down : Bool) (id j bytes : ℕ) (m : HealthMonitor)
    → Books id m (check_rss_limit cfg down j bytes m)
unfolding check_rss_limit asked
rss-Books cfg down id j bytes m = ground (arith, has-add id j m.rss_recycled)

lag-Books :
    (cfg : ResolvedConfig ℕ) (down : Bool) (id j ms : ℕ) (m : HealthMonitor)
    → Books id m (check_lag_limit cfg down j ms m)
unfolding check_lag_limit asked
lag-Books cfg down id j ms m = ground (arith, has-add id j m.lag_recycled)

silent-asked :
    (timeout now id : ℕ) (kind : RecycleReason → Bool) (es : List (ℕ × Entry))
    → kind wedged ≡ false
    → asked kind id (silent_entries timeout now es).1 ≡ 0
unfolding silent_entries asked
silent-asked timeout now id kind [] h = refl
silent-asked timeout now id kind ((j, en) ∷ es) h =
    ground (arith, silent-asked timeout now id kind es)

on_report-Books :
    (cfg : ResolvedConfig ℕ) (now id : ℕ) (down : Bool) (r : WorkerHealthReport) (m : HealthMonitor)
    → Books id m (on_report cfg now down r m)
unfolding on_report asked
on_report-Books cfg now id down r m =
    let j = r.worker_id in
    let seen : HealthMonitor = record m {
      registry = insert j (record { last_report = now; latest = r }) m.registry;
    } in
    let (m', q) = check_rss_limit cfg down j r.rss seen in
    let q' = (check_lag_limit cfg down j r.event_loop_lag_ms m').1 in
    ground (
      arith,
      rss-Books cfg down id j r.rss seen,
      lag-Books cfg down id j r.event_loop_lag_ms m',
      asked-append is_rss id q q',
      asked-append is_lag id q q',
    )

message-Books :
    (cfg : ResolvedConfig ℕ) (now id j : ℕ) (down : Bool) (msg : Message) (m : HealthMonitor)
    → Books id m (on_worker_message cfg now down j msg m)
unfolding on_worker_message consider asked
message-Books cfg now id j down msg m =
    let P : HealthMonitor × List Request → Type 0 = Books id m in
    if_cases P (is_typed_message msg _) _ _
      (λ _. if_cases P (has j m.exited) _ _ (λ _. nothing) (λ _. go (complete j msg)))
      (λ _. nothing)
  where
    nothing : Books id m (m, [])
    nothing = record { by_rss = omega arith; by_lag = omega arith }

    go : (r : Option WorkerHealthReport) → Books id m (consider cfg now down r m)
    go none = nothing
    go (some r) = on_report-Books cfg now id down r m

watch-Books :
    (cfg : ResolvedConfig ℕ) (now id : ℕ) (down : Bool) (m : HealthMonitor)
    → Books id m (wedged_watch cfg now down m)
unfolding wedged_watch asked
watch-Books cfg now id down m = ground (
  arith,
  silent-asked cfg.health.wedged_timeout_ms now id is_rss m.registry refl,
  silent-asked cfg.health.wedged_timeout_ms now id is_lag m.registry refl,
)

-- No exit of the worker among the inputs.
abbrev pub Stays : ℕ → Input → Type 0
Stays id (message now down j msg) = Unit {0}
Stays id (watch now down) = Unit {0}
Stays id (exit j) = j ≢ id

feed-Books :
    (cfg : ResolvedConfig ℕ) (id : ℕ) (i : Input) (m : HealthMonitor)
    → Stays id i
    → Books id m (feed cfg i m)
unfolding feed on_worker_exit asked
feed-Books cfg id (message now down j msg) m s = message-Books cfg now id j down msg m
feed-Books cfg id (watch now down) m s = watch-Books cfg now id down m
feed-Books cfg id (exit j) m s =
    ground (arith, has-delete id j m.rss_recycled, has-delete id j m.lag_recycled)

feed_all-Books :
    (cfg : ResolvedConfig ℕ) (id : ℕ) (is : List Input) (m : HealthMonitor)
    → All (Stays id) is
    → Books id m (feed_all cfg is m)
unfolding feed_all asked
feed_all-Books cfg id [] m s = record { by_rss = omega arith; by_lag = omega arith }
feed_all-Books cfg id (i ∷ is) m s =
    let (m', q) = feed cfg i m in
    let first = feed-Books cfg id i m s.0 in
    let rest = feed_all-Books cfg id is m' s.1 in
    ground (
      arith,
      first,
      rest,
      asked-append is_rss id q (feed_all cfg is m').1,
      asked-append is_lag id q (feed_all cfg is m').1,
    )

-- Whatever messages and watch rounds come, in whatever order and from whatever workers: until a
-- worker exits, its recycling is asked for at most once because of memory and at most once because
-- of lag.
pub recycled_once :
    (cfg : ResolvedConfig ℕ) (id : ℕ) (is : List Input) (m : HealthMonitor)
    → All (Stays id) is
    → (asked is_rss id (feed_all cfg is m).1 ≤ 1) × (asked is_lag id (feed_all cfg is m).1 ≤ 1)
recycled_once cfg id is m s = ground (arith, feed_all-Books cfg id is m s)
