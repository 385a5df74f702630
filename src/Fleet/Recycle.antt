-- ===== src/Fleet/Recycle.antt =====
-- packages/worker-manager/src/worker-manager.ts: `recycleWorkerNow`, the age sweep of
-- `startRecycling` and its staggered timers. `on_recycle` is the callback that starts the drain.
use clusterkit.Common.{
  ℕ, Bool, true, false, not, ◌&&◌, ◌||◌, Option, none, some, List, [], ◌∷◌, if◌then◌else◌, ltb, leb,
  has, add, delete, filterb,
}
use clusterkit.Fleet.Record.{Host, Env}
use clusterkit.Fleet.{
  fork_worker, get_active_workers, get_worker_age, is_marked_for_recycling, mark_for_recycling,
}

abbrev pub unmark : ℕ → Host → Host
unmark id h = record h { recycling = delete id h.recycling }

-- A throwing fork leaves the worker running and unmarked.
unfoldable pub handed_over : (ℕ → ℕ → Host → Host) → ℕ → Option ℕ × Host → Bool × Host
handed_over on_recycle id (none, h) = (false, unmark id h)
handed_over on_recycle id (some new, h) = (true, on_recycle id new h)

unfoldable pub recycle_worker_now : Env → (ℕ → ℕ → Host → Host) → ℕ → Host → Bool × Host
unfolding handed_over mark_for_recycling
recycle_worker_now e on_recycle id h =
    if h.shutting_down
    then (false, h)
    else if is_marked_for_recycling id h
    then (false, h)
    else if not (has id (get_active_workers h))
    then (false, h)
    else handed_over on_recycle id (fork_worker e none (mark_for_recycling id h))

-- `startRecycling`: the interval runs only if a limit is configured.
unfoldable pub start_recycling : Env → Host → Host
start_recycling e h =
    if leb e.cfg.workers.max_age_ms 0 && leb e.cfg.workers.max_rss_mb 0
    then h
    else record h { sweeping = true }

abbrev pub is_aged : Env → Host → ℕ → Bool
is_aged e h id =
    not (is_marked_for_recycling id h)
    && (ltb 0 e.cfg.workers.max_age_ms && ltb e.cfg.workers.max_age_ms (get_worker_age id h))

-- `toRecycle.forEach`: mark, and set a timer.
unfoldable pub schedule : List ℕ → Host → Host
schedule [] h = h
schedule (id ∷ ids) h =
    schedule ids
      (record h { recycling = add id h.recycling; pending_recycles = add id h.pending_recycles })

-- The interval's callback.
unfoldable pub sweep : Env → Host → Host
unfolding schedule
sweep e h = if h.shutting_down then h else schedule (filterb (is_aged e h) (get_active_workers h)) h

-- A staggered timer's callback.
unfoldable pub recycle_timer : Env → (ℕ → ℕ → Host → Host) → ℕ → Host → Host
unfolding handed_over
recycle_timer e on_recycle id h =
    let fired : Host = record h { pending_recycles = delete id h.pending_recycles } in
    if not (has id fired.live) || fired.shutting_down
    then unmark id fired
    else (handed_over on_recycle id (fork_worker e none fired)).1
