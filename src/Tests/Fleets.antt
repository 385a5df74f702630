-- ===== src/Tests/Fleets.antt =====
-- A fleet of two, its breaker, its restart loop and its shutdown.
use clusterkit.Restart.Replace.{after_wait, Replaced, kick-Replaced}
use clusterkit.Orchestrator.Roll.{roll_from}
use clusterkit.Orchestrator.Bailout.{Abandoned, roll_from-Abandoned}
use clusterkit.Common.{
  ℕ, zero, suc, ◌*◌, ◌^◌, ◌-◌, ◌≤◌, ◌≡◌, refl, min, max, true, false, not, ◌&&◌, Option, none, some,
  List, [], ◌∷◌, inl, leb, length, filterb, arith, has, keys, insert, All, ◌<◌, ◌≢◌,
}
use clusterkit.EnvVars.{EnvVars, is_safe_env}
use clusterkit.Config.{ResolvedConfig, auto}
use clusterkit.Crash.{CrashTracker, is_tripped, count, new, prune, record_crash}
use clusterkit.Crash.Trip.{Call, records, queries, fresh, run, at, is_tripped-run, run_bounded}
use clusterkit.Crash.Window.{recent}
use clusterkit.Fleet.Record.{Host, Env, start_host}
use clusterkit.Fleet.{fork_worker, fork_workers, stop_recycling}
use clusterkit.Fleet.Recycle.{start_recycling}
use clusterkit.Restart.Record.{State, Phase, refill, crash, yielded, start_coord}
use clusterkit.Restart.Loop
use clusterkit.Restart.{on_worker_crash}
use clusterkit.Restart.Loop.{
  missing_workers, next_delay, fork_attempt, after_fork, pruned, breaker_open,
}
use clusterkit.Restart.Rounds.{turns, turn, turns-idle}
use clusterkit.Restart.Breaker.{gated_no_fork, left_after}
use clusterkit.Restart.Backoff.{restarted, none_yet, next_delay-Restarts}
use clusterkit.Shutdown
use clusterkit.Orchestrator.Record.{System, start_system, with_host}
use clusterkit.Orchestrator.{begin_shutdown, start_primary}
use clusterkit.Orchestrator.Steps.{Input}
use clusterkit.Orchestrator.Steps
use clusterkit.Orchestrator.Safety.{IsFinal, IsSound, after_start, run-IsFinal}
use clusterkit.Orchestrator.Exits.{run-IsCounted, exited_for_good}

abbrev pub cfg : ResolvedConfig ℕ
cfg = record {
  workers = record { count = auto; env = none; exec_argv = none; max_age_ms = 0; max_rss_mb = 100 };
  restart = record {
    crash_threshold = 2;
    crash_window_ms = 60000;
    backoff_ms = 1000;
    max_backoff_ms = 30000;
    backoff_multiplier = 2;
    stability_window_ms = 30000;
    boot_fail_quarantine = 2;
  };
  shutdown = record {
    timeout_ms = 12000;
    ack_timeout_ms = 3000;
    message_prefix = "__wm";
    sigterm_delay_ms = 2000;
    sigint_delay_ms = 1000;
  };
  health = record {
    heartbeat_ms = 1000;
    wedged_timeout_ms = 3000;
    degraded_after_ms = 5000;
    max_event_loop_lag_ms = 200;
    lag_recycle_beats = 3;
    lag_spike_ms = 0;
  };
}

abbrev env : Env
env = record { cfg = cfg; spawn = λ n o. some (suc n); target = 2 }

same_attempt :
    (n m : ℕ) (o o' : Option EnvVars) (id : ℕ)
    → env.spawn n o ≡ some id
    → env.spawn m o' ≡ some id
    → n ≡ m
same_attempt n m o o' id p q = ground (arith, p, q)

abbrev fleet : System
fleet = (start_primary env (start_system env 1000)).1

abbrev late_inputs : List Input
late_inputs =
    Input.exits 1 false
    ∷ Input.time_passes 2000
    ∷ Input.restart_turn
    ∷ Input.reset_call
    ∷ Input.restart_call none (λ id. true) 0
    ∷ []

closing-down : (after_start env 1000 (Input.shutdown_call ∷ [])).host.shutting_down ≡ true
unfolding Steps.run Steps.step begin_shutdown Shutdown.begin stop_recycling start_primary
    fork_workers fork_worker start_recycling start_system start_host
closing-down = refl

run-IsFinal_example :
    IsFinal
      (after_start env 1000 (Input.shutdown_call ∷ [])).host.attempts
      (Steps.run env late_inputs (after_start env 1000 (Input.shutdown_call ∷ []))).host
run-IsFinal_example = run-IsFinal env 1000 (Input.shutdown_call ∷ []) late_inputs closing-down

run-IsCounted_example :
    IsSound env (after_start env 1000 (Input.time_passes 5 ∷ [])).host
    × (has 1 (
          keys
            (Steps.step env
              (Input.exits 1 false)
              (after_start env 1000 (Input.time_passes 5 ∷ []))).host.start_times)
        ≡ (has 1 (keys (after_start env 1000 (Input.time_passes 5 ∷ [])).host.start_times)
            && not (after_start env 1000 (Input.time_passes 5 ∷ [])).listening))
run-IsCounted_example = run-IsCounted env same_attempt 1000 (Input.time_passes 5 ∷ []) 1 false

first_tracked :
    ((after_start env 1000 []).listening ≡ true)
    × (has 1 (keys (after_start env 1000 []).host.start_times) ≡ true)
unfolding Steps.run start_primary fork_workers fork_worker start_recycling start_system start_host
    has keys insert
first_tracked = (refl, refl)

-- The first worker crashes, and is replaced later.
exited_for_good_example :
    has 1 (
      keys
        (Steps.run env
          (Input.exits 1 false ∷ late_inputs)
          (after_start env 1000 [])).host.start_times)
    ≡ false
exited_for_good_example =
    exited_for_good env same_attempt 1000 [] late_inputs 1 false first_tracked.0 first_tracked.1

-- A shutdown while the plugins are installed: the start that follows forks all the same.
late_start :
    ((start_primary env (begin_shutdown (start_system env 1000))).1.host.shutting_down ≡ true)
    × ((start_primary env (begin_shutdown (start_system env 1000))).1.host.attempts ≡ 2)
unfolding begin_shutdown Shutdown.begin stop_recycling start_primary fork_workers fork_worker
    start_recycling start_system start_host
late_start = (refl, refl)

abbrev calls : List (ℕ × Call)
calls = (5, records) ∷ (10, queries) ∷ (0, records) ∷ (70000, records) ∷ []

is_tripped-run_example :
    ((is_tripped 70115 (run calls (fresh 2 60000)).tracker).1
      ≡ leb 2 (recent 60000 70115 (run calls (fresh 2 60000)).crashes))
    × ((count 70115 (run calls (fresh 2 60000)).tracker).1
        ≡ min (recent 60000 70115 (run calls (fresh 2 60000)).crashes) (max (2 * 2) 100))
unfolding run at new prune record_crash
is_tripped-run_example = is_tripped-run 2 60000 calls 100

run_bounded_example : length (run calls (fresh 2 60000)).tracker.timestamps ≤ max (2 * 2) 100
run_bounded_example = run_bounded 2 60000 calls

abbrev queued : State
queued = record {
  host = start_host 5;
  coord = record (start_coord cfg) { queue = refill ∷ crash 1 ∷ []; phase = yielded };
}

-- Before each turn a second later, with one more crash, so that the breaker trips soon.
abbrev gaps : ℕ → List (Host × CrashTracker)
gaps zero = []
gaps (suc n) =
    (
      record (start_host 5) { now = 90000 - 1000 * n },
      record {
        threshold = 2;
        window_ms = 60000;
        max_size = 100;
        timestamps = (90000 - 1000 * n) ∷ (80000 - 1000 * n) ∷ [];
      },
    )
    ∷ gaps n

turns-idle_example : (turns env (gaps 30) queued).coord.phase ≡ Phase.idle
turns-idle_example = turns-idle env queued (gaps 30) (omega arith)

abbrev halted : State
halted = record queued { host = record queued.host { shutting_down = true } }

gated_no_fork_example :
    ((turn env halted).host ≡ halted.host)
    × ((Loop.process_restart_queue env halted).host ≡ halted.host)
gated_no_fork_example = gated_no_fork env halted (inl refl)

-- Two crashes a millisecond apart, with a threshold of two.
abbrev stormy : State
stormy = record {
  host = start_host 5;
  coord = record (start_coord cfg) {
    tracker = record { threshold = 2; window_ms = 60000; max_size = 100; timestamps = 3 ∷ 4 ∷ [] };
  };
}

-- The first is a crash at boot.
abbrev tripped_once : State
tripped_once = on_worker_crash env 7 true false (left_after 10 7 stormy)

abbrev tripped_twice : State
tripped_twice = on_worker_crash env 8 false true (left_after 2000 8 tripped_once)

abbrev calm : State
calm = record { host = start_host 5; coord = start_coord cfg }

calm-shut : breaker_open calm ≡ false
unfolding is_tripped prune start_coord new start_host filterb
calm-shut = refl

calm-forks : (fork_worker env none (pruned calm).host).0 ≡ some 1
unfolding fork_worker start_host is_tripped prune
calm-forks = refl

calm-delay : calm.coord.backoff_delay ≡ 0
unfolding start_coord
calm-delay = refl

next_delay-Restarts_example :
    next_delay env (fork_attempt env refill (next_delay env calm.coord) calm).coord
    ≡ min (1000 * 2 ^ 1) 30000
next_delay-Restarts_example =
    next_delay-Restarts env calm calm-delay (omega arith) (omega arith) (omega arith)
      (fork_attempt env refill (next_delay env calm.coord) calm) 1
      (restarted refill 1 (fork_attempt env refill (next_delay env calm.coord) calm) none_yet
        calm-shut calm-forks refl)

abbrev booted : ℕ → State → State
booted id s = on_worker_crash env id true true s

-- An idle loop with one crash queued and two workers missing.
abbrev short : State
short = record { host = start_host 5; coord = record (start_coord cfg) { queue = crash 1 ∷ [] } }

short-facts :
    (short.coord.phase ≡ Phase.idle)
    × (short.host.shutting_down ≡ false)
    × (breaker_open short ≡ false)
    × (breaker_open (after_wait 1000 (Loop.process_restart_queue env short)) ≡ false)
    × (missing_workers env short.host ≢ 0)
unfolding start_coord start_host is_tripped prune filterb new Loop.process_restart_queue
    Loop.process_phase Loop.advance Loop.begin_restart
short-facts = (refl, refl, refl, refl, ground arith)

short-waits : 0 < next_delay env short.coord
unfolding start_coord
short-waits = omega arith

short-safe : is_safe_env env.cfg.workers.env ≡ true
unfolding is_safe_env
short-safe = refl

kick-Replaced_example :
    Replaced short (turn env (after_wait 1000 (Loop.process_restart_queue env short))) []
kick-Replaced_example =
    kick-Replaced env short (crash 1) [] 1000 short-facts.0 refl short-facts.1 short-facts.2
      short-facts.3 short-facts.4 short-waits short-safe (λ n o. (suc n, refl))

abbrev broken : Env
broken = record { cfg = cfg; spawn = λ n o. none; target = 3 }

abbrev serving : System
serving = with_host (record (start_host 5) { live = 1 ∷ 2 ∷ 3 ∷ [] }) (start_system broken 5)

serving-up : serving.host.shutting_down ≡ false
unfolding start_host
serving-up = refl

serving-live : All (λ id. has id serving.host.live ≡ true) (1 ∷ 2 ∷ 3 ∷ [])
unfolding has
serving-live = (refl, (refl, (refl, tt)))

serving-few : serving.coord.fork_failures ≡ 0
unfolding start_system start_coord
serving-few = refl

roll_from-Abandoned_example :
    Abandoned serving (roll_from broken none 0 [] (1 ∷ 2 ∷ 3 ∷ []) serving)
roll_from-Abandoned_example =
    roll_from-Abandoned broken none 0 [] (1 ∷ 2 ∷ 3 ∷ []) serving (λ n o. refl) serving-up
      serving-live (omega (arith, serving-few)) (omega (arith, serving-few))
