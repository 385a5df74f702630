-- ===== src/Tests/Workers.antt =====
-- One worker's drain, a fleet's shutdown, one worker's reports, and a configuration.
use clusterkit.Common.{
  ℕ, ◌+◌, ◌≤◌, ◌≡◌, ◌≢◌, ◌↔◌, refl, Bool, true, false, none, some, List, [], ◌∷◌, ◌++◌, leb, length,
  filterb, not, has, lookup, arith,
}
use clusterkit.Drain.{
  Seen, Stimulus, replacement_exit, replacement_online, force_kill, recycle, react_all, waiting,
  settled, WaitEvent, exited, wait_over, grace_over, await_all,
}
use clusterkit.Drain.Escalation.{
  is_message, is_disconnect, is_sigterm, is_sigkill, total, bit, recycle-IsOrderly,
}
use clusterkit.Drain.Progress.{stuck, budget_spent, stuck_worker_killed, await_bounded}
use clusterkit.Shutdown.{
  ack_message, other_message, timeout, pending, resolved, start_ack, ack_steps, WorkerRun, is_dead,
  send_shutdown_and_wait_acks, wait_for_workers_to_exit, sequence,
}
use clusterkit.Shutdown.Ack.{AcksFirst, ack_decided}
use clusterkit.Shutdown.Outcome.{sequence_bounded, sequence-forced}
use clusterkit.Health.{object, start_monitor}
use clusterkit.Health.OneShot
use clusterkit.Health.OneShot.{feed_all, asked, is_rss, is_lag, recycled_once}
use clusterkit.Health.Streak.{asked_if, beats, longest_run, beats-longest_run}
use clusterkit.Validation.Numbers.{whole, lt, ge, plus}
use clusterkit.Validation
use clusterkit.Validation.Record.{OrchestratorConfig, missing, given, valid}
use clusterkit.Validation.Resolve.{
  validate_config, resolve, no_restart, all_checks, section_checks, resolve_health, resolve_restart,
  resolve_shutdown, resolve_workers,
}
use clusterkit.Validation.Sound.{IsValid, validated-IsValid}
use clusterkit.Validation.Given.{options_from}
use clusterkit.Validation.Again.{validate_config_again}
use clusterkit.Tests.Fleets.{cfg}

abbrev slow_boot : List (Seen × Stimulus)
slow_boot = (stuck, replacement_online) ∷ (stuck, replacement_exit) ∷ (stuck, force_kill) ∷ []

stuck_worker_killed_example :
    (total is_message (react_all (slow_boot ++ budget_spent) recycle).sent ≡ 1)
    × (total is_disconnect (react_all (slow_boot ++ budget_spent) recycle).sent ≡ 1)
    × (total is_sigkill (react_all (slow_boot ++ budget_spent) recycle).sent ≡ 1)
stuck_worker_killed_example = stuck_worker_killed slow_boot (
  (refl, refl, refl, refl, λ q. cc q),
  ((refl, refl, refl, refl, λ q. cc q), ((refl, refl, refl, refl, λ q. cc q), tt)),
)

recycle-IsOrderly_example :
    (total is_message (react_all slow_boot recycle).sent
      ≤ bit (react_all slow_boot recycle).drained)
    × (total is_disconnect (react_all slow_boot recycle).sent
        ≤ total is_message (react_all slow_boot recycle).sent)
    × (total is_sigterm (react_all slow_boot recycle).sent
        ≤ bit (react_all slow_boot recycle).drained)
    × (total is_sigkill (react_all slow_boot recycle).sent
        ≤ bit (react_all slow_boot recycle).drained)
    × ((react_all slow_boot recycle).forced_kills
        ≡ total is_sigkill (react_all slow_boot recycle).sent)
recycle-IsOrderly_example = recycle-IsOrderly slow_boot

abbrev arrivals : List (Bool × Bool × WaitEvent)
arrivals = (false, false, wait_over) ∷ (false, false, exited) ∷ []

await_bounded_example :
    ((await_all arrivals waiting).1 ≤ 1)
    × ((await_all ((false, false, wait_over) ∷ (false, false, grace_over) ∷ []) waiting).0
        ≡ settled)
await_bounded_example = await_bounded arrivals [] false false false false waiting

-- One worker that answers and leaves, and one that never dies.
abbrev crew : List WorkerRun
crew =
    record {
      id = 1;
      connected = true;
      send_throws = false;
      reply = some (10, true);
      dies = some 500;
    }
    ∷ record { id = 2; connected = true; send_throws = false; reply = none; dies = none }
    ∷ []

sequence_bounded_example : (sequence cfg crew).ends ≤ 3000 + 12000 + 2000 + 1000
sequence_bounded_example = sequence_bounded cfg crew

abbrev waited : ℕ
waited = wait_for_workers_to_exit cfg (send_shutdown_and_wait_acks cfg crew) crew

sequence-forced_example :
    (sequence cfg crew).forced ≡ length (filterb (λ w. not (is_dead (waited + 2000 + 1000) w)) crew)
sequence-forced_example = sequence-forced cfg crew

ack_decided_example :
    (ack_steps ((other_message ∷ ack_message ∷ []) ++ timeout ∷ []) (start_ack false true false)
      ≢ pending)
    × ((ack_steps (other_message ∷ ack_message ∷ []) (start_ack false true false) ≡ resolved true)
        ↔ AcksFirst (other_message ∷ ack_message ∷ []))
ack_decided_example = ack_decided (other_message ∷ ack_message ∷ []) []

-- Two reports above every limit, and a round of the watch.
abbrev heard : List OneShot.Input
heard =
    OneShot.message 1000 false 1 (object (some "__wm:hb") (some 200000000) (some 5) (some 900))
    ∷ OneShot.message 2000 false 1 (object (some "__wm:hb") (some 300000000) (some 5) (some 900))
    ∷ OneShot.watch 9000 false
    ∷ []

recycled_once_example :
    (asked is_rss 1 (feed_all cfg heard start_monitor).1 ≤ 1)
    × (asked is_lag 1 (feed_all cfg heard start_monitor).1 ≤ 1)
recycled_once_example = recycled_once cfg 1 heard start_monitor (tt, (tt, (tt, tt)))

nothing_recycled : has 1 start_monitor.lag_recycled ≡ false
unfolding start_monitor has
nothing_recycled = refl

nothing_counted : lookup 1 start_monitor.lag_beats ≡ none
unfolding start_monitor lookup
nothing_counted = refl

beats-longest_run_example :
    (beats cfg 1 (300 ∷ 300 ∷ 100 ∷ 300 ∷ 300 ∷ 300 ∷ []) start_monitor).1
    ≡ asked_if 1 (leb 3 (longest_run 200 0 (300 ∷ 300 ∷ 100 ∷ 300 ∷ 300 ∷ 300 ∷ [])))
beats-longest_run_example =
    beats-longest_run cfg 1 refl (omega arith) (omega arith)
      (300 ∷ 300 ∷ 100 ∷ 300 ∷ 300 ∷ 300 ∷ []) start_monitor nothing_recycled nothing_counted

abbrev chosen : OrchestratorConfig
chosen = record {
  keys = "restart" ∷ [];
  workers = missing;
  restart = given (record no_restart { backoff_ms = some (whole 2500) });
  shutdown = missing;
  health = missing;
}

chosen-valid : validate_config chosen ≡ valid (resolve chosen)
unfolding validate_config all_checks Validation.first section_checks Validation.assert_plain_object
    Validation.validate_workers_options Validation.if_given Validation.check_env
    Validation.validate_exec_argv Validation.validate_restart_options Validation.assert_range lt
    Validation.validate_shutdown_options Validation.check_prefix Validation.validate_health_options
    Validation.validate_cross_field_constraints ge plus resolve resolve_health resolve_restart
    resolve_shutdown resolve_workers Validation.default_to
chosen-valid = refl

validated-IsValid_example : IsValid (resolve chosen)
validated-IsValid_example = validated-IsValid chosen (resolve chosen) chosen-valid

validate_config_again_example :
    validate_config (options_from (resolve chosen)) ≡ valid (resolve chosen)
validate_config_again_example = validate_config_again chosen (resolve chosen) chosen-valid
