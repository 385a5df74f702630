-- ===== src/Validation/Sound.antt =====
-- packages/worker-manager/src/validation.ts: what the rest of the program can rely on.
use Prim.Native.String.{String}
use clusterkit.Common.{◌≡◌, refl, subst, true, false, ◌&&◌, ◌||◌, Option, none, some, arith}
use clusterkit.Config.{RestartConfig, ShutdownConfig, HealthConfig, ResolvedConfig}
use clusterkit.Validation.Numbers.{Num, whole, lt, ge, plus, Within}
use clusterkit.Validation.Record.{ShutdownOptions, OrchestratorConfig, Validated, invalid, valid}
use clusterkit.Validation.{
  first, validate_workers_options, validate_restart_options, validate_shutdown_options,
  validate_health_options, validate_cross_field_constraints,
}
use clusterkit.Validation.Resolve.{
  options_of, no_workers, no_restart, no_shutdown, no_health, resolve_restart, resolve_shutdown,
  resolve_health, resolve, section_checks, all_checks, validate_config,
}
use clusterkit.Validation.Workers.{IsValidWorkers, workers-IsValidWorkers}
use clusterkit.Validation.Checks.{
  AllPass, first-AllPass, AllPass-split, throw_if-false, range-default, IsWhole, positive-default,
  non_negative-default, heartbeat-default, not_ge, Within-is_number, IsWhole-is_number,
  plus-is_number,
}

pub record IsValidRestart (r : RestartConfig Num) : Type 0 where
  pub crash_threshold : IsWhole 1 r.crash_threshold
  pub crash_window : Within 1000 600000 r.crash_window_ms
  pub backoff : Within 0 60000 r.backoff_ms
  pub max_backoff : Within 1000 300000 r.max_backoff_ms
  pub multiplier : Within 1 10 r.backoff_multiplier
  pub stability : Within 0 600000 r.stability_window_ms
  pub quarantine : IsWhole 0 r.boot_fail_quarantine

pub record IsValidShutdown (s : ShutdownConfig Num) : Type 0 where
  pub timeout : Within 1000 60000 s.timeout_ms
  pub ack_timeout : Within 500 30000 s.ack_timeout_ms
  pub sigterm_delay : Within 100 10000 s.sigterm_delay_ms
  pub sigint_delay : Within 100 10000 s.sigint_delay_ms

pub record IsValidHealth (h : HealthConfig Num) : Type 0 where
  pub heartbeat : IsWhole 0 h.heartbeat_ms
  pub heartbeat_floor : lt (whole 0) h.heartbeat_ms ≡ true → lt h.heartbeat_ms (whole 100) ≡ false
  pub wedged : IsWhole 0 h.wedged_timeout_ms
  pub degraded : IsWhole 0 h.degraded_after_ms
  pub lag : IsWhole 0 h.max_event_loop_lag_ms
  pub beats : IsWhole 1 h.lag_recycle_beats
  pub spike : IsWhole 0 h.lag_spike_ms

pub record IsValid (r : ResolvedConfig Num) : Type 0 where
  pub workers : IsValidWorkers r.workers
  pub restart : IsValidRestart r.restart
  pub shutdown : IsValidShutdown r.shutdown
  pub health : IsValidHealth r.health
  pub kills_in_time :
      lt (plus r.shutdown.sigterm_delay_ms r.shutdown.sigint_delay_ms) r.shutdown.timeout_ms ≡ true
  pub acks_in_time : lt r.shutdown.ack_timeout_ms r.shutdown.timeout_ms ≡ true
  pub backoff_fits : lt r.restart.max_backoff_ms r.restart.backoff_ms ≡ false
  pub watch_needs_beats :
      lt (whole 0) r.health.wedged_timeout_ms ≡ true
      → (lt (whole 0) r.health.heartbeat_ms ≡ true)
        × (lt r.health.wedged_timeout_ms (plus r.health.heartbeat_ms r.health.heartbeat_ms) ≡ false)
  pub lag_needs_beats :
      lt (whole 0) r.health.max_event_loop_lag_ms ≡ true → lt (whole 0) r.health.heartbeat_ms ≡ true
  pub spike_needs_beats :
      lt (whole 0) r.health.lag_spike_ms ≡ true → lt (whole 0) r.health.heartbeat_ms ≡ true

restart-IsValidRestart :
    (r : RestartConfig (Option Num))
    → AllPass (validate_restart_options r)
    → IsValidRestart (resolve_restart r)
unfolding validate_restart_options resolve_restart
restart-IsValidRestart r (a, (b, (c, (d, (m, (s, (q, _))))))) = record {
  crash_threshold = positive-default "restart.crashThreshold" 5 r.crash_threshold (omega arith) a;
  crash_window =
      range-default "restart.crashWindowMs" 1000 600000 60000 r.crash_window_ms (omega arith)
        (omega arith) b;
  backoff =
      range-default "restart.backoffMs" 0 60000 1000 r.backoff_ms (omega arith) (omega arith) c;
  max_backoff =
      range-default "restart.maxBackoffMs" 1000 300000 30000 r.max_backoff_ms (omega arith)
        (omega arith) d;
  multiplier =
      range-default "restart.backoffMultiplier" 1 10 2 r.backoff_multiplier (omega arith)
        (omega arith) m;
  stability =
      range-default "restart.stabilityWindowMs" 0 600000 30000 r.stability_window_ms (omega arith)
        (omega arith) s;
  quarantine = non_negative-default "restart.bootFailQuarantine" 0 r.boot_fail_quarantine q;
}

shutdown-IsValidShutdown :
    (s : ShutdownOptions)
    → AllPass (validate_shutdown_options s)
    → IsValidShutdown (resolve_shutdown s)
unfolding validate_shutdown_options resolve_shutdown
shutdown-IsValidShutdown s (t, (a, (st, (si, _)))) = record {
  timeout =
      range-default "shutdown.timeoutMs" 1000 60000 12000 s.timeout_ms (omega arith) (omega arith)
        t;
  ack_timeout =
      range-default "shutdown.ackTimeoutMs" 500 30000 3000 s.ack_timeout_ms (omega arith)
        (omega arith) a;
  sigterm_delay =
      range-default "shutdown.sigtermDelayMs" 100 10000 2000 s.sigterm_delay_ms (omega arith)
        (omega arith) st;
  sigint_delay =
      range-default "shutdown.sigintDelayMs" 100 10000 1000 s.sigint_delay_ms (omega arith)
        (omega arith) si;
}

health-IsValidHealth :
    (h : HealthConfig (Option Num))
    → AllPass (validate_health_options h)
    → IsValidHealth (resolve_health h)
unfolding validate_health_options resolve_health
health-IsValidHealth h (b, (w, (d, (l, (n, (s, _)))))) = record {
  heartbeat = (heartbeat-default h.heartbeat_ms b).0;
  heartbeat_floor = (heartbeat-default h.heartbeat_ms b).1;
  wedged = non_negative-default "health.wedgedTimeoutMs" 0 h.wedged_timeout_ms w;
  degraded = non_negative-default "health.degradedAfterMs" 0 h.degraded_after_ms d;
  lag = non_negative-default "health.maxEventLoopLagMs" 0 h.max_event_loop_lag_ms l;
  beats = positive-default "health.lagRecycleBeats" 3 h.lag_recycle_beats (omega arith) n;
  spike = non_negative-default "health.lagSpikeMs" 0 h.lag_spike_ms s;
}

-- A positive threshold that passed beside the heartbeat: there is a heartbeat.
needs_beats :
    (x b : Num)
    → IsWhole 0 b
    → (lt (whole 0) x && ge (whole 0) b) ≡ false
    → lt (whole 0) x ≡ true
    → lt (whole 0) b ≡ true
unfolding ge
needs_beats x b v q p = ground (arith, IsWhole-is_number 0 b v, q, p)

watch :
    (w b : Num)
    → IsWhole 0 b
    → (lt (whole 0) w && (ge (whole 0) b || lt w (plus b b))) ≡ false
    → lt (whole 0) w ≡ true
    → (lt (whole 0) b ≡ true) × (lt w (plus b b) ≡ false)
watch w b v q p = (needs_beats w b v (ground (arith, q)) p, ground (arith, q, p))

cross-IsValid :
    (r : ResolvedConfig Num)
    → IsValidWorkers r.workers
    → IsValidRestart r.restart
    → IsValidShutdown r.shutdown
    → IsValidHealth r.health
    → AllPass (validate_cross_field_constraints r)
    → IsValid r
unfolding validate_cross_field_constraints
cross-IsValid r w' a s h (k, (q, (b, (w, (l, (p, _)))))) =
    let end = Within-is_number 1000 60000 r.shutdown.timeout_ms s.timeout in
    record {
      workers = w';
      restart = a;
      shutdown = s;
      health = h;
      kills_in_time =
          not_ge _ _ (plus-is_number 100 10000 100 10000 _ _ s.sigterm_delay s.sigint_delay) end
            (throw_if-false _ "shutdown.timeoutMs" k);
      acks_in_time =
          not_ge _ _ (Within-is_number 500 30000 _ s.ack_timeout) end
            (throw_if-false _ "shutdown.ackTimeoutMs" q);
      backoff_fits = throw_if-false _ "restart.maxBackoffMs" b;
      watch_needs_beats = watch _ _ h.heartbeat (throw_if-false _ "health.wedgedTimeoutMs" w);
      lag_needs_beats = needs_beats _ _ h.heartbeat (throw_if-false _ "health.maxEventLoopLagMs" l);
      spike_needs_beats = needs_beats _ _ h.heartbeat (throw_if-false _ "health.lagSpikeMs" p);
    }

all_checks-IsValid : (c : OrchestratorConfig) → AllPass (all_checks c) → IsValid (resolve c)
unfolding all_checks resolve
all_checks-IsValid c h =
    let ws = validate_workers_options (options_of no_workers c.workers) in
    let rs = validate_restart_options (options_of no_restart c.restart) in
    let ss = validate_shutdown_options (options_of no_shutdown c.shutdown) in
    let hs = validate_health_options (options_of no_health c.health) in
    let (_, h1) = AllPass-split (section_checks c) _ h in
    let (w, h2) = AllPass-split ws _ h1 in
    let (r, h3) = AllPass-split rs _ h2 in
    let (s, h4) = AllPass-split ss _ h3 in
    let (b, cross) = AllPass-split hs _ h4 in
    cross-IsValid (resolve c) (workers-IsValidWorkers (options_of no_workers c.workers) w)
      (restart-IsValidRestart (options_of no_restart c.restart) r)
      (shutdown-IsValidShutdown (options_of no_shutdown c.shutdown) s)
      (health-IsValidHealth (options_of no_health c.health) b) cross

pub valid-AllPass :
    (c : OrchestratorConfig) (r : ResolvedConfig Num)
    → validate_config c ≡ valid r
    → AllPass (all_checks c) × (resolve c ≡ r)
unfolding validate_config
valid-AllPass c r h = go (first (all_checks c)) refl h
  where
    go :
        (o : Option String)
        → first (all_checks c) ≡ o
        → (elim o as (λ x. Validated) [ some f ↦ invalid f | none ↦ valid (resolve c) ]) ≡ valid r
        → AllPass (all_checks c) × (resolve c ≡ r)
    go none q eq = (first-AllPass (all_checks c) q, cc eq)
    go (some f) q eq = absurd (cc eq)

-- A configuration that `validateConfig` returns is sound, whatever was passed to it: each number,
-- the workers' count, age and memory included, is finite and in its documented range (whole where it
-- counts something), defaults included; the kill
-- delays add up to less than the shutdown timeout and so does the ACK timeout; the first backoff is
-- at most the largest; and the wedged watch, the lag limit and the spike limit are on only with
-- heartbeats, the watch with at least two of them in its timeout.
pub validated-IsValid :
    (c : OrchestratorConfig) (r : ResolvedConfig Num) → validate_config c ≡ valid r → IsValid r
validated-IsValid c r h =
    let (passes, same) = valid-AllPass c r h in subst IsValid same (all_checks-IsValid c passes)
