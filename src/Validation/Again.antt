-- ===== src/Validation/Again.antt =====
-- packages/worker-manager/src/validation.ts: validating a resolved configuration.
use Prim.Native.String.{String}
use clusterkit.Common.{
  ℕ, ◌≡◌, refl, ap, sym, subst, false, ◌||◌, Option, none, some, List, [], ◌∷◌, ◌++◌, anyb, map,
  arith,
}
use clusterkit.EnvVars.{EnvVars}
use clusterkit.Config.{Count, ResolvedConfig, RestartConfig, HealthConfig}
use clusterkit.Validation.Numbers.{Num, whole, lt}
use clusterkit.Validation.Record.{
  EnvOption, no_env, not_an_object, env_object, ArgvOption, no_argv, not_an_array, argv_array,
  PrefixOption, no_prefix, not_a_string, prefix_string, WorkersOptions, ShutdownOptions,
  OrchestratorConfig, valid,
}
use clusterkit.Validation.Text.{is_blank, has_colon, trim, trim_start, trim_end, is_end}
use clusterkit.Validation.{
  first, if_given, default_to, assert_range, assert_positive_integer, assert_non_negative_integer,
  check_heartbeat, check_max_age, check_count, check_env, assert_plain_object, check_prefix,
  validate_exec_argv, bad_arg, dangerous_arg, validate_workers_options, validate_restart_options,
  validate_shutdown_options, validate_health_options, validate_cross_field_constraints,
}
use clusterkit.Validation.Given.{
  env_given, argv_given, workers_given, restart_given, shutdown_given, health_given, options_from,
}
use clusterkit.Validation.Sound.{valid-AllPass}
use clusterkit.Validation.Checks.{AllPass, AllPass-split, throw_if-false}
use clusterkit.Validation.Resolve.{
  options_of, no_workers, no_restart, no_shutdown, no_health, resolved_count, resolved_env,
  resolved_argv, resolved_prefix, strings, resolve_workers, resolve_restart, resolve_shutdown,
  resolve_health, resolve, unsupported_field, section_checks, all_checks, validate_config,
}

AllPass-append : (cs ds : List (Option String)) → AllPass cs → AllPass ds → AllPass (cs ++ ds)
AllPass-append [] ds p q = q
AllPass-append (c ∷ cs) ds p q = (p.0, AllPass-append cs ds p.1 q)

AllPass-first : (cs : List (Option String)) → AllPass cs → first cs ≡ none
unfolding first
AllPass-first [] p = refl
AllPass-first (none ∷ cs) p = AllPass-first cs p.1
AllPass-first (some f ∷ cs) p = absurd (cc p.0)

-- An option that passed passes again with its default filled in.
again :
    (check : Num → Option String) (o : Option Num) (d : ℕ)
    → check (whole d) ≡ none
    → if_given check o ≡ none
    → if_given check (some (default_to o d)) ≡ none
unfolding if_given default_to
again check none d p h = p
again check (some x) d p h = h

count_again :
    (o : Option (Count Num)) → check_count o ≡ none → check_count (some (resolved_count o)) ≡ none
unfolding check_count resolved_count
count_again none h = refl
count_again (some c) h = h

env_again : (o : EnvOption) → check_env o ≡ none → check_env (env_given (resolved_env o)) ≡ none
unfolding check_env resolved_env
env_again no_env h = refl
env_again not_an_object h = refl
env_again (env_object m) h = h

prefix_again :
    (o : PrefixOption)
    → check_prefix o ≡ none
    → check_prefix (prefix_string (resolved_prefix o)) ≡ none
unfolding check_prefix resolved_prefix is_blank has_colon trim trim_start trim_end is_end
prefix_again no_prefix h = refl
prefix_again not_a_string h = absurd (cc h)
prefix_again (prefix_string s) h = h

strings-some : (xs : List String) → strings (map some xs) ≡ xs
unfolding strings
strings-some [] = refl
strings-some (x ∷ xs) = ap (λ l. x ∷ l) (strings-some xs)

-- Where every element is a string, nothing is lost.
some-strings :
    (args : List (Option String)) → anyb bad_arg args ≡ false → map some (strings args) ≡ args
unfolding strings anyb
some-strings [] h = refl
some-strings (none ∷ args) h = absurd (cc h)
some-strings (some s ∷ args) h = ap (λ l. some s ∷ l) (some-strings args (ground (arith, h)))

argv_again :
    (o : ArgvOption)
    → validate_exec_argv o ≡ none
    → validate_exec_argv (argv_given (resolved_argv o)) ≡ none
unfolding validate_exec_argv resolved_argv
argv_again no_argv h = refl
argv_again not_an_array h = refl
argv_again (argv_array args) h =
    let q = throw_if-false (anyb bad_arg args || anyb dangerous_arg args) "workers.execArgv" h in
    rw (some-strings args (ground (arith, q))) h

workers_again :
    (w : WorkersOptions)
    → AllPass (validate_workers_options w)
    → AllPass (validate_workers_options (workers_given (resolve_workers w)))
unfolding validate_workers_options resolve_workers check_max_age assert_non_negative_integer lt
workers_again w (a, (b, (c, (d, (x, _))))) = (
  count_again w.count a,
  (
    again check_max_age w.max_age_ms 0 refl b,
    (
      again (assert_non_negative_integer "workers.maxRssMb") w.max_rss_mb 0 refl c,
      (env_again w.env d, (argv_again w.exec_argv x, tt)),
    ),
  ),
)

restart_again :
    (r : RestartConfig (Option Num))
    → AllPass (validate_restart_options r)
    → AllPass (validate_restart_options (restart_given (resolve_restart r)))
unfolding validate_restart_options resolve_restart assert_range assert_positive_integer
    assert_non_negative_integer lt
restart_again r (a, (b, (c, (d, (m, (s, (q, _))))))) = (
  again (assert_positive_integer "restart.crashThreshold") r.crash_threshold 5 refl a,
  (
    again (assert_range "restart.crashWindowMs" (whole 1000) (whole 600000)) r.crash_window_ms 60000
        refl b,
    (
      again (assert_range "restart.backoffMs" (whole 0) (whole 60000)) r.backoff_ms 1000 refl c,
      (
        again (assert_range "restart.maxBackoffMs" (whole 1000) (whole 300000)) r.max_backoff_ms
            30000 refl d,
        (
          again (assert_range "restart.backoffMultiplier" (whole 1) (whole 10)) r.backoff_multiplier
              2 refl m,
          (
            again (assert_range "restart.stabilityWindowMs" (whole 0) (whole 600000))
                r.stability_window_ms 30000 refl s,
            (
              again (assert_non_negative_integer "restart.bootFailQuarantine")
                  r.boot_fail_quarantine 0 refl q,
              tt,
            ),
          ),
        ),
      ),
    ),
  ),
)

shutdown_again :
    (s : ShutdownOptions)
    → AllPass (validate_shutdown_options s)
    → AllPass (validate_shutdown_options (shutdown_given (resolve_shutdown s)))
unfolding validate_shutdown_options resolve_shutdown assert_range lt
shutdown_again s (a, (b, (c, (d, (x, _))))) = (
  again (assert_range "shutdown.timeoutMs" (whole 1000) (whole 60000)) s.timeout_ms 12000 refl a,
  (
    again (assert_range "shutdown.ackTimeoutMs" (whole 500) (whole 30000)) s.ack_timeout_ms 3000
        refl b,
    (
      again (assert_range "shutdown.sigtermDelayMs" (whole 100) (whole 10000)) s.sigterm_delay_ms
          2000 refl c,
      (
        again (assert_range "shutdown.sigintDelayMs" (whole 100) (whole 10000)) s.sigint_delay_ms
            1000 refl d,
        (prefix_again s.message_prefix x, tt),
      ),
    ),
  ),
)

health_again :
    (h : HealthConfig (Option Num))
    → AllPass (validate_health_options h)
    → AllPass (validate_health_options (health_given (resolve_health h)))
unfolding validate_health_options resolve_health check_heartbeat assert_positive_integer
    assert_non_negative_integer lt
health_again h (a, (b, (c, (d, (n, (s, _)))))) = (
  again check_heartbeat h.heartbeat_ms 0 refl a,
  (
    again (assert_non_negative_integer "health.wedgedTimeoutMs") h.wedged_timeout_ms 0 refl b,
    (
      again (assert_non_negative_integer "health.degradedAfterMs") h.degraded_after_ms 0 refl c,
      (
        again (assert_non_negative_integer "health.maxEventLoopLagMs") h.max_event_loop_lag_ms 0
            refl d,
        (
          again (assert_positive_integer "health.lagRecycleBeats") h.lag_recycle_beats 3 refl n,
          (again (assert_non_negative_integer "health.lagSpikeMs") h.lag_spike_ms 0 refl s, tt),
        ),
      ),
    ),
  ),
)

resolved_env_again : (o : Option EnvVars) → resolved_env (env_given o) ≡ o
unfolding resolved_env
resolved_env_again none = refl
resolved_env_again (some m) = refl

resolved_argv_again : (o : Option (List String)) → resolved_argv (argv_given o) ≡ o
unfolding resolved_argv
resolved_argv_again none = refl
resolved_argv_again (some args) = ap some (strings-some args)

resolve-options_from : (r : ResolvedConfig Num) → resolve (options_from r) ≡ r
unfolding resolve resolve_workers resolve_restart resolve_shutdown resolve_health default_to
    resolved_count resolved_prefix
resolve-options_from r =
    rw (resolved_env_again r.workers.env, resolved_argv_again r.workers.exec_argv) refl

sections_pass : (r : ResolvedConfig Num) → AllPass (section_checks (options_from r))
unfolding section_checks assert_plain_object unsupported_field
sections_pass r = (refl, (refl, (refl, (refl, (refl, tt)))))

joined :
    (r : ResolvedConfig Num)
    → AllPass (validate_workers_options (workers_given r.workers))
    → AllPass (validate_restart_options (restart_given r.restart))
    → AllPass (validate_shutdown_options (shutdown_given r.shutdown))
    → AllPass (validate_health_options (health_given r.health))
    → AllPass (validate_cross_field_constraints r)
    → AllPass (all_checks (options_from r))
unfolding all_checks
joined r w a s h cross =
    let back : AllPass (validate_cross_field_constraints (resolve (options_from r))) =
      subst (λ r'. AllPass (validate_cross_field_constraints r')) (sym (resolve-options_from r))
        cross in
    AllPass-append (section_checks (options_from r)) _ (sections_pass r) (
      AllPass-append (validate_workers_options (workers_given r.workers)) _ w (
        AllPass-append (validate_restart_options (restart_given r.restart)) _ a (
          AllPass-append (validate_shutdown_options (shutdown_given r.shutdown)) _ s
            (AllPass-append (validate_health_options (health_given r.health)) _ h back))))

all_checks_again :
    (c : OrchestratorConfig)
    → AllPass (all_checks c)
    → AllPass (all_checks (options_from (resolve c)))
unfolding all_checks resolve
all_checks_again c h =
    let wo = options_of no_workers c.workers in
    let ro = options_of no_restart c.restart in
    let so = options_of no_shutdown c.shutdown in
    let ho = options_of no_health c.health in
    let (_, h1) = AllPass-split (section_checks c) _ h in
    let (w, h2) = AllPass-split (validate_workers_options wo) _ h1 in
    let (r, h3) = AllPass-split (validate_restart_options ro) _ h2 in
    let (s, h4) = AllPass-split (validate_shutdown_options so) _ h3 in
    let (b, cross) = AllPass-split (validate_health_options ho) _ h4 in
    joined (resolve c) (workers_again wo w) (restart_again ro r) (shutdown_again so s)
      (health_again ho b) cross

accepted :
    (r : ResolvedConfig Num)
    → AllPass (all_checks (options_from r))
    → validate_config (options_from r) ≡ valid r
unfolding validate_config
accepted r h =
    rw (validate_config, AllPass-first (all_checks (options_from r)) h)
      (ap valid (resolve-options_from r))

-- Validating is idempotent: what `validateConfig` returns, passed to it again as options, is
-- accepted and comes back unchanged.
pub validate_config_again :
    (c : OrchestratorConfig) (r : ResolvedConfig Num)
    → validate_config c ≡ valid r
    → validate_config (options_from r) ≡ valid r
validate_config_again c r h =
    let (passes, same) = valid-AllPass c r h in
    subst (λ r'. validate_config (options_from r') ≡ valid r') same
      (accepted (resolve c) (all_checks_again c passes))
