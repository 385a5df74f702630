-- ===== src/Orchestrator/Roll.antt =====
-- packages/worker-manager/src/orchestrator.ts: `restartWorkers` and `rollWorkers`, from one
-- suspension to the next.
use clusterkit.Common.{
  ℕ, ◌-◌, Bool, not, Option, none, some, List, [], ◌∷◌, ◌++◌, if◌then◌else◌, ltb, has, filterb,
}
use clusterkit.EnvVars.{EnvVars, is_safe_env}
use clusterkit.Config.{restart_start, restart_complete}
use clusterkit.Fleet.Record.{Host, Env, emit}
use clusterkit.Fleet.{fork_worker, mark_for_recycling}
use clusterkit.Restart
use clusterkit.Orchestrator.Record.{System, with_host, Roll, not_rolling, awaiting, staggering}
use clusterkit.Orchestrator.{handle_worker_recycle}

-- A complete roll tells its listeners and refills what is missing.
unfoldable pub roll_complete : Env → List ℕ → System → System
roll_complete e done s =
    let told : Host = emit (restart_complete done) s.host in
    record s {
      core =
          Restart.request_capacity_refill e (e.target - told.metrics.active_workers)
            (record { host = told; coord = s.coord });
      roll = not_rolling;
    }

-- Cut short by a shutdown: nothing is emitted.
abbrev pub roll_aborted : System → System
roll_aborted s = record s { roll = not_rolling }

-- The fork environment is dead: a failure exit code.
abbrev pub roll_bailout : System → System
roll_bailout s = with_host (record s.host { exit_code = 1 }) (record s { roll = not_rolling })

-- The replacement exists: mark the old worker, start its drain, wait for its exit.
unfoldable pub roll_replaced : ℕ → ℕ → List ℕ → List ℕ → Option EnvVars → ℕ → System → System
roll_replaced old new rest done overlay stagger s = record s {
  core = record {
    host = handle_worker_recycle old new (mark_for_recycling old s.host);
    coord = Restart.note_fork_success s.coord;
  };
  roll = awaiting old rest done overlay stagger;
}

-- A failed fork: the third in a row ends the roll, else it goes on.
abbrev pub roll_failed : System → System → System
roll_failed failed go_on =
    if Restart.is_fork_env_unrecoverable failed.coord then roll_bailout failed else go_on

-- The loop over the targeted workers, up to its next wait or its end.
unfoldable pub roll_from : Env → Option EnvVars → ℕ → List ℕ → List ℕ → System → System
roll_from e overlay stagger done [] s = roll_complete e done s
roll_from e overlay stagger done (old ∷ rest) s =
    let skip = roll_from e overlay stagger done rest s in
    let (w, h) = fork_worker e overlay s.host in
    let failed : System = record s {
      core = record { host = h; coord = Restart.note_fork_failure s.coord };
    } in
    let go_on = roll_from e overlay stagger done rest failed in
    if s.host.shutting_down
    then roll_aborted s
    else if not (has old s.host.live)
    then skip
    else elim w [
      | none ↦ roll_failed failed go_on
      | some new ↦ roll_replaced old new rest done overlay stagger (with_host h s)
    ]

-- `restartWorkers`; `none` where the overlay is refused.
unfoldable pub restart_workers : Env → Option EnvVars → (ℕ → Bool) → ℕ → System → Option System
unfolding is_safe_env
restart_workers e overlay filter stagger s =
    let targeted = filterb filter s.host.live in
    let begun : System = record s {
      core = record {
        host = emit (restart_start targeted) s.host;
        coord = Restart.reset_quarantine s.coord;
      };
    } in
    if not (is_safe_env overlay)
    then none
    else if s.host.shutting_down
    then some s
    else elim s.roll [
      | not_rolling ↦ some (roll_from e overlay stagger [] targeted begun)
      | _ ↦ some s
    ]

-- The wait for the old worker's exit is over.
unfoldable pub roll_exit_at : Env → Roll → System → System
roll_exit_at e (awaiting old rest done overlay stagger) s =
    if ltb 0 stagger
    then record s { roll = staggering rest (done ++ old ∷ []) overlay stagger }
    else roll_from e overlay stagger (done ++ old ∷ []) rest s
roll_exit_at e not_rolling s = s
roll_exit_at e (staggering rest done overlay stagger) s = s

unfoldable pub roll_exit : Env → System → System
unfolding roll_exit_at
roll_exit e s = roll_exit_at e s.roll s

-- The pause is over.
unfoldable pub roll_pause_at : Env → Roll → System → System
roll_pause_at e (staggering rest done overlay stagger) s = roll_from e overlay stagger done rest s
roll_pause_at e not_rolling s = s
roll_pause_at e (awaiting old rest done overlay stagger) s = s

unfoldable pub roll_pause : Env → System → System
unfolding roll_pause_at
roll_pause e s = roll_pause_at e s.roll s
