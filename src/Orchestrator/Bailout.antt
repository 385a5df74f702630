-- ===== src/Orchestrator/Bailout.antt =====
-- packages/worker-manager/src/orchestrator.ts: a rolling restart where no fork succeeds.
use clusterkit.Common.{
  ℕ, ◌+◌, ◌≤◌, ◌<◌, ◌≡◌, refl, ◌∙◌, true, false, not, Option, none, some, List, [], ◌∷◌, if_cases,
  has, length, All, arith,
}
use clusterkit.EnvVars.{EnvVars}
use clusterkit.Fleet.Record.{Host, Env}
use clusterkit.Fleet.{fork_worker}
use clusterkit.Fleet.Outcome.{Forked, failed, started, fork_worker-Forked}
use clusterkit.Restart.{note_fork_failure, is_fork_env_unrecoverable}
use clusterkit.Orchestrator.Record.{System, not_rolling}
use clusterkit.Orchestrator.Roll.{roll_from}

-- Every fork throws.
abbrev pub NeverForks : Env → Type 0
NeverForks e = (n : ℕ) (o : Option EnvVars) → e.spawn n o ≡ none

-- The roll was given up: the exit code says so, and every old worker was left as it was.
pub record Abandoned (s r : System) : Type 0 where
  pub exit_code : r.host.exit_code ≡ 1
  pub roll : r.roll ≡ not_rolling
  pub live : r.host.live ≡ s.host.live
  pub recycling : r.host.recycling ≡ s.host.recycling
  pub drains : r.host.drains ≡ s.host.drains
  pub events : r.host.events ≡ s.host.events

-- What a failed fork leaves alone.
record Unforked (h : Host) (r : Option ℕ × Host) : Type 0 where
  worker : r.0 ≡ none
  live : r.1.live ≡ h.live
  recycling : r.1.recycling ≡ h.recycling
  drains : r.1.drains ≡ h.drains
  events : r.1.events ≡ h.events
  down : r.1.shutting_down ≡ h.shutting_down

fork_worker-Unforked :
    (e : Env) (o : Option EnvVars) (h : Host) → NeverForks e → Unforked h (fork_worker e o h)
fork_worker-Unforked e o h never = go (fork_worker-Forked e o h)
  where
    go : Forked e h (fork_worker e o h) → Unforked h (fork_worker e o h)
    go (failed a b s lo hi q) = rw q (record {
      worker = refl;
      live = refl;
      recycling = refl;
      drains = refl;
      events = refl;
      down = refl;
    })
    go (started id n env b s sp q) = absurd (cc (sp.2, never n env))

-- The choice that the roll makes on a failed fork.
none_case :
    (P : System → Type 0) (w : Option ℕ) (x : System) (f : ℕ → System)
    → w ≡ none
    → P x
    → P (elim w [ none ↦ x | some new ↦ f new ])
none_case P none x f q p = p
none_case P (some n) x f q p = absurd (cc q)

Abandoned-trans :
    (s t r : System) (h : Host)
    → t.host ≡ h
    → h.live ≡ s.host.live
    → h.recycling ≡ s.host.recycling
    → h.drains ≡ s.host.drains
    → h.events ≡ s.host.events
    → Abandoned t r
    → Abandoned s r
Abandoned-trans s t r h q a b c d v = record {
  exit_code = v.exit_code;
  roll = v.roll;
  live = v.live ∙ rw q a;
  recycling = v.recycling ∙ rw q b;
  drains = v.drains ∙ rw q c;
  events = v.events ∙ rw q d;
}

-- A rolling restart in an environment where forking fails: with three live targets or more
-- (counting failures before it), it gives up, sets exit code 1, ends the roll, and has neither
-- marked nor drained any worker nor told its listeners of a completed restart.
pub roll_from-Abandoned :
    (e : Env) (o : Option EnvVars) (stagger : ℕ) (done ws : List ℕ) (s : System)
    → NeverForks e
    → s.host.shutting_down ≡ false
    → All (λ id. has id s.host.live ≡ true) ws
    → s.coord.fork_failures < 3
    → 3 ≤ s.coord.fork_failures + length ws
    → Abandoned s (roll_from e o stagger done ws s)
unfolding roll_from note_fork_failure
roll_from-Abandoned e o stagger done [] s never up alive few enough =
    absurd (omega (arith, few, enough))
roll_from-Abandoned e o stagger done (old ∷ rest) s never up alive few enough =
    let h = (fork_worker e o s.host).1 in
    let u = fork_worker-Unforked e o s.host never in
    let t : System = record s { core = record { host = h; coord = note_fork_failure s.coord } } in
    if_cases (Abandoned s) s.host.shutting_down _ _ (λ q. absurd (cc (q, up)))
      λ _.
        if_cases (Abandoned s) (not (has old s.host.live)) _ _
          (λ q. absurd (ground (arith, q, alive.0)))
          λ _. none_case (Abandoned s) (fork_worker e o s.host).0 _ _ u.worker (
            if_cases (Abandoned s) (is_fork_env_unrecoverable t.coord) _ _
              (λ _. record {
                exit_code = refl;
                roll = refl;
                live = u.live;
                recycling = u.recycling;
                drains = u.drains;
                events = u.events;
              })
              (λ more. Abandoned-trans s t _ h refl u.live u.recycling u.drains u.events (
                roll_from-Abandoned e o stagger done rest t never (u.down ∙ up) (rw u.live alive.1)
                  (ground (arith, more)) (omega (arith, enough)))))
