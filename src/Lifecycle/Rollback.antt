-- ===== src/Lifecycle/Rollback.antt =====
-- packages/worker-manager/src/orchestrator.ts: what a failing install leaves behind.
use Prim.Native.String.{String}
use clusterkit.Common.{
  ◌≡◌, refl, sym, ap, subst, Bool, true, false, Option, none, some, List, [], ◌∷◌, ◌++◌, ◌⊎◌, inl,
  inr, if_cases,
}
use mathlib.Core.List.{append_assoc, append-nil}
use clusterkit.Lifecycle.{
  Plugin, Failure, uninstall_one, uninstall_plugins, install_from, install_plugins, Guards, Run,
  already_called, run_primary, run_worker, run,
}

module _ {W : Type 0} where
  -- Every install succeeds, from one state to the other.
  abbrev pub Succeeds : List (Plugin W) → W → W → Type 0
  Succeeds [] w v = w ≡ v
  Succeeds (p ∷ ps) w v = ((p.install w).1 ≡ none) × Succeeds ps (p.install w).0 v

  -- The uninstall of each plugin that has one, in their order, from one state to the other, whether
  -- or not it throws.
  abbrev Uninstalls : Option (W → W × Option String) → W → W → Type 0
  Uninstalls none w v = w ≡ v
  Uninstalls (some uninstall) w v = (uninstall w).0 ≡ v

  abbrev pub RolledBack : List (Plugin W) → W → W → Type 0
  RolledBack [] w v = w ≡ v
  RolledBack (p ∷ ps) w v = (u : W) × Uninstalls p.uninstall w u × RolledBack ps u v

  uninstall_one_lem :
      (o : Option (W → W × Option String)) (w : W) → Uninstalls o w (uninstall_one o w)
  unfolding uninstall_one
  uninstall_one_lem none w = refl
  uninstall_one_lem (some uninstall) w = refl

  uninstall_plugins_lem : (ps : List (Plugin W)) (w : W) → RolledBack ps w (uninstall_plugins ps w)
  unfolding uninstall_plugins
  uninstall_plugins_lem [] w = refl
  uninstall_plugins_lem (p ∷ ps) w =
      let u = uninstall_one p.uninstall w in
      (u, uninstall_one_lem p.uninstall w, uninstall_plugins_lem ps u)

  -- The plugins before the one that fails, that one, and those after it.
  pub record Fails (installed ps : List (Plugin W)) (w : W) (r : W × Option Failure) : Type 0 where
    pub before : List (Plugin W)
    pub failing : Plugin W
    pub after : List (Plugin W)
    pub reached : W
    pub err : String
    pub split : ps ≡ before ++ failing ∷ after
    pub succeeded : Succeeds before w reached
    pub threw : (failing.install reached).1 ≡ some err
    pub rolled_back : RolledBack (installed ++ before) (failing.install reached).0 r.0
    pub reported : r.1 ≡ some (failing.name, err)

  abbrev pub Outcome : List (Plugin W) → List (Plugin W) → W → W × Option Failure → Type 0
  Outcome installed ps w r = ((r.1 ≡ none) × Succeeds ps w r.0) ⊎ Fails installed ps w r

  grown :
      (installed : List (Plugin W)) (p : Plugin W) (ps : List (Plugin W)) (w : W)
      (r : W × Option Failure)
      → (p.install w).1 ≡ none
      → Outcome (installed ++ p ∷ []) ps (p.install w).0 r
      → Outcome installed (p ∷ ps) w r
  grown installed p ps w r h (inl (e, s)) = inl (e, (h, s))
  grown installed p ps w r h (inr f) = inr (record {
    before = p ∷ f.before;
    failing = f.failing;
    after = f.after;
    reached = f.reached;
    err = f.err;
    split = ap (λ (qs : List (Plugin W)). p ∷ qs) f.split;
    succeeded = (h, f.succeeded);
    threw = f.threw;
    rolled_back =
        subst (λ (qs : List (Plugin W)). RolledBack qs (f.failing.install f.reached).0 r.0)
          (append_assoc installed (p ∷ []) f.before) f.rolled_back;
    reported = f.reported;
  })

  install_from-Outcome :
      (installed ps : List (Plugin W)) (w : W)
      → Outcome installed ps w (install_from installed ps w)
  unfolding install_from
  install_from-Outcome installed [] w = inl (refl, refl)
  install_from-Outcome installed (p ∷ ps) w =
      go ((p.install w).1) refl (install_from-Outcome (installed ++ p ∷ []) ps (p.install w).0)
    where
      go :
          (o : Option String)
          → (p.install w).1 ≡ o
          → Outcome
              (installed ++ p ∷ [])
              ps
              (p.install w).0
              (install_from (installed ++ p ∷ []) ps (p.install w).0)
          → Outcome installed (p ∷ ps) w (elim o [
            | none ↦ install_from (installed ++ p ∷ []) ps (p.install w).0
            | some err ↦ (uninstall_plugins installed (p.install w).0, some (p.name, err))
          ])
      go none h rest =
          grown installed p ps w (install_from (installed ++ p ∷ []) ps (p.install w).0) h rest
      go (some err) h rest = inr (record {
        before = [];
        failing = p;
        after = ps;
        reached = w;
        err = err;
        split = refl;
        succeeded = refl;
        threw = h;
        rolled_back =
            subst
              (λ (qs : List (Plugin W)).
                RolledBack qs (p.install w).0 (uninstall_plugins installed (p.install w).0))
              (sym (append-nil installed)) (uninstall_plugins_lem installed (p.install w).0);
        reported = refl;
      })

  -- Installing the plugins is all or nothing: either each install succeeds, in their order, or
  -- one throws, those after it are not touched, and those before it, and only they, are uninstalled
  -- in their order, each whatever the others throw; the error names the plugin that threw.
  pub install_plugins-Outcome :
      (ps : List (Plugin W)) (w : W) → Outcome [] ps w (install_plugins ps w)
  unfolding install_plugins
  install_plugins-Outcome ps w = install_from-Outcome [] ps w

  primary_started :
      (start : W → W) (g : Guards W) (w : W) → (run_primary start g w).0.0.is_primary_started ≡ true
  unfolding run_primary
  primary_started start g w =
      if_cases (λ (r : (Guards W × W) × Run). r.0.0.is_primary_started ≡ true) g.is_primary_started
        _ _ (λ h. h) (λ _. refl)

  primary_repeated :
      (start : W → W) (g : Guards W) (w : W)
      → g.is_primary_started ≡ true
      → run_primary start g w ≡ ((g, w), already_called)
  unfolding run_primary
  primary_repeated start g w h =
      if_cases (λ (r : (Guards W × W) × Run). r ≡ ((g, w), already_called)) g.is_primary_started _ _
        (λ _. refl) (λ e. absurd (cc (e, h)))

  worker_started :
      (start : W → W) (g : Guards W) (w : W) → (run_worker start g w).0.0.is_worker_started ≡ true
  unfolding run_worker
  worker_started start g w =
      if_cases (λ (r : (Guards W × W) × Run). r.0.0.is_worker_started ≡ true) g.is_worker_started _
        _ (λ h. h) (λ _. refl)

  worker_repeated :
      (start : W → W) (g : Guards W) (w : W)
      → g.is_worker_started ≡ true
      → run_worker start g w ≡ ((g, w), already_called)
  unfolding run_worker
  worker_repeated start g w h =
      if_cases (λ (r : (Guards W × W) × Run). r ≡ ((g, w), already_called)) g.is_worker_started _ _
        (λ _. refl) (λ e. absurd (cc (e, h)))

  -- A refused start is final: the call of run that an install refuses leaves its guard set, so that
  -- a second call, whatever the plugins would do by then, changes nothing and is refused as a
  -- repetition, in the primary and in a worker.
  pub run_again :
      (is_primary : Bool) (primary worker : W → W) (g : Guards W) (w v : W)
      → let once = run is_primary primary worker g w in
        run is_primary primary worker once.0.0 v ≡ ((once.0.0, v), already_called)
  unfolding run
  run_again true primary worker g w v =
      primary_repeated primary (run_primary primary g w).0.0 v (primary_started primary g w)
  run_again false primary worker g w v =
      worker_repeated worker (run_worker worker g w).0.0 v (worker_started worker g w)
