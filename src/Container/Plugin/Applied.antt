-- ===== src/Container/Plugin/Applied.antt =====
-- packages/plugin-container-sizing/src/index.ts: an installation in the primary before the fork.
use native.Mathlib.Nat.{div-one, mod-one}
use Prim.Native.String.{String}
use clusterkit.Common.{
  ℕ, ◌≤◌, ◌≡◌, refl, ap, ◌∙◌, Bool, true, false, not, ◌&&◌, ◌||◌, Option, some, [], ◌∷◌,
  if◌then◌else◌, if_cases, anyb, arith,
}
use clusterkit.Config.{Count, auto, fixed}
use clusterkit.EnvVars.{EnvVars, set_env, is_forbidden}
use clusterkit.Texts.{is_empty}
use clusterkit.Validation.Numbers.{whole, lt, is_integer}
use clusterkit.Sizing.{Sizing, override_worker_count, is_auto, max_auto_workers}
use clusterkit.Lifecycle.{Guards, patch_worker_env}
use clusterkit.Container.{SizingResult, calculate_sizing}
use clusterkit.Container.Bounds.{calculate_sizing-IsSized}
use clusterkit.Container.Plugin.{
  CompileCache, off, on, directory, PluginOptions, Environment, Target, cache_env, build_worker_env,
  is_limited, overridden, patched_guards, applied, apply_sizing, install,
}

-- Neither of the two keys is forbidden.
abbrev Allows : EnvVars → Type 0
Allows env = anyb (λ kv. is_forbidden kv.0) env ≡ false

cache-Allows :
    (b : Bool) (v d : String) (c : CompileCache)
    → Allows (cache_env c d (if b then set_env "NODE_OPTIONS" v [] else []))
unfolding cache_env set_env anyb is_forbidden
cache-Allows true v d off = refl
cache-Allows true v d on = refl
cache-Allows true v d (directory s) = if_cases Allows (is_empty s) _ _ (λ _. refl) (λ _. refl)
cache-Allows false v d off = refl
cache-Allows false v d on = refl
cache-Allows false v d (directory s) = if_cases Allows (is_empty s) _ _ (λ _. refl) (λ _. refl)

env-Allows :
    (e : Environment) (o : PluginOptions) (w : Option EnvVars) (s : String)
    → Allows (build_worker_env e o w s)
unfolding build_worker_env
env-Allows e o w s = cache-Allows o.inject_node_options _ e.cache_directory o.compile_cache

patches :
    (env : EnvVars) (g : Guards Unit)
    → Allows env
    → g.has_forked ≡ false
    → (h : Guards Unit) × (patched_guards env g ≡ some h)
unfolding patched_guards patch_worker_env
patches [] g a f = (g, refl)
patches (kv ∷ env) g a f =
    if_cases (λ (o : Option (Guards Unit)). (h : Guards Unit) × (o ≡ some h)) g.has_forked _ _
      (λ b. absurd (cc (b, f)))
      (λ _.
        if_cases (λ (o : Option (Guards Unit)). (h : Guards Unit) × (o ≡ some h))
          (anyb (λ kv. is_forbidden kv.0) (kv ∷ env)) _ _ (λ b. absurd (cc (b, a)))
          (λ _. (_, refl)))

-- The override accepts the count of a sizing.
accepts :
    (n : ℕ) (s : Sizing)
    → 1 ≤ n
    → n ≤ max_auto_workers
    → s.count ≡ auto
    → s.has_forked ≡ false
    → overridden true auto n s ≡ some (record s { count = fixed n })
unfolding overridden override_worker_count lt
accepts n s a b c f =
    let P : Option Sizing → Type 0 = λ o. o ≡ some (record s { count = fixed n }) in
    if_cases P (lt (whole n) (whole 1) || not (is_integer (whole n))) _ _
      (λ e. absurd (ground (arith, e, a, mod-one n)))
      λ _.
        if_cases P (lt (whole max_auto_workers) (whole n)) _ _ (λ e. absurd (ground (arith, e, b)))
          λ _.
            if_cases P (not (is_auto s.count)) _ _
              (λ e. absurd (cc (e, ap (λ k. not (is_auto k)) c)))
              λ _.
                if_cases P s.has_forked _ _ (λ e. absurd (cc (e, f)))
                  (λ _. ap (λ (k : ℕ). some (record s { count = fixed k })) (div-one n))

-- The two guards of the installation.
install_path :
    (e : Environment) (o : PluginOptions) (t : Target)
    → e.is_primary ≡ true
    → (is_limited e.limits || o.fallback) ≡ true
    → install e o t ≡ apply_sizing e o (calculate_sizing e.limits e.host o.sizing_options) t
unfolding install
install_path e o t p l =
    let x = apply_sizing e o (calculate_sizing e.limits e.host o.sizing_options) t in
    if_cases (λ (y : Option Target). y ≡ x) (not e.is_primary) _ _
      (λ b. absurd (ground (arith, b, p)))
      λ _.
        if_cases (λ (y : Option Target). y ≡ x) (not (is_limited e.limits) && not o.fallback) _ _
          (λ b. absurd (ground (arith, b, l))) (λ _. refl)

-- In the primary and before the fork, with limits found or the fallback allowed, with options that
-- are not refused and the automatic count to be overridden, the installation does not throw: the
-- fleet is to have the count of the sizing, which is the one that the plugin shows.
pub install_sizes :
    (e : Environment) (o : PluginOptions) (t : Target) (r : SizingResult)
    → e.is_primary ≡ true
    → (is_limited e.limits || o.fallback) ≡ true
    → o.override_count ≡ true
    → calculate_sizing e.limits e.host o.sizing_options ≡ some r
    → t.count.count ≡ auto
    → t.count.has_forked ≡ false
    → t.guards.has_forked ≡ false
    → (u : Target) × (install e o t ≡ some u)
      × (u.sizing ≡ some r)
      × (u.count.count ≡ fixed r.workers)
unfolding apply_sizing applied
install_sizes e o t r p l v h c f g =
    let sized = calculate_sizing-IsSized e.limits e.host o.sizing_options r h in
    let env = build_worker_env e o t.guards.worker_env r.node_options in
    let (k, q) = patches env t.guards (env-Allows e o t.guards.worker_env r.node_options) g in
    let s : Sizing = record (t.count) { count = fixed r.workers } in
    let a = accepts r.workers t.count sized.some_worker sized.bounded c f in
    (
      record { count = s; guards = k; sizing = some r },
      install_path e o t p l
          ∙ (ap (λ (x : Option SizingResult). apply_sizing e o x t) h ∙ (λ i.
              applied r
                ((ap (λ (z : Bool × Count ℕ). overridden z.0 z.1 r.workers t.count)
                      (λ j. (v j, c j))
                    ∙ a)
                  i)
                (q i))),
      refl,
      refl,
    )
