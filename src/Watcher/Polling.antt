-- ===== src/Watcher/Polling.antt =====
-- packages/plugin-file-watcher/src/index.ts: the comparison of `process.env` with its snapshot.
use Prim.Native.String.{String}
use text.Mathlib.Text.{◌==◌ as str_eq}
use text.Mathlib.TextEquality.{eq_iff}
use clusterkit.Common.{
  subst, ◌≡◌, refl, sym, ap, ◌∙◌, Bool, true, false, Option, none, some, List, [], ◌∷◌, anyb, arith,
  inl, inr, ◌↔◌, All-weaken, Option-cases, ◌≢◌, Bool-cases, All,
}
use clusterkit.EnvVars.{EnvVars, get_env}
use clusterkit.Watcher.Sources.{env_changed, differs, is_missing}

-- No key stands twice.
abbrev pub Distinct : EnvVars → Type 0
Distinct [] = Unit
Distinct ((k, v) ∷ m) = (get_env k m ≡ none) × Distinct m

-- A test that no element passes.
none_passes {ℓ} :
    {A : Type ℓ} (p : A → Bool) (xs : List A) → anyb p xs ≡ false → All (λ x. p x ≡ false) xs
unfolding anyb
none_passes p [] h = tt
none_passes p (x ∷ xs) h = (ground (arith, h), none_passes p xs (ground (arith, h)))

fails-All {ℓ} :
    {A : Type ℓ} (p : A → Bool) (xs : List A) → All (λ x. p x ≡ false) xs → anyb p xs ≡ false
unfolding anyb
fails-All p [] h = refl
fails-All p (x ∷ xs) (h, hs) = ground (arith, h, fails-All p xs hs)

same_value : (o : Option String) (v : String) → differs o v ≡ false → o ≡ some v
unfolding differs
same_value none v h = cc
same_value (some u) v h = ground (arith, h, eq_iff u v)

no_difference : (o : Option String) (v : String) → o ≡ some v → differs o v ≡ false
unfolding differs
no_difference none v h = cc
no_difference (some u) v h = ground (arith, h, eq_iff u v)

some_value : (o : Option String) → is_missing o ≡ false → o ≢ none
unfolding is_missing
some_value none h = cc
some_value (some u) h = λ e. cc

get_hit : (j k u : String) (m : EnvVars) → str_eq j k ≡ true → get_env k ((j, u) ∷ m) ≡ some u
unfolding get_env
get_hit j k u m h = ground (arith, h)

get_miss :
    (j k u : String) (m : EnvVars) → str_eq j k ≡ false → get_env k ((j, u) ∷ m) ≡ get_env k m
unfolding get_env
get_miss j k u m h = ground (arith, h)

-- What the first loop establishes.
values_agree :
    (k v : String) (snapshot m : EnvVars)
    → All (λ kv. get_env kv.0 snapshot ≡ some kv.1) m
    → get_env k m ≡ some v
    → get_env k snapshot ≡ some v
unfolding get_env
values_agree k v snapshot [] h e = cc
values_agree k v snapshot ((j, u) ∷ m) (h, hs) e =
    elim (Bool-cases (str_eq j k)) as (λ _. get_env k snapshot ≡ some v) [
      | inl b ↦
          subst (λ (i : String). get_env i snapshot ≡ some v) ((eq_iff j k).0 b)
            (h ∙ (sym (get_hit j k u m b) ∙ e))
      | inr b ↦ values_agree k v snapshot m hs (sym (get_miss j k u m b) ∙ e)
    ]

-- What the second one does.
keys_agree :
    (k : String) (current m : EnvVars)
    → All (λ kv. get_env kv.0 current ≢ none) m
    → get_env k current ≡ none
    → get_env k m ≡ none
keys_agree k current [] h e = unfold get_env in refl
keys_agree k current ((j, u) ∷ m) (h, hs) e =
    elim (Bool-cases (str_eq j k)) as (λ _. get_env k ((j, u) ∷ m) ≡ none) [
      | inl b ↦ absurd (h (ap (λ (i : String). get_env i current) ((eq_iff j k).0 b) ∙ e))
      | inr b ↦ get_miss j k u m b ∙ keys_agree k current m hs e
    ]

-- A key that is not there is none of the keys that are.
other_key :
    (j k v : String) (m : EnvVars) → get_env j m ≡ none → get_env k m ≡ some v → str_eq j k ≡ false
other_key j k v m h e = elim (Bool-cases (str_eq j k)) as (λ _. str_eq j k ≡ false) [
  | inl b ↦ absurd (cc (sym h ∙ (ap (λ (i : String). get_env i m) ((eq_iff j k).0 b) ∙ e)))
  | inr b ↦ b
]

-- With every key there once, an entry's value is what its key has.
looked_up :
    (m rest : EnvVars)
    → Distinct rest
    → All (λ kv. get_env kv.0 rest ≡ some kv.1) m
    → (j u : String) → get_env j rest ≡ none
    → All (λ kv. get_env kv.0 ((j, u) ∷ rest) ≡ some kv.1) m
looked_up [] rest d h j u n = tt
looked_up ((k, v) ∷ m) rest d (h, hs) j u n =
    (get_miss j k u rest (other_key j k v rest n h) ∙ h, looked_up m rest d hs j u n)

entries_found : (m : EnvVars) → Distinct m → All (λ kv. get_env kv.0 m ≡ some kv.1) m
entries_found [] d = tt
entries_found ((k, v) ∷ m) d =
    (get_hit k k v m ((eq_iff k k).1 refl), looked_up m m d.1 (entries_found m d.1) k v d.0)

-- The poll finds process.env unchanged exactly when every key has in it what it has in the
-- snapshot, each environment having every key once.
pub env_changed_iff :
    (snapshot current : EnvVars)
    → Distinct snapshot
    → Distinct current
    → (env_changed snapshot current ≡ false)
      ↔ ((k : String) → get_env k snapshot ≡ get_env k current)
unfolding env_changed
env_changed_iff snapshot current ds dc = (agree, unchanged)
  where
    agree :
        env_changed snapshot current ≡ false → (k : String) → get_env k snapshot ≡ get_env k current
    agree h k =
        let a =
          none_passes (λ kv. differs (get_env kv.0 snapshot) kv.1) current (ground (arith, h)) in
        let b =
          none_passes (λ kv. is_missing (get_env kv.0 current)) snapshot (ground (arith, h)) in
        elim (Option-cases (get_env k current)) as (λ _. get_env k snapshot ≡ get_env k current) [
          | inl e ↦
              keys_agree k current snapshot
                (All-weaken (λ (kv : String × String). is_missing (get_env kv.0 current) ≡ false)
                  (λ (kv : String × String). get_env kv.0 current ≢ none) snapshot
                  (λ kv. some_value (get_env kv.0 current)) b)
                e
              ∙ sym e
          | inr (v, e) ↦
              values_agree k v snapshot current
                (All-weaken (λ (kv : String × String). differs (get_env kv.0 snapshot) kv.1 ≡ false)
                  (λ (kv : String × String). get_env kv.0 snapshot ≡ some kv.1) current
                  (λ kv. same_value (get_env kv.0 snapshot) kv.1) a)
                e
              ∙ sym e
        ]

    unchanged :
        ((k : String) → get_env k snapshot ≡ get_env k current)
        → env_changed snapshot current ≡ false
    unchanged g =
        let a =
          fails-All (λ kv. differs (get_env kv.0 snapshot) kv.1) current
            (All-weaken (λ (kv : String × String). get_env kv.0 current ≡ some kv.1)
              (λ (kv : String × String). differs (get_env kv.0 snapshot) kv.1 ≡ false) current
              (λ kv h. no_difference (get_env kv.0 snapshot) kv.1 (g kv.0 ∙ h))
              (entries_found current dc)) in
        let b =
          fails-All (λ kv. is_missing (get_env kv.0 current)) snapshot
            (All-weaken (λ (kv : String × String). get_env kv.0 snapshot ≡ some kv.1)
              (λ (kv : String × String). is_missing (get_env kv.0 current) ≡ false) snapshot
              (λ kv h. unfold is_missing in ap is_missing (sym (g kv.0) ∙ h))
              (entries_found snapshot ds)) in
        ground (arith, a, b)
