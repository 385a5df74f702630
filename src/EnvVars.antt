-- ===== src/EnvVars.antt =====
-- Environment objects (`NodeJS.ProcessEnv`): own keys in insertion order, one value each.
-- packages/worker-manager/src/validation.ts (`assertSafeEnvObject`), and the object spread of
-- packages/worker-manager/src/worker-manager.ts (`forkWorker`).
use Prim.Native.String.{String}
use text.Mathlib.Text.{◌==◌ as str_eq}
use text.Mathlib.TextEquality.{eq_iff}
use clusterkit.Common.{
  ◌≡◌, refl, Bool, true, false, ◌||◌, Option, none, some, List, [], ◌∷◌, if◌then◌else◌, anyb, arith,
}

abbrev pub EnvVars : Type 0
EnvVars = List (String × String)

unfoldable pub get_env : String → EnvVars → Option String
get_env k [] = none
get_env k ((j, v) ∷ m) = if str_eq j k then some v else get_env k m

-- An assignment `env[k] = v`.
unfoldable pub set_env : String → String → EnvVars → EnvVars
set_env k v [] = (k, v) ∷ []
set_env k v ((j, w) ∷ m) = if str_eq j k then (j, v) ∷ m else (j, w) ∷ set_env k v m

-- `{ ...base, ...overlay }` and `Object.assign(base, overlay)`.
unfoldable pub spread : EnvVars → EnvVars → EnvVars
spread base [] = base
spread base ((k, v) ∷ m) = spread (set_env k v base) m

-- `FORBIDDEN_ENV_KEYS`.
unfoldable pub is_forbidden : String → Bool
is_forbidden k = str_eq k "__proto__" || str_eq k "constructor" || str_eq k "prototype"

-- `assertSafeEnvObject`: true where it does not throw.
unfoldable pub is_safe_env : Option EnvVars → Bool
unfolding is_forbidden
is_safe_env none = true
is_safe_env (some m) = if anyb (λ kv. is_forbidden kv.0) m then false else true

-- The last assignment wins, and no other key is touched.
pub get_env-set_env :
    (j k v : String) (m : EnvVars)
    → get_env j (set_env k v m) ≡ (if str_eq k j then some v else get_env j m)
unfolding get_env set_env
get_env-set_env j k v [] = refl
get_env-set_env j k v ((i, w) ∷ m) =
    ground (arith, eq_iff k j, eq_iff i k, eq_iff i j, get_env-set_env j k v m)
