-- ===== src/Common/Maps.antt =====
-- A JavaScript `Set` and `Map` with number keys, in insertion order: a key that is set again keeps
-- its place.
use Prim.Native.Nat.{ℕ, suc, ◌-◌, ◌≤◌}
use mathlib.Core.Path.{◌≡◌, refl, ap}
use mathlib.Core.Bool.{Bool, true, false}
use mathlib.Core.Option.{Option, none, some}
use mathlib.Core.List.{List, [], ◌∷◌}
use native.Mathlib.Omega.{arith}
use clusterkit.Common.Tests.{◌==◌, if◌then◌else◌}
use clusterkit.Common.Lists.{length}

unfoldable pub has : ℕ → List ℕ → Bool
has k [] = false
has k (x ∷ xs) = if x == k then true else has k xs

unfoldable pub add : ℕ → List ℕ → List ℕ
add k [] = k ∷ []
add k (x ∷ xs) = if x == k then x ∷ xs else x ∷ add k xs

unfoldable pub delete : ℕ → List ℕ → List ℕ
delete k [] = []
delete k (x ∷ xs) = if x == k then delete k xs else x ∷ delete k xs

pub has-add : (j k : ℕ) (xs : List ℕ) → has j (add k xs) ≡ (if k == j then true else has j xs)
unfolding has add
has-add j k [] = refl
has-add j k (x ∷ xs) = ground (arith, has-add j k xs)

pub has-delete :
    (j k : ℕ) (xs : List ℕ) → has j (delete k xs) ≡ (if k == j then false else has j xs)
unfolding has delete
has-delete j k [] = ground arith
has-delete j k (x ∷ xs) = ground (arith, has-delete j k xs)

-- No key twice.
abbrev pub Distinct : List ℕ → Type 0
Distinct [] = Unit {0}
Distinct (x ∷ xs) = (has x xs ≡ false) × Distinct xs

pub add-Distinct : (k : ℕ) (xs : List ℕ) → Distinct xs → Distinct (add k xs)
unfolding add has
add-Distinct k [] d = (refl, tt)
add-Distinct k (x ∷ xs) d = ground (arith, add-Distinct k xs d.1, has-add x k xs)

pub delete-Distinct : (k : ℕ) (xs : List ℕ) → Distinct xs → Distinct (delete k xs)
unfolding delete has
delete-Distinct k [] d = tt
delete-Distinct k (x ∷ xs) d = ground (arith, delete-Distinct k xs d.1, has-delete x k xs)

pub length-add :
    (k : ℕ) (xs : List ℕ) → length (add k xs) ≡ (if has k xs then length xs else suc (length xs))
unfolding add has
length-add k [] = refl
length-add k (x ∷ xs) = ground (arith, length-add k xs)

pub length-delete_absent :
    (k : ℕ) (xs : List ℕ) → has k xs ≡ false → length (delete k xs) ≡ length xs
unfolding delete has
length-delete_absent k [] h = refl
length-delete_absent k (x ∷ xs) h = ground (arith, length-delete_absent k xs)

pub length-delete :
    (k : ℕ) (xs : List ℕ)
    → Distinct xs
    → length (delete k xs) ≡ (if has k xs then length xs - 1 else length xs)
unfolding delete has
length-delete k [] d = refl
length-delete k (x ∷ xs) d =
    ground (arith, length-delete k xs d.1, length-delete_absent k xs, eq k x xs d.0, pos k xs)
  where
    eq : (k x : ℕ) (xs : List ℕ) → has x xs ≡ false → x ≡ k → has k xs ≡ false
    eq k x xs h e = cc

    pos : (k : ℕ) (ys : List ℕ) → has k ys ≡ true → 1 ≤ length ys
    pos k [] h = cc
    pos k (y ∷ ys) h = omega arith

module _ {ℓ} {V : Type ℓ} where
  unfoldable pub lookup : ℕ → List (ℕ × V) → Option V
  lookup k [] = none
  lookup k ((j, v) ∷ m) = if j == k then some v else lookup k m

  unfoldable pub insert : ℕ → V → List (ℕ × V) → List (ℕ × V)
  insert k v [] = (k, v) ∷ []
  insert k v ((j, w) ∷ m) = if j == k then (j, v) ∷ m else (j, w) ∷ insert k v m

  unfoldable pub remove : ℕ → List (ℕ × V) → List (ℕ × V)
  remove k [] = []
  remove k ((j, w) ∷ m) = if j == k then remove k m else (j, w) ∷ remove k m

  unfoldable pub keys : List (ℕ × V) → List ℕ
  keys [] = []
  keys ((j, w) ∷ m) = j ∷ keys m

  pub lookup-insert :
      (j k : ℕ) (v : V) (m : List (ℕ × V))
      → lookup j (insert k v m) ≡ (if k == j then some v else lookup j m)
  unfolding lookup insert
  lookup-insert j k v [] = refl
  lookup-insert j k v ((i, w) ∷ m) = ground (arith, lookup-insert j k v m)

  pub lookup-remove :
      (j k : ℕ) (m : List (ℕ × V)) → lookup j (remove k m) ≡ (if k == j then none else lookup j m)
  unfolding lookup remove
  lookup-remove j k [] = ground arith
  lookup-remove j k ((i, w) ∷ m) = ground (arith, lookup-remove j k m)

  pub keys-insert : (k : ℕ) (v : V) (m : List (ℕ × V)) → keys (insert k v m) ≡ add k (keys m)
  unfolding keys insert add
  keys-insert k v [] = refl
  keys-insert k v ((j, w) ∷ m) = ground (arith, keys-insert k v m)

  pub keys-remove : (k : ℕ) (m : List (ℕ × V)) → keys (remove k m) ≡ delete k (keys m)
  unfolding keys remove delete
  keys-remove k [] = refl
  keys-remove k ((j, w) ∷ m) = ground (arith, keys-remove k m)

  pub length-keys : (m : List (ℕ × V)) → length (keys m) ≡ length m
  unfolding keys
  length-keys [] = refl
  length-keys ((j, w) ∷ m) = ap suc (length-keys m)
