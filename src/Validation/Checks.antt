-- ===== src/Validation/Checks.antt =====
-- What a passed check says of an option once its default is filled in.
use Prim.Native.String.{String}
use clusterkit.Common.{
  ℕ, suc, ◌*◌, ◌%◌, ◌≤◌, ◌≡◌, refl, Bool, true, false, not, ◌&&◌, ◌||◌, Option, none, some, List,
  [], ◌∷◌, ◌++◌, arith,
}
use clusterkit.Validation.Numbers.{
  Num, not_a_number, infinite, finite, whole, is_finite, is_integer, is_number, lt, ge, plus,
  Within, range-Within, not_below,
}
use clusterkit.Validation.{
  throw_if, first, if_given, default_to, assert_range, assert_positive_integer,
  assert_non_negative_integer, check_heartbeat,
}

-- No check throws.
abbrev pub AllPass : List (Option String) → Type 0
AllPass [] = Unit {0}
AllPass (c ∷ cs) = (c ≡ none) × AllPass cs

pub first-AllPass : (cs : List (Option String)) → first cs ≡ none → AllPass cs
unfolding first
first-AllPass [] h = tt
first-AllPass (none ∷ cs) h = (refl, first-AllPass cs h)
first-AllPass (some f ∷ cs) h = absurd (cc h)

pub AllPass-split : (cs ds : List (Option String)) → AllPass (cs ++ ds) → AllPass cs × AllPass ds
AllPass-split [] ds h = (tt, h)
AllPass-split (c ∷ cs) ds h = let (l, r) = AllPass-split cs ds h.1 in ((h.0, l), r)

pub throw_if-false : (b : Bool) (field : String) → throw_if b field ≡ none → b ≡ false
throw_if-false false field h = refl
throw_if-false true field h = absurd (cc h)

whole-Within : (lo hi d : ℕ) → lo ≤ d → d ≤ hi → Within lo hi (whole d)
whole-Within lo hi d a b = record {
  sign = false;
  top = d;
  rest = 0;
  value = refl;
  above = omega (arith, a);
  below = omega (arith, b);
  signed = λ t. absurd (cc t);
}

pub range-default :
    (field : String) (lo hi d : ℕ) (o : Option Num)
    → lo ≤ d
    → d ≤ hi
    → if_given (assert_range field (whole lo) (whole hi)) o ≡ none
    → Within lo hi (default_to o d)
unfolding if_given default_to assert_range
range-default field lo hi d none a b h = whole-Within lo hi d a b
range-default field lo hi d (some x) a b h =
    let q = throw_if-false (not (is_finite x) || (lt x (whole lo) || lt (whole hi) x)) field h in
    range-Within lo hi x (ground (arith, q)) (ground (arith, q)) (ground (arith, q))

-- A whole number that is at least `lo`.
pub record IsWhole (lo : ℕ) (x : Num) : Type 0 where
  pub sign : Bool
  pub top : ℕ
  pub rest : ℕ
  pub value : x ≡ finite sign top rest
  pub no_remainder : (top % suc rest) ≡ 0
  pub at_least : lo * suc rest ≤ top
  pub signed : sign ≡ true → top ≡ 0

integer-IsWhole : (lo : ℕ) (x : Num) → is_integer x ≡ true → lt x (whole lo) ≡ false → IsWhole lo x
integer-IsWhole lo not_a_number i a = absurd (cc i)
integer-IsWhole lo (infinite s) i a = absurd (cc i)
integer-IsWhole lo (finite s n d) i a =
    let (above, signed) = not_below lo s n d a in
    record {
      sign = s;
      top = n;
      rest = d;
      value = refl;
      no_remainder = ground (arith, i);
      at_least = above;
      signed = signed;
    }

whole-IsWhole : (lo d : ℕ) → lo ≤ d → IsWhole lo (whole d)
whole-IsWhole lo d a = record {
  sign = false;
  top = d;
  rest = 0;
  value = refl;
  no_remainder = omega arith;
  at_least = omega (arith, a);
  signed = λ t. absurd (cc t);
}

pub positive-default :
    (field : String) (d : ℕ) (o : Option Num)
    → 1 ≤ d
    → if_given (assert_positive_integer field) o ≡ none
    → IsWhole 1 (default_to o d)
unfolding if_given default_to assert_positive_integer
positive-default field d none a h = whole-IsWhole 1 d a
positive-default field d (some x) a h =
    let q = throw_if-false (not (is_integer x) || lt x (whole 1)) field h in
    integer-IsWhole 1 x (ground (arith, q)) (ground (arith, q))

pub non_negative-default :
    (field : String) (d : ℕ) (o : Option Num)
    → if_given (assert_non_negative_integer field) o ≡ none
    → IsWhole 0 (default_to o d)
unfolding if_given default_to assert_non_negative_integer
non_negative-default field d none h = whole-IsWhole 0 d (omega arith)
non_negative-default field d (some x) h =
    let q = throw_if-false (not (is_integer x) || lt x (whole 0)) field h in
    integer-IsWhole 0 x (ground (arith, q)) (ground (arith, q))

pub heartbeat-default :
    (o : Option Num)
    → if_given check_heartbeat o ≡ none
    → IsWhole 0 (default_to o 0)
      × (lt (whole 0) (default_to o 0) ≡ true → lt (default_to o 0) (whole 100) ≡ false)
unfolding if_given default_to check_heartbeat
heartbeat-default none h =
    (whole-IsWhole 0 0 (omega arith), λ p. absurd (unfold lt in ground (arith, p)))
heartbeat-default (some x) h =
    let q =
      throw_if-false
        ((not (is_integer x) || lt x (whole 0)) || (lt (whole 0) x && lt x (whole 100)))
        "health.heartbeatMs" h in
    (integer-IsWhole 0 x (ground (arith, q)) (ground (arith, q)), λ p. ground (arith, q, p))

-- Where both are numbers, what is not at least as large is smaller.
pub not_ge : (x y : Num) → is_number x ≡ true → is_number y ≡ true → ge x y ≡ false → lt x y ≡ true
unfolding ge
not_ge x y a b h = ground (arith, a, b, h)

pub Within-is_number : (lo hi : ℕ) (x : Num) → Within lo hi x → is_number x ≡ true
Within-is_number lo hi x v = rw v.value refl

pub IsWhole-is_number : (lo : ℕ) (x : Num) → IsWhole lo x → is_number x ≡ true
IsWhole-is_number lo x v = rw v.value refl

pub plus-is_number :
    (lo hi lo' hi' : ℕ) (x y : Num)
    → Within lo hi x
    → Within lo' hi' y
    → is_number (plus x y) ≡ true
unfolding plus
plus-is_number lo hi lo' hi' x y v w = rw (v.value, w.value) (go v.sign w.sign)
  where
    go : (s t : Bool) → is_number (plus (finite s v.top v.rest) (finite t w.top w.rest)) ≡ true
    go true true = refl
    go false false = refl
    go true false = ground arith
    go false true = ground arith
