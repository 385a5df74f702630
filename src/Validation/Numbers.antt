-- ===== src/Validation/Numbers.antt =====
-- JavaScript's numbers as option values: what packages/worker-manager/src/validation.ts tests of
-- them. A finite number is a sign and a fraction; sums are exact.
use clusterkit.Common.{
  ℕ, zero, suc, ◌+◌, ◌-◌, ◌*◌, ◌%◌, ◌≤◌, ◌≡◌, refl, Bool, true, false, not, ◌&&◌, ltb, leb, ◌==◌,
  if◌then◌else◌, arith,
}

-- `finite negative n d` is n / (d + 1), negated if `negative`; `not_a_number` also stands for a
-- value of another type, which every test of validation.ts treats alike.
pub data Num : Type 0 where
  not_a_number : Num
  infinite : Bool → Num
  finite : Bool → ℕ → ℕ → Num

abbrev pub whole : ℕ → Num
whole n = finite false n 0

-- `Number.isFinite`.
abbrev pub is_finite : Num → Bool
is_finite not_a_number = false
is_finite (infinite s) = false
is_finite (finite s n d) = true

-- `Number.isInteger`.
abbrev pub is_integer : Num → Bool
is_integer not_a_number = false
is_integer (infinite s) = false
is_integer (finite s n d) = n % suc d == 0

abbrev lt_finite : Bool → ℕ → ℕ → Bool → ℕ → ℕ → Bool
lt_finite true n d true m c = ltb (m * suc d) (n * suc c)
lt_finite true n d false m c = ltb 0 (n + m)
lt_finite false n d true m c = false
lt_finite false n d false m c = ltb (n * suc c) (m * suc d)

-- `a < b`.
unfoldable pub lt : Num → Num → Bool
lt not_a_number b = false
lt (infinite s) not_a_number = false
lt (infinite s) (infinite t) = s && not t
lt (infinite s) (finite t m c) = s
lt (finite s n d) not_a_number = false
lt (finite s n d) (infinite t) = not t
lt (finite s n d) (finite t m c) = lt_finite s n d t m c

abbrev pub is_number : Num → Bool
is_number not_a_number = false
is_number (infinite s) = true
is_number (finite s n d) = true

-- `a >= b`.
unfoldable pub ge : Num → Num → Bool
ge a b = is_number a && (is_number b && not (lt a b))

abbrev add_finite : Bool → ℕ → Bool → ℕ → ℕ → Num
add_finite true x true y d = finite true (x + y) d
add_finite false x false y d = finite false (x + y) d
add_finite true x false y d = if leb x y then finite false (y - x) d else finite true (x - y) d
add_finite false x true y d = if leb y x then finite false (x - y) d else finite true (y - x) d

-- `a + b`.
unfoldable pub plus : Num → Num → Num
plus not_a_number b = not_a_number
plus (infinite s) not_a_number = not_a_number
plus (infinite true) (infinite true) = infinite true
plus (infinite false) (infinite false) = infinite false
plus (infinite true) (infinite false) = not_a_number
plus (infinite false) (infinite true) = not_a_number
plus (infinite s) (finite t m c) = infinite s
plus (finite s n d) not_a_number = not_a_number
plus (finite s n d) (infinite t) = infinite t
plus (finite s n d) (finite t m c) = add_finite s (n * suc c) t (m * suc d) (d * c + d + c)

-- The number is finite, not below `lo`, and not above `hi`.
pub record Within (lo hi : ℕ) (x : Num) : Type 0 where
  pub sign : Bool
  pub top : ℕ
  pub rest : ℕ  -- the denominator less one
  pub value : x ≡ finite sign top rest
  pub above : lo * suc rest ≤ top
  pub below : top ≤ hi * suc rest
  pub signed : sign ≡ true → top ≡ 0

pub not_below :
    (lo : ℕ) (s : Bool) (n d : ℕ)
    → lt (finite s n d) (whole lo) ≡ false
    → (lo * suc d ≤ n) × (s ≡ true → n ≡ 0)
unfolding lt
not_below zero true n d h = (omega arith, λ t. ground (arith, h))
not_below (suc lo) true n d h = absurd (ground (arith, h))
not_below lo false n d h = (ground (arith, h), λ t. absurd (cc t))

pub not_above :
    (hi : ℕ) (s : Bool) (n d : ℕ)
    → (s ≡ true → n ≡ 0)
    → lt (whole hi) (finite s n d) ≡ false
    → n ≤ hi * suc d
unfolding lt
not_above hi true n d z h = ground (arith, z refl)
not_above hi false n d z h = ground (arith, h)

-- `assertRange` passes just the numbers of the range.
pub range-Within :
    (lo hi : ℕ) (x : Num)
    → is_finite x ≡ true
    → lt x (whole lo) ≡ false
    → lt (whole hi) x ≡ false
    → Within lo hi x
range-Within lo hi not_a_number f a b = absurd (cc f)
range-Within lo hi (infinite s) f a b = absurd (cc f)
range-Within lo hi (finite s n d) f a b =
    let (above, signed) = not_below lo s n d a in
    record {
      sign = s;
      top = n;
      rest = d;
      value = refl;
      above = above;
      below = not_above hi s n d signed b;
      signed = signed;
    }
