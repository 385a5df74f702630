-- ===== src/Container/Options.antt =====
-- packages/plugin-container-sizing/src/calculator.ts: the options, their defaults and their checks,
-- and the decimal digits of a template literal.
use Prim.Native.String.{String}
use clusterkit.Common.{
  ℕ, zero, suc, ◌/◌, ◌%◌, Bool, true, false, not, ◌&&◌, ◌||◌, Option, none, some, if◌then◌else◌,
  ltb, ◌==◌,
}
use clusterkit.Texts.{append}
use clusterkit.Validation.Numbers.{Num, finite, whole, lt, is_finite, is_integer}

pub data Strategy : Type 0 where
  balanced cpu_first : Strategy

pub record SizingOptions : Type 0 where
  pub memory_overhead_factor : Option Num
  pub heap_ratio : Option Num
  pub min_workers : Option Num
  pub max_workers : Option Num
  pub strategy : Option Strategy

-- The default of a destructured option.
unfoldable pub default {ℓ} : {A : Type ℓ} → A → Option A → A
default d none = d
default d (some x) = x

unfoldable pub memory_overhead_factor_of : SizingOptions → Num
unfolding default
memory_overhead_factor_of o = default (finite false 4 4) o.memory_overhead_factor

unfoldable pub heap_ratio_of : SizingOptions → Num
unfolding default
heap_ratio_of o = default (finite false 3 3) o.heap_ratio

unfoldable pub min_workers_of : SizingOptions → Num
unfolding default
min_workers_of o = default (whole 1) o.min_workers

unfoldable pub max_workers_of : SizingOptions → Num
unfolding default
max_workers_of o = default (whole 64) o.max_workers

unfoldable pub strategy_of : SizingOptions → Strategy
unfolding default
strategy_of o = default balanced o.strategy

abbrev pub is_cpu_first : Strategy → Bool
is_cpu_first balanced = false
is_cpu_first cpu_first = true

abbrev pub max_reasonable_workers : ℕ
max_reasonable_workers = 256

-- The assertions; true where none throws.
unfoldable pub assert_fraction : Num → Bool
unfolding lt
assert_fraction value =
    not (not (is_finite value) || (not (lt (whole 0) value) || lt (whole 1) value))

unfoldable pub assert_positive_integer : Num → Bool
unfolding lt
assert_positive_integer value = not (not (is_integer value) || lt value (whole 1))

unfoldable pub validate_sizing_options : SizingOptions → Bool
unfolding assert_fraction assert_positive_integer lt
validate_sizing_options o =
    assert_fraction (memory_overhead_factor_of o)
    && (assert_fraction (heap_ratio_of o)
        && (assert_positive_integer (min_workers_of o)
            && (assert_positive_integer (max_workers_of o)
                && (not (lt (whole max_reasonable_workers) (min_workers_of o))
                    && (not (lt (whole max_reasonable_workers) (max_workers_of o))
                        && not (lt (max_workers_of o) (min_workers_of o)))))))

-- `${n}`: the decimal digits. A number has no more digits than its value plus one.
abbrev digit : ℕ → String
digit n =
    if n == 0
    then "0"
    else if n == 1
    then "1"
    else if n == 2
    then "2"
    else if n == 3
    then "3"
    else if n == 4
    then "4"
    else if n == 5
    then "5"
    else if n == 6
    then "6"
    else if n == 7
    then "7"
    else if n == 8
    then "8"
    else "9"

unfoldable pub show_from : ℕ → ℕ → String → String
unfolding append
show_from zero n later = later
show_from (suc fuel) n later = elim (ltb n 10) [
  | true ↦ append (digit n) later
  | false ↦ show_from fuel (n / 10) (append (digit (n % 10)) later)
]

unfoldable pub show : ℕ → String
unfolding show_from
show n = show_from (suc n) n ""
