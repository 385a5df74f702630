-- ===== src/Container/Plugin/Merge.antt =====
-- packages/plugin-container-sizing/src/calculator.ts: `mergeNodeOptions` and its regular
-- expressions.
use Prim.Native.Char.{code}
use Prim.Native.String.{String, [] as end, ◌∷◌ as ◌⊳◌}
use clusterkit.Common.{
  ℕ, zero, suc, ◌-◌, Bool, false, not, ◌&&◌, ◌||◌, Option, none, some, [], ◌∷◌, if◌then◌else◌, ◌==◌,
  filterb,
}
use clusterkit.Sizing.{is_digit}
use clusterkit.Texts.{append, join_with, is_empty}
use clusterkit.Validation.Text.{is_space, after, trim}

-- `[-_]`, and `(?:=|\s+)`, and `\d+`: what is left behind them.
unfoldable pub after_separator : Option String → Option String
after_separator none = none
after_separator (some end) = none
after_separator (some (c ⊳ s)) = if (code c == 45) || (code c == 95) then some s else none

unfoldable pub skip_spaces : String → String
skip_spaces end = end
skip_spaces (c ⊳ s) = let rest = skip_spaces s in if is_space c then rest else c ⊳ s

unfoldable pub after_equals : Option String → Option String
unfolding skip_spaces
after_equals none = none
after_equals (some end) = none
after_equals (some (c ⊳ s)) =
    if code c == 61 then some s else if is_space c then some (skip_spaces s) else none

unfoldable pub skip_digits : String → String
skip_digits end = end
skip_digits (c ⊳ s) = let rest = skip_digits s in if is_digit c then rest else c ⊳ s

unfoldable pub after_digits : Option String → Option String
unfolding skip_digits
after_digits none = none
after_digits (some end) = none
after_digits (some (c ⊳ s)) = if is_digit c then some (skip_digits s) else none

unfoldable pub after_word : String → Option String → Option String
unfolding after
after_word w none = none
after_word w (some s) = after w s

-- `/--max[-_]old[-_]space[-_]size(?:=|\s+)\d+/` here: what is left behind it.
unfoldable pub after_flag : String → Option String
unfolding after after_word after_separator after_equals after_digits
after_flag s = after_digits (
    after_equals (
      after_word "size" (
        after_separator (
          after_word "space"
            (after_separator (after_word "old" (after_separator (after "--max" s))))))))

unfoldable pub length_of : String → ℕ
length_of end = 0
length_of (c ⊳ s) = suc (length_of s)

-- How many characters the match takes, 0 where there is none.
unfoldable pub taken : ℕ → Option String → ℕ
unfolding length_of
taken n none = 0
taken n (some rest) = n - length_of rest

-- `.replace(maxOldSpaceRe, "")`, after `skip` characters of the match before.
unfoldable pub without_flags : ℕ → String → String
unfolding after_flag taken length_of
without_flags skip end = end
without_flags (suc skip) (c ⊳ s) = without_flags skip s
without_flags zero (c ⊳ s) =
    let n = taken (suc (length_of s)) (after_flag (c ⊳ s)) in
    let rest = without_flags (n - 1) s in if n == 0 then c ⊳ rest else rest

unfoldable pub starts_with_space : String → Bool
starts_with_space end = false
starts_with_space (c ⊳ s) = is_space c

-- `.replace(/\s{2,}/g, " ")`; the flag says that the run before has been replaced.
unfoldable pub single_spaced : Bool → String → String
unfolding starts_with_space append
single_spaced replaced end = end
single_spaced replaced (c ⊳ s) =
    let run = is_space c && (replaced || starts_with_space s) in
    let rest = single_spaced run s in
    if not run then c ⊳ rest else if replaced then rest else append " " rest

unfoldable pub cleaned : String → String
unfolding without_flags single_spaced trim
cleaned s = trim (single_spaced false (without_flags zero s))

unfoldable pub cleaned_extra : Option String → String
unfolding cleaned
cleaned_extra none = ""
cleaned_extra (some s) = cleaned s

unfoldable pub merge_node_options : String → String → Option String → String
unfolding cleaned cleaned_extra join_with filterb is_empty trim
merge_node_options computed existing extra = trim (
    join_with " "
      (filterb (λ s. not (is_empty s)) (computed ∷ cleaned existing ∷ cleaned_extra extra ∷ [])))
