-- ===== src/Texts.antt =====
-- JavaScript's operations on strings that several parts use: split, join, startsWith, includes and
-- parseInt.
use Prim.Native.Char.{Char, code}
use Prim.Native.String.{String, [] as end, ◌∷◌ as ◌⊳◌}
use clusterkit.Common.{
  ℕ, Bool, true, false, ◌&&◌, Option, none, some, List, [], ◌∷◌, if◌then◌else◌, ◌==◌,
}
use clusterkit.Sizing.{is_digit, digits}
use clusterkit.Validation.Text.{trim_start}

unfoldable pub append : String → String → String
append end t = t
append (c ⊳ s) t = c ⊳ append s t

unfoldable pub onto_head : Char → List String → List String
onto_head c [] = (c ⊳ end) ∷ []
onto_head c (l ∷ ls) = (c ⊳ l) ∷ ls

-- `s.split(separator)`, for a separator of one character.
unfoldable pub split_on : ℕ → String → List String
unfolding onto_head
split_on n end = end ∷ []
split_on n (c ⊳ s) = let rest = split_on n s in if code c == n then end ∷ rest else onto_head c rest

-- `parts.join(separator)`.
unfoldable pub join_from : String → String → List String → String
unfolding append
join_from separator s [] = s
join_from separator s (t ∷ ts) = join_from separator (append s (append separator t)) ts

unfoldable pub join_with : String → List String → String
unfolding join_from
join_with separator [] = end
join_with separator (s ∷ ts) = join_from separator s ts

-- `s.startsWith(prefix)`.
unfoldable pub starts_with : String → String → Bool
starts_with end s = true
starts_with (c ⊳ p) end = false
starts_with (c ⊳ p) (d ⊳ s) = (code c == code d) && starts_with p s

-- `s === ""`.
unfoldable pub is_empty : String → Bool
is_empty end = true
is_empty (c ⊳ s) = false

-- `Number.parseInt(s, 10)`, a sign and a magnitude below 2 ^ 1024; `none` for NaN.
unfoldable pub unsigned_int : Bool → String → Option (Bool × ℕ)
unfolding digits
unsigned_int sign end = none
unsigned_int sign (c ⊳ s) = if is_digit c then some (sign, digits 0 (c ⊳ s)) else none

unfoldable pub signed_int : String → Option (Bool × ℕ)
unfolding unsigned_int
signed_int end = none
signed_int (c ⊳ s) =
    if code c == 45
    then unsigned_int true s
    else if code c == 43
    then unsigned_int false s
    else unsigned_int false (c ⊳ s)

unfoldable pub parse_int : String → Option (Bool × ℕ)
unfolding signed_int trim_start
parse_int s = signed_int (trim_start s)
