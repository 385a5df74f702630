-- ===== src/Validation/Text.antt =====
-- packages/worker-manager/src/validation.ts: the tests on strings, `trim`, `includes(":")` and the
-- regular expressions of `DANGEROUS_ARG_PATTERNS`.
use Prim.Native.Char.{Char, code}
use Prim.Native.String.{String, [] as end, ◌∷◌ as ◌⊳◌}
use clusterkit.Common.{
  Bool, true, false, ◌&&◌, ◌||◌, Option, none, some, List, [], ◌∷◌, ◌==◌, leb, if◌then◌else◌, anyb,
}

-- JavaScript's white space and line terminators.
abbrev pub is_space : Char → Bool
is_space c =
    let k = code c in
    (leb 9 k && leb k 13)
    || (k == 32
        || (k == 160
            || (k == 5760
                || ((leb 8192 k && leb k 8202)
                    || (k == 8232
                        || (k == 8233
                            || (k == 8239 || (k == 8287 || (k == 12288 || k == 65279)))))))))

unfoldable pub trim_start : String → String
trim_start end = end
trim_start (c ⊳ s) = if is_space c then trim_start s else c ⊳ s

unfoldable pub is_end : String → Bool
is_end end = true
is_end (c ⊳ s) = false

unfoldable pub trim_end : String → String
unfolding is_end
trim_end end = end
trim_end (c ⊳ s) = let r = trim_end s in if is_space c && is_end r then end else c ⊳ r

-- `s.trim()`.
unfoldable pub trim : String → String
unfolding trim_start trim_end
trim s = trim_end (trim_start s)

-- `!s.trim()`.
unfoldable pub is_blank : String → Bool
unfolding trim is_end
is_blank s = is_end (trim s)

-- `s.includes(":")`.
unfoldable pub has_colon : String → Bool
has_colon end = false
has_colon (c ⊳ s) = code c == 58 || has_colon s

-- What is left of `s` after the prefix `p`.
unfoldable pub after : String → String → Option String
after end s = some s
after (c ⊳ p) end = none
after (c ⊳ p) (d ⊳ s) = if code c == code d then after p s else none

-- `(?:$|\s)` next, and `(?:[=\s]|$)` next.
ends_or_space : String → Bool
ends_or_space end = true
ends_or_space (c ⊳ s) = is_space c

separated : String → Bool
separated end = true
separated (c ⊳ s) = is_space c || code c == 61

-- The pattern is the prefix `p` and then what `next` accepts.
abbrev matches : String → (String → Bool) → String → Bool
matches p next s = elim (after p s) [ none ↦ false | some r ↦ next r ]

abbrev anything : String → Bool
anything s = true

-- `DANGEROUS_ARG_PATTERNS`.
patterns : List (String → Bool)
unfolding after ends_or_space separated
patterns =
    matches "--require" separated
    ∷ matches "--eval" separated
    ∷ matches "--print" separated
    ∷ matches "--inspect"
        (λ r. matches "-brk" anything r || (matches "-port" anything r || separated r))
    ∷ matches "--import" separated
    ∷ matches "--loader" separated
    ∷ matches "--experimental-loader" separated
    ∷ matches "--tls-keylog" anything
    ∷ matches "--cpu-prof" anything
    ∷ matches "--heap-prof" anything
    ∷ matches "--report-" anything
    ∷ matches "--diagnostic-dir" anything
    ∷ matches "--redirect-warnings" anything
    ∷ matches "-r" ends_or_space
    ∷ matches "-e" ends_or_space
    ∷ matches "-p" ends_or_space
    ∷ []

unfoldable pub is_dangerous : String → Bool
unfolding patterns trim
is_dangerous arg = anyb (λ p. p (trim arg)) patterns
