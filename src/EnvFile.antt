-- ===== src/EnvFile.antt =====
-- packages/plugin-file-watcher/src/parse-env.ts: the default parser of .env files. What `{}`
-- inherits from Object.prototype is not an own key, and the order of the keys is of no account.
pub mod Safe
pub mod RoundTrip
use Prim.Native.Char.{Char, code}
use Prim.Native.String.{String, [] as end, ◌∷◌ as ◌⊳◌}
use clusterkit.Common.{
  ℕ, Bool, true, false, ◌&&◌, ◌||◌, Option, none, some, List, [], ◌∷◌, if◌then◌else◌, ◌==◌,
}
use clusterkit.EnvVars.{EnvVars, set_env, is_forbidden}
use clusterkit.Validation.Text.{trim, trim_end, is_end}

-- `content.split("\n")`.
unfoldable pub onto_first : Char → List String → List String
onto_first c [] = (c ⊳ end) ∷ []
onto_first c (l ∷ ls) = (c ⊳ l) ∷ ls

unfoldable pub split_lines : String → List String
unfolding onto_first
split_lines end = end ∷ []
split_lines (c ⊳ s) =
    let rest = split_lines s in if code c == 10 then end ∷ rest else onto_first c rest

-- `line.startsWith("#")`.
unfoldable pub is_comment : String → Bool
is_comment end = false
is_comment (c ⊳ s) = code c == 35

-- What stands before and after the first "=".
unfoldable pub onto_key : Char → Option (String × String) → Option (String × String)
onto_key c none = none
onto_key c (some (k, v)) = some (c ⊳ k, v)

unfoldable pub cut_at_equals : String → Option (String × String)
unfolding onto_key
cut_at_equals end = none
cut_at_equals (c ⊳ s) =
    let rest = cut_at_equals s in if code c == 61 then some (end, s) else onto_key c rest

-- The last character of a text that is not empty is the quote `q`.
unfoldable pub ends_with : ℕ → String → Bool
unfolding is_end
ends_with q end = false
ends_with q (c ⊳ s) = let rest = ends_with q s in if is_end s then code c == q else rest

-- Both ends are `q`, and they are two characters.
unfoldable pub is_quoted_by : ℕ → String → Bool
unfolding ends_with
is_quoted_by q end = false
is_quoted_by q (c ⊳ s) = (code c == q) && ends_with q s

unfoldable pub is_quoted : String → Bool
unfolding is_quoted_by
is_quoted v = is_quoted_by 34 v || is_quoted_by 39 v

-- `value.slice(1, -1)`.
unfoldable pub but_last : String → String
unfolding is_end
but_last end = end
but_last (c ⊳ s) = let rest = but_last s in if is_end s then end else c ⊳ rest

unfoldable pub inner : String → String
unfolding but_last
inner end = end
inner (c ⊳ s) = but_last s

-- `value.slice(0, value.indexOf(" #"))`, where there is one.
unfoldable pub onto_text : Char → Option String → Option String
onto_text c none = none
onto_text c (some s) = some (c ⊳ s)

unfoldable pub before_comment : String → Option String
unfolding onto_text is_comment
before_comment end = none
before_comment (c ⊳ s) =
    let rest = before_comment s in
    if (code c == 32) && is_comment s then some end else onto_text c rest

unfoldable pub uncommented : String → Option String → String
unfolding trim_end
uncommented value none = value
uncommented value (some s) = trim_end s

unfoldable pub unquoted : String → String
unfolding is_quoted inner
unquoted value = if is_quoted value then inner value else value

unfoldable pub parse_env_value : String → String
unfolding is_quoted inner unquoted uncommented before_comment
parse_env_value value =
    if is_quoted value then inner value else unquoted (uncommented value (before_comment value))

-- The body of the loop, for a line that is trimmed and then for the two sides of its "=".
unfoldable pub assign : Option (String × String) → EnvVars → EnvVars
unfolding is_forbidden set_env trim parse_env_value
assign none env = env
assign (some (k, v)) env =
    if is_forbidden (trim k) then env else set_env (trim k) (parse_env_value (trim v)) env

unfoldable pub read_line : String → EnvVars → EnvVars
unfolding is_end is_comment assign cut_at_equals
read_line line env = if is_end line || is_comment line then env else assign (cut_at_equals line) env

unfoldable pub read_lines : List String → EnvVars → EnvVars
unfolding read_line trim
read_lines [] env = env
read_lines (l ∷ ls) env = read_lines ls (read_line (trim l) env)

unfoldable pub parse_env_file : String → EnvVars
unfolding read_lines split_lines
parse_env_file content = read_lines (split_lines content) []
