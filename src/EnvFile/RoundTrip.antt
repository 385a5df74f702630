-- ===== src/EnvFile/RoundTrip.antt =====
-- packages/plugin-file-watcher/src/parse-env.ts: an environment written as quoted KEY="value"
-- lines.
use Prim.Native.Char.{code}
use Prim.Native.String.{String, [] as end, ◌∷◌ as ◌⊳◌}
use clusterkit.Common.{
  ℕ, ◌≡◌, refl, sym, ap, ◌∙◌, Bool, true, false, ◌||◌, Option, some, List, [], ◌∷◌, if◌then◌else◌,
  ◌==◌, arith, All,
}
use clusterkit.EnvVars.{EnvVars, set_env, spread, is_forbidden}
use clusterkit.EnvFile.{
  split_lines, onto_first, is_comment, cut_at_equals, onto_key, ends_with, is_quoted_by, is_quoted,
  but_last, inner, parse_env_value, assign, read_line, read_lines, parse_env_file,
}
use clusterkit.Validation.Text.{trim, trim_start, trim_end, is_end, is_space}

unfoldable pub joined : String → String → String
joined end t = t
joined (c ⊳ s) t = c ⊳ joined s t

-- The character with code `n` does not occur.
unfoldable pub lacks : ℕ → String → Bool
lacks n end = true
lacks n (c ⊳ s) = if code c == n then false else lacks n s

-- A line starts with neither white space nor "#".
unfoldable pub is_plain_start : String → Bool
is_plain_start end = false
is_plain_start (c ⊳ s) = if is_space c then false else if code c == 35 then false else true

-- What a key must be to be read back, and a value.
pub record IsEntry (kv : String × String) : Type 0 where
  pub starts : is_plain_start kv.0 ≡ true
  pub trimmed : trim kv.0 ≡ kv.0
  pub no_equals : lacks 61 kv.0 ≡ true
  pub one_line : lacks 10 kv.0 ≡ true
  pub allowed : is_forbidden kv.0 ≡ false
  pub one_line_value : lacks 10 kv.1 ≡ true

abbrev pub in_quotes : String → String
in_quotes v = joined "\"" (joined v "\"")

abbrev pub line : String → String → String
line k v = joined k (joined "=" (in_quotes v))

unfoldable pub print : EnvVars → String
unfolding joined
print [] = end
print ((k, v) ∷ m) = joined (line k v) (joined "\n" (print m))

split_lines-joined :
    (l rest : String)
    → lacks 10 l ≡ true
    → split_lines (joined l (joined "\n" rest)) ≡ l ∷ split_lines rest
unfolding split_lines joined lacks onto_first
split_lines-joined end rest h = refl
split_lines-joined (c ⊳ l) rest h = ground (arith, h, split_lines-joined l rest)

lacks-joined :
    (n : ℕ) (s t : String) → lacks n s ≡ true → lacks n t ≡ true → lacks n (joined s t) ≡ true
unfolding lacks joined
lacks-joined n end t h k = k
lacks-joined n (c ⊳ s) t h k = ground (arith, h, lacks-joined n s t)

cut_at_equals-joined :
    (k rest : String)
    → lacks 61 k ≡ true
    → cut_at_equals (joined k (joined "=" rest)) ≡ some (k, rest)
unfolding cut_at_equals joined lacks onto_key
cut_at_equals-joined end rest h = refl
cut_at_equals-joined (c ⊳ k) rest h = ground (arith, h, cut_at_equals-joined k rest)

is_end-joined : (s : String) → is_end (joined s "\"") ≡ false
unfolding is_end joined
is_end-joined end = refl
is_end-joined (c ⊳ s) = refl

-- A text that ends with a quote.
trim_end-joined : (s : String) → trim_end (joined s "\"") ≡ joined s "\""
unfolding trim_end joined is_end
trim_end-joined end = refl
trim_end-joined (c ⊳ s) = ground (arith, trim_end-joined s, is_end-joined s)

ends_with-joined : (s : String) → ends_with 34 (joined s "\"") ≡ true
unfolding ends_with joined is_end
ends_with-joined end = refl
ends_with-joined (c ⊳ s) = ground (arith, ends_with-joined s, is_end-joined s)

but_last-joined : (s : String) → but_last (joined s "\"") ≡ s
unfolding but_last joined is_end
but_last-joined end = refl
but_last-joined (c ⊳ s) = ground (arith, but_last-joined s, is_end-joined s)

joined_assoc : (a b c : String) → joined (joined a b) c ≡ joined a (joined b c)
unfolding joined
joined_assoc end b c = refl
joined_assoc (x ⊳ a) b c = ap (λ (s : String). x ⊳ s) (joined_assoc a b c)

-- A text in quotes has nothing to trim, and its value is what stands between them.
trim-in_quotes : (v : String) → trim (in_quotes v) ≡ in_quotes v
unfolding trim trim_start joined
trim-in_quotes v = trim_end-joined (joined "\"" v)

parse_env_value-in_quotes : (v : String) → parse_env_value (in_quotes v) ≡ v
unfolding parse_env_value is_quoted is_quoted_by inner joined
parse_env_value-in_quotes v = ground (arith, ends_with-joined v, but_last-joined v)

-- So has a line.
starts-joined :
    (k t : String)
    → is_plain_start k ≡ true
    → (trim_start (joined k t) ≡ joined k t)
      × (is_end (joined k t) ≡ false)
      × (is_comment (joined k t) ≡ false)
unfolding is_plain_start trim_start joined is_end is_comment
starts-joined end t h = cc
starts-joined (c ⊳ s) t h = (ground (arith, h), refl, ground (arith, h))

line_end : (k v : String) → line k v ≡ joined (joined k (joined "=" (joined "\"" v))) "\""
unfolding joined
line_end k v = sym (joined_assoc k (joined "=" (joined "\"" v)) "\"")

trim-line : (k v : String) → is_plain_start k ≡ true → trim (line k v) ≡ line k v
unfolding trim
trim-line k v h =
    ap trim_end (starts-joined k (joined "=" (in_quotes v)) h).0
    ∙ (ap trim_end (line_end k v)
        ∙ (trim_end-joined (joined k (joined "=" (joined "\"" v))) ∙ sym (line_end k v)))

either_false : (a b : Bool) → a ≡ false → b ≡ false → (a || b) ≡ false
either_false a b h k = ground (arith, h, k)

assign_lem :
    (k v : String) (env : EnvVars)
    → IsEntry (k, v)
    → assign (some (k, in_quotes v)) env ≡ set_env k v env
unfolding assign
assign_lem k v env e =
    ap
      (λ (b : Bool). if b then env else set_env (trim k) (parse_env_value (trim (in_quotes v))) env)
      (ap is_forbidden e.trimmed ∙ e.allowed)
    ∙ (ap (λ (j : String). set_env j (parse_env_value (trim (in_quotes v))) env) e.trimmed
        ∙ ap (λ (w : String). set_env k w env)
            (ap parse_env_value (trim-in_quotes v) ∙ parse_env_value-in_quotes v))

read_line_lem :
    (k v : String) (env : EnvVars)
    → IsEntry (k, v)
    → read_line (trim (line k v)) env ≡ set_env k v env
unfolding read_line
read_line_lem k v env e =
    let st = starts-joined k (joined "=" (in_quotes v)) e.starts in
    ap (λ (l : String). read_line l env) (trim-line k v e.starts)
    ∙ (ap (λ (b : Bool). if b then env else assign (cut_at_equals (line k v)) env)
          (either_false (is_end (line k v)) (is_comment (line k v)) st.1 st.2)
        ∙ (ap (λ (o : Option (String × String)). assign o env)
              (cut_at_equals-joined k (in_quotes v) e.no_equals)
            ∙ assign_lem k v env e))

lacks-line : (k v : String) → IsEntry (k, v) → lacks 10 (line k v) ≡ true
lacks-line k v e = lacks-joined 10 k (joined "=" (in_quotes v)) e.one_line (
    lacks-joined 10 "=" (in_quotes v) (unfold lacks in refl) (
      lacks-joined 10 "\"" (joined v "\"") (unfold lacks in refl)
        (lacks-joined 10 v "\"" e.one_line_value (unfold lacks in refl))))

read_lines-print :
    (m env : EnvVars) → All IsEntry m → read_lines (split_lines (print m)) env ≡ spread env m
unfolding read_lines print spread
read_lines-print [] env h = unfold split_lines read_line trim trim_start trim_end is_end in refl
read_lines-print ((k, v) ∷ m) env (e, h) =
    ap (λ (ls : List String). read_lines ls env)
      (split_lines-joined (line k v) (print m) (lacks-line k v e))
    ∙ (ap (λ (n : EnvVars). read_lines (split_lines (print m)) n) (read_line_lem k v env e)
        ∙ read_lines-print m (set_env k v env) h)

-- An environment written line by line as KEY="value" is read back whole, whatever its values hold
-- but line breaks (quotes, "#", "=" and white space at the ends among it), given that each key is
-- on one line, has no "=", no white space at its ends and no "#" in front, and is not forbidden.
pub parse_env_file-print : (m : EnvVars) → All IsEntry m → parse_env_file (print m) ≡ spread [] m
unfolding parse_env_file
parse_env_file-print m h = read_lines-print m [] h
