-- ===== src/EnvFile/Safe.antt =====
-- packages/plugin-file-watcher/src/parse-env.ts: what the parser gives passes the check that
-- packages/worker-manager/src/validation.ts makes of an environment.
use Prim.Native.String.{String}
use clusterkit.Common.{
  ◌≡◌, refl, true, false, ◌||◌, Option, none, some, List, [], ◌∷◌, anyb, arith, if_cases,
}
use clusterkit.EnvVars.{EnvVars, set_env, is_forbidden, is_safe_env}
use clusterkit.EnvFile.{
  assign, read_line, read_lines, split_lines, parse_env_file, parse_env_value, is_comment,
  cut_at_equals,
}
use clusterkit.Validation.Text.{trim, is_end}

-- No key is forbidden.
abbrev pub IsClean : EnvVars → Type 0
IsClean m = anyb (λ kv. is_forbidden kv.0) m ≡ false

set_env-IsClean :
    (k v : String) (m : EnvVars) → is_forbidden k ≡ false → IsClean m → IsClean (set_env k v m)
unfolding set_env anyb
set_env-IsClean k v [] h c = ground (arith, h)
set_env-IsClean k v ((j, w) ∷ m) h c = ground (arith, h, c, set_env-IsClean k v m h)

assign-IsClean : (o : Option (String × String)) (m : EnvVars) → IsClean m → IsClean (assign o m)
unfolding assign
assign-IsClean none m c = c
assign-IsClean (some (k, v)) m c =
    if_cases IsClean (is_forbidden (trim k)) m (set_env (trim k) (parse_env_value (trim v)) m)
      (λ _. c) (λ h. set_env-IsClean (trim k) (parse_env_value (trim v)) m h c)

read_line-IsClean : (l : String) (m : EnvVars) → IsClean m → IsClean (read_line l m)
unfolding read_line
read_line-IsClean l m c =
    if_cases IsClean (is_end l || is_comment l) m (assign (cut_at_equals l) m) (λ _. c)
      (λ _. assign-IsClean (cut_at_equals l) m c)

read_lines-IsClean : (ls : List String) (m : EnvVars) → IsClean m → IsClean (read_lines ls m)
unfolding read_lines
read_lines-IsClean [] m c = c
read_lines-IsClean (l ∷ ls) m c =
    read_lines-IsClean ls (read_line (trim l) m) (read_line-IsClean (trim l) m c)

-- Whatever an .env file holds, the environment that its parser gives passes assertSafeEnvObject, so
-- that the restart which carries it is not refused for its keys.
pub parse_env_file-safe : (content : String) → is_safe_env (some (parse_env_file content)) ≡ true
unfolding is_safe_env parse_env_file
parse_env_file-safe content =
    ground (arith, read_lines-IsClean (split_lines content) [] (unfold anyb in refl))
