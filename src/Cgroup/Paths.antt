-- ===== src/Cgroup/Paths.antt =====
-- packages/worker-manager/src/cgroup.ts: /proc/self/cgroup, the candidate paths and the first that
-- can be read.
use Prim.Native.Char.{code}
use Prim.Native.String.{String, [] as end, ◌∷◌ as ◌⊳◌}
use text.Mathlib.Text.{◌==◌ as str_eq}
use clusterkit.Common.{
  Bool, true, false, not, ◌&&◌, Option, none, some, List, [], ◌∷◌, map, filterb, anyb,
  if◌then◌else◌, ◌==◌,
}
use clusterkit.Texts.{split_on, join_with, starts_with, is_empty, append}
use clusterkit.Validation.Text.{trim}

pub record Node : Type 0 where
  pub is_linux : Bool
  pub read_file : String → Option String
  pub join : List String → String
  pub resolve : String → String

pub record ProcCgroupEntry : Type 0 where
  pub controllers : List String
  pub path : String

-- The parts of a line after `split(":")`.
unfoldable pub controllers_of : List String → List String
unfolding split_on is_empty
controllers_of [] = []
controllers_of (x ∷ []) = []
controllers_of (x ∷ c ∷ parts) = if is_empty c then [] else split_on 44 c

unfoldable pub path_of : List String → String
unfolding join_with is_empty
path_of [] = "/"
path_of (x ∷ []) = "/"
path_of (x ∷ c ∷ parts) = let path = join_with ":" parts in if is_empty path then "/" else path

unfoldable pub entry_of : List String → ProcCgroupEntry
unfolding controllers_of path_of
entry_of parts = record { controllers = controllers_of parts; path = path_of parts }

unfoldable pub parse_proc_self_cgroup : String → List ProcCgroupEntry
unfolding entry_of split_on trim filterb is_empty
parse_proc_self_cgroup raw =
    map (λ line. entry_of (split_on 58 line))
      (filterb (λ line. not (is_empty line)) (map trim (split_on 10 raw)))

-- `replace(/^\/+/, "")`.
unfoldable pub normalize_cgroup_path : String → String
normalize_cgroup_path end = end
normalize_cgroup_path (c ⊳ s) = if code c == 47 then normalize_cgroup_path s else c ⊳ s

unfoldable pub normalized : Option String → String
unfolding normalize_cgroup_path
normalized none = end
normalized (some path) = normalize_cgroup_path path

-- `none` where the path leaves the root.
unfoldable pub guarded : String → String → Option String
unfolding starts_with append
guarded root path =
    if not (str_eq path root) && not (starts_with (append root "/") path) then none else some path

unfoldable pub build_candidate_path : Node → String → Option String → String → Option String
unfolding guarded normalized is_empty
build_candidate_path e root cgroup_path file_name =
    let sub = normalized cgroup_path in
    let joined =
      if is_empty sub
      then e.join (root ∷ file_name ∷ [])
      else e.join (root ∷ sub ∷ file_name ∷ []) in
    guarded (e.resolve root) (e.resolve joined)

unfoldable pub with_fallback : Option String → String → List String
with_fallback none fallback_path = fallback_path ∷ []
with_fallback (some primary) fallback_path = primary ∷ fallback_path ∷ []

unfoldable pub build_candidate_paths : Node → String → Option String → String → String → List String
unfolding with_fallback build_candidate_path
build_candidate_paths e root cgroup_path file_name fallback_path =
    with_fallback (build_candidate_path e root cgroup_path file_name) fallback_path

unfoldable pub first_path : (ProcCgroupEntry → Bool) → List ProcCgroupEntry → Option String
first_path p [] = none
first_path p (x ∷ xs) = if p x then some x.path else first_path p xs

abbrev pub no_controllers : List String → Bool
no_controllers [] = true
no_controllers (c ∷ cs) = false

unfoldable pub get_v2_process_path : List ProcCgroupEntry → Option String
unfolding first_path
get_v2_process_path entries = first_path (λ entry. no_controllers entry.controllers) entries

unfoldable pub get_v1_controller_path : List ProcCgroupEntry → String → Option String
unfolding first_path
get_v1_controller_path entries controller =
    first_path (λ entry. anyb (λ c. str_eq c controller) entry.controllers) entries

-- `tryRead`.
unfoldable pub trimmed : Option String → Option String
unfolding trim
trimmed none = none
trimmed (some raw) = some (trim raw)

-- `tryReadFirst`, and `tryReadFirstSync`.
unfoldable pub try_read_first : Node → List String → Option String
unfolding trimmed
try_read_first e [] = none
try_read_first e (path ∷ paths) =
    let later = try_read_first e paths in
    elim (trimmed (e.read_file path)) [ none ↦ later | some raw ↦ some raw ]
