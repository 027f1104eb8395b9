-- ===== src/Dependencies.antt =====
-- internal/core/runner/python/dependencies/*.go and the requirements of
-- internal/core/runner/python/setup.go: which packages are listed as installed. The map of the
-- preloaded packages is an association list with one entry for each key; Go lists it in any order.
pub mod Lines
pub mod Listing
use dify_sandbox.Base.{
  ℕ, ◌≡◌, Bool, true, false, ◌&&◌, ◌||◌, not, List, [], ◌∷◌, ◌++◌, Option, none, some, Bytes, codes,
  eqb, leb, ◌==◌, if◌then◌else◌,
}
use dify_sandbox.Text.Search.{contains}
use dify_sandbox.Text.Split.{split, grow}

-- `strings.Split(s, sep)` for a separator of two bytes
unfoldable pub split_two : ℕ → ℕ → Bytes → List Bytes
split_two a b [] = [] ∷ []
split_two a b (c ∷ []) = (c ∷ []) ∷ []
split_two a b (c ∷ d ∷ s) =
    let after = split_two a b s in
    let rest = split_two a b (d ∷ s) in if c == a && d == b then [] ∷ after else grow c rest

-- The first two parts, as `ExtractOnelineDepency` takes them.
abbrev pub two_parts : List Bytes → Bytes × Bytes
two_parts [] = ([], [])
two_parts (p ∷ []) = (p, [])
two_parts (p ∷ q ∷ ps) = (p, q)

-- A byte of the class `[a-zA-Z0-9_-]`
unfoldable pub is_word : ℕ → Bool
is_word c =
    leb b'a' c && leb c b'z'
    || leb b'A' c && leb c b'Z'
    || leb b'0' c && leb c b'9'
    || c == b'_'
    || c == b'-'

-- `preg.MatchString`: one such byte, anywhere.
unfoldable pub has_word : Bytes → Bool
unfolding is_word
has_word [] = false
has_word (c ∷ s) = is_word c || has_word s

abbrev pub delimiters : List (ℕ × ℕ)
delimiters = (b'=', b'=') ∷ (b'>', b'=') ∷ (b'<', b'=') ∷ (b'~', b'=') ∷ []

-- The loop over the delimiters, and what follows it.
unfoldable pub extract_with : List (ℕ × ℕ) → Bytes → Bytes × Bytes
unfolding contains split_two has_word
extract_with [] line = if has_word line then (line, []) else ([], [])
extract_with ((a, b) ∷ ds) line =
    let rest = extract_with ds line in
    if contains line (a ∷ b ∷ []) then two_parts (split_two a b line) else rest

-- `ExtractOnelineDepency`
unfoldable pub extract_oneline_depency : Bytes → Bytes × Bytes
unfolding extract_with
extract_oneline_depency line = extract_with delimiters line

-- `preload_script_map`
abbrev pub ScriptMap : Type 0
ScriptMap = List (Bytes × Bytes)

-- `SetupDependency`
unfoldable pub setup_dependency : Bytes → Bytes → ScriptMap → ScriptMap
setup_dependency name version [] = (name, version) ∷ []
setup_dependency name version ((n, v) ∷ m) =
    let rest = setup_dependency name version m in
    if eqb n name then (name, version) ∷ m else (n, v) ∷ rest

-- `GetDependency`; a missing key gives the empty text.
unfoldable pub get_dependency : Bytes → ScriptMap → Bytes
get_dependency name [] = []
get_dependency name ((n, v) ∷ m) =
    let rest = get_dependency name m in if eqb n name then v else rest

-- The `init` functions of jinja2.go and requests.go, in the order of the files.
abbrev pub built_in : ScriptMap
built_in = (codes "jinja2", []) ∷ (codes "httpx", []) ∷ (codes "requests", []) ∷ []

-- The two calls of `strings.ReplaceAll` on the requirements: "\r\n", then "\r", to "\n".
unfoldable pub crlf_to_lf : Bytes → Bytes
crlf_to_lf [] = []
crlf_to_lf (c ∷ []) = c ∷ []
crlf_to_lf (c ∷ d ∷ s) =
    let after = crlf_to_lf s in
    let rest = crlf_to_lf (d ∷ s) in if c == 13 && d == 10 then 10 ∷ after else c ∷ rest

unfoldable pub cr_to_lf : Bytes → Bytes
cr_to_lf [] = []
cr_to_lf (c ∷ s) = let rest = cr_to_lf s in if c == 13 then 10 ∷ rest else c ∷ rest

-- The lines that are looked at.
unfoldable pub requirement_lines : Bytes → List Bytes
unfolding crlf_to_lf cr_to_lf split
requirement_lines requirements = split 10 (cr_to_lf (crlf_to_lf requirements))

abbrev pub add_line : Bytes × Bytes → ScriptMap → ScriptMap
add_line (name, version) m = if eqb name [] then m else setup_dependency name version m

-- The loop over the lines.
unfoldable pub setup_lines : List Bytes → ScriptMap → ScriptMap
unfolding extract_oneline_depency setup_dependency
setup_lines [] m = m
setup_lines (l ∷ ls) m = setup_lines ls (add_line (extract_oneline_depency l) m)

-- What pip does.
pub data Pip : Type 0 where
  -- The requirements cannot be written, which is no error.
  unwritten : Pip
  -- The directory, the pipe, the start or the wait fails.
  fails : Bytes → Pip
  installed : Pip

-- `InstallDependencies`: the map, and the error.
unfoldable pub install_dependencies : Pip → Bytes → ScriptMap → ScriptMap × Option Bytes
unfolding setup_lines requirement_lines eqb
install_dependencies pip requirements m = if eqb requirements [] then (m, none) else elim pip [
  | unwritten ↦ (m, none)
  | fails e ↦ (m, some e)
  | installed ↦ (setup_lines (requirement_lines requirements) m, none)
]

-- The arguments of pip3; `parse_url` gives the host of a mirror, and `none` is the nil dereference
-- behind a mirror that cannot be parsed.
unfoldable pub pip_args : (Bytes → Option Bytes) → Bytes → Option (List Bytes)
unfolding eqb
pip_args parse_url mirror =
    let base = codes "install" ∷ codes "-r" ∷ codes "requirements.txt" ∷ [] in
    if eqb mirror [] then some base else elim (parse_url mirror) [
      | none ↦ none
      | some host ↦ some (base ++ (codes "-i" ∷ mirror ∷ codes "--trusted-host" ∷ host ∷ []))
    ]

-- `ListDependencies`; Go lists the entries in any order.
abbrev pub list_dependencies : ScriptMap → List (Bytes × Bytes)
list_dependencies m = m

-- `RefreshDependencies`: the map, and the list that is returned, `none` for nil behind an error.
unfoldable pub refresh_dependencies :
    Pip → Bytes → ScriptMap → ScriptMap × Option (List (Bytes × Bytes))
unfolding install_dependencies
refresh_dependencies pip requirements m =
    let (m', e) = install_dependencies pip requirements m in
    (m', elim e [ some t ↦ none | none ↦ some (list_dependencies m') ])
