-- ===== src/Discovery.antt =====
-- internal/static/python_lib_discovery.go: which interpreter is used, and which of its paths are
-- copied into the sandbox. The script that Python runs is not Go; what it prints is the argument
-- `result`. The file system is an argument too: what `os.Stat` and `filepath.EvalSymlinks` return.
pub mod Members
pub mod Paths
pub mod Dedupe
pub mod Environment
use dify_sandbox.Base.{
  ℕ, ◌%◌, ◌/◌, ◌≡◌, Bool, true, false, not, ◌&&◌, ◌||◌, List, [], ◌∷◌, ◌++◌, Option, none, some,
  Bytes, codes, eqb, has_prefix, if◌then◌else◌, ◌==◌, String,
}
use dify_sandbox.Text.FilePath.{clean, is_abs}

-- `containsPath`
unfoldable pub contains_path : List Bytes → Bytes → Bool
contains_path [] path = false
contains_path (x ∷ xs) path = let rest = contains_path xs path in if eqb x path then true else rest

-- The loop of `dedupePaths`; the keys of `seen` are a list.
unfoldable pub dedupe_from : List Bytes → List Bytes → List Bytes
unfolding contains_path
dedupe_from seen [] = []
dedupe_from seen (x ∷ xs) =
    let rest = x ∷ dedupe_from (x ∷ seen) xs in
    let again = dedupe_from seen xs in if contains_path seen x then again else rest

-- `dedupePaths`
unfoldable pub dedupe_paths : List Bytes → List Bytes
unfolding dedupe_from
dedupe_paths xs = dedupe_from [] xs

-- `isCanonicalJSONRelativePath`
unfoldable pub is_canonical_json_relative_path : Bytes → Bool
is_canonical_json_relative_path path =
    if eqb path []
    then false
    else if eqb (clean path) (codes "json.py") || eqb (clean path) (codes "json")
    then true
    else has_prefix (clean path) (codes "json/")

-- What `os.Stat` reports of a file: whether it is a directory, and its permission bits.
pub record FileInfo : Type 0 where
  pub is_dir : Bool
  pub perm : ℕ

-- The file system; `none` is an error.
pub record Files : Type 0 where
  pub stat : Bytes → Option FileInfo
  pub eval_symlinks : Bytes → Option Bytes

abbrev pub resolved : Option Bytes → Option Bytes
resolved none = none
resolved (some path) = if not (is_abs path) then none else some (clean path)

-- `normalizeAbsolutePath`; `none` is `false`.
unfoldable pub normalize_absolute_path : Files → Bytes → Bool → Option Bytes
normalize_absolute_path fs path resolve_symlinks =
    if eqb path []
    then none
    else if not (is_abs (clean path))
    then none
    else elim (fs.stat (clean path)) [
      | none ↦ none
      | some info ↦
          if not resolve_symlinks
          then some (clean path)
          else resolved (fs.eval_symlinks (clean path))
    ]

abbrev pub normalize_existing : Files → Bytes → Option Bytes
normalize_existing fs path = normalize_absolute_path fs path false

abbrev pub normalize_preserving_symlinks : Files → Bytes → Option Bytes
normalize_preserving_symlinks fs path = normalize_absolute_path fs path false

-- `pythonLibDiscoveryResult`
pub record DiscoveryResult : Type 0 where
  pub paths : List Bytes
  pub stdlib : Bytes
  pub platstdlib : Bytes
  pub stdlib_zip_paths : List Bytes
  pub json_relative_path : Bytes
  pub json_root : Bytes

-- The errors of `buildPythonLibPaths`, in the order of their tests.
pub data BuildError : Type 0 where
  no_stdlib no_json_root foreign_json uncanonical_json missing_stdlib missing_json : BuildError

pub data Built : Type 0 where
  ok : List Bytes → Built
  err : BuildError → Built

-- The paths that normalise, of a list: the loops over `StdlibZipPaths`, `Paths`, `systemPaths`.
unfoldable pub normalized : (Bytes → Option Bytes) → List Bytes → List Bytes
normalized f [] = []
normalized f (x ∷ xs) = elim (f x) [ none ↦ normalized f xs | some y ↦ y ∷ normalized f xs ]

-- `allowedJSONRoots`
abbrev pub allowed_json_roots : Files → DiscoveryResult → Bytes → List Bytes
allowed_json_roots fs r stdlib = dedupe_paths (
    stdlib
    ∷ (normalized (normalize_existing fs) (r.platstdlib ∷ [])
        ++ normalized (normalize_existing fs) r.stdlib_zip_paths))

-- `candidates`
abbrev pub candidates : Files → DiscoveryResult → List Bytes → Bytes → Bytes → List Bytes
candidates fs r system_paths stdlib json_root =
    allowed_json_roots fs r stdlib
    ++ (json_root
        ∷ (normalized (normalize_existing fs) r.paths
            ++ normalized (normalize_preserving_symlinks fs) system_paths))

-- The checks behind the roots.
unfoldable pub checked_paths : Files → DiscoveryResult → List Bytes → Bytes → Bytes → Built
checked_paths fs r system_paths stdlib json_root =
    if not (contains_path (allowed_json_roots fs r stdlib) json_root)
    then err foreign_json
    else if not (is_canonical_json_relative_path r.json_relative_path)
    then err uncanonical_json
    else let paths = dedupe_paths (candidates fs r system_paths stdlib json_root) in
      if not (contains_path paths stdlib)
      then err missing_stdlib
      else if not (contains_path paths json_root)
      then err missing_json
      else ok paths

-- `buildPythonLibPaths`
unfoldable pub build_python_lib_paths : Files → DiscoveryResult → List Bytes → Built
unfolding checked_paths
build_python_lib_paths fs r system_paths = elim (normalize_existing fs r.stdlib) [
  | none ↦ err no_stdlib
  | some stdlib ↦ elim (normalize_existing fs r.json_root) [
    | none ↦ err no_json_root
    | some json_root ↦ checked_paths fs r system_paths stdlib json_root
  ]
]

-- What `resolvePythonPath` answers.
pub data ResolveError : Type 0 where
  empty_path no_file is_a_directory not_executable not_found : ResolveError

pub data Resolved : Type 0 where
  path : Bytes → Resolved
  refused : ResolveError → Resolved

abbrev pub found_path : Option Bytes → Resolved
found_path none = refused not_found
found_path (some p) = path p

-- `perm & 0o111 != 0`: one of the three execute bits is set.
abbrev pub has_exec_bit : ℕ → Bool
has_exec_bit perm = not (perm % 2 == 0 && (perm / 8 % 2 == 0 && perm / 64 % 2 == 0))

abbrev pub executable_path : Bytes → Option FileInfo → Resolved
executable_path p none = refused no_file
executable_path p (some info) =
    if info.is_dir
    then refused is_a_directory
    else if not (has_exec_bit info.perm)
    then refused not_executable
    else path (clean p)

-- `resolvePythonPath`; `look_path` is `exec.LookPath` followed by `filepath.Abs`.
unfoldable pub resolve_python_path : Files → (Bytes → Option Bytes) → Bytes → Resolved
resolve_python_path fs look_path p =
    if eqb p []
    then refused empty_path
    else if is_abs p
    then executable_path p (fs.stat p)
    else found_path (look_path p)
