-- ===== src/Runner/NodeRoot.antt =====
-- The directory that a script of Node.js runs in: the loop of internal/core/runner/temp_dir.go over
-- the paths of internal/core/runner/nodejs/nodejs.go, on a file system. A place is a clean absolute
-- path, as the list of its names; there are no links. The calls of the system are arguments.

pub mod Places
pub mod Copies
pub mod Project
pub mod Elsewhere
pub mod Nested
use dify_sandbox.Base.{
  Bool, true, false, ◌≡◌, ◌≢◌, ◌⊎◌, inl, inr, List, [], ◌∷◌, ◌++◌, Option, none, some, Bytes, codes,
  eqb, if◌then◌else◌,
}
use dify_sandbox.Runner.{nodejs_bootstrap}

abbrev pub Place : Type 0
Place = List Bytes

pub data Node : Type 0 where
  directory : Node
  regular : Bytes → Node

-- What is where.
abbrev pub Files : Type 0
Files = Place → Option Node

-- What is left of `q` below `d`.
unfoldable pub strip : Place → Place → Option Place
strip [] q = some q
strip (a ∷ d) [] = none
strip (a ∷ d) (b ∷ q) = let rest = strip d q in if eqb a b then rest else none

-- `path.Dir`
unfoldable pub path_dir : Place → Place
path_dir [] = []
path_dir (a ∷ []) = []
path_dir (a ∷ (b ∷ p)) = a ∷ path_dir (b ∷ p)

-- The calls, each with its error on the left or the files behind it.
pub record FileCalls : Type 0 where
  pub mkdir : Place → Files → Bytes ⊎ Files
  pub mkdir_all : Place → Files → Bytes ⊎ Files
  pub cp : Place → Place → Files → Bytes ⊎ Files  -- `cp -r`
  pub write_file : Place → Bytes → Files → Bytes ⊎ Files

unfoldable pub and_then : Bytes ⊎ Files → (Files → Bytes ⊎ Files) → Bytes ⊎ Files
and_then (inl e) next = inl e
and_then (inr fs) next = next fs

-- The loop of `WithTempDir`.
unfoldable pub copy_files : FileCalls → Place → List Place → Files → Bytes ⊎ Files
unfolding and_then path_dir
copy_files calls tmp [] fs = inr fs
copy_files calls tmp (p ∷ ps) fs =
    let rest = copy_files calls tmp ps in
    let copied : Files → Bytes ⊎ Files = λ fs'. and_then (calls.cp p (tmp ++ p) fs') rest in
    elim (fs p) [
      | none ↦ rest fs
      | some directory ↦ and_then (calls.mkdir_all (tmp ++ p) fs) copied
      | some (regular content) ↦ and_then (calls.mkdir_all (tmp ++ path_dir p) fs) copied
    ]

-- `tmpDir`, under the base directory of the runner.
abbrev pub tmp_dir : Bytes → Place
tmp_dir uuid = codes "tmp" ∷ (codes "sandbox-" ++ uuid) ∷ []

abbrev pub lib_place : Place
lib_place = codes "var" ∷ codes "sandbox" ∷ codes "sandbox-nodejs" ∷ codes "nodejs.so" ∷ []

abbrev pub project_place : Place
project_place = codes "var" ∷ codes "sandbox" ∷ codes "sandbox-nodejs" ∷ codes "nodejs-project" ∷ []

abbrev pub node_temp : Bytes
node_temp = codes "node_temp"

abbrev etc : Bytes → Place
etc name = codes "etc" ∷ name ∷ []

-- The paths behind the project.
abbrev pub other_files : List Place
other_files =
    lib_place
    ∷ (codes "etc" ∷ codes "ssl" ∷ codes "certs" ∷ codes "ca-certificates.crt" ∷ [])
    ∷ etc (codes "nsswitch.conf")
    ∷ etc (codes "resolv.conf")
    ∷ (codes "run" ∷ codes "systemd" ∷ codes "resolve" ∷ codes "stub-resolv.conf" ∷ [])
    ∷ etc (codes "hosts")
    ∷ []

-- `REQUIRED_FS`
abbrev pub required_fs : List Place
required_fs = (project_place ++ (node_temp ∷ [])) ∷ other_files

-- Where `InitializeEnvironment` puts the script, below the directory.
abbrev pub script_place : Place
script_place = project_place ++ (node_temp ∷ node_temp ∷ codes "test.js" ∷ [])

-- `WithTempDir`, whose UUID is an argument; the change of the working directory changes no files.
unfoldable pub with_files :
    FileCalls → Bytes → List Place → (Place → Files → Bytes ⊎ Files) → Files → Bytes ⊎ Files
unfolding and_then copy_files
with_files calls uuid paths closure fs =
    and_then (calls.mkdir (tmp_dir uuid) fs)
      (λ made. and_then (copy_files calls (tmp_dir uuid) paths made) (closure (tmp_dir uuid)))

-- `checkLibAvaliable`
unfoldable pub check_lib_avaliable : Files → Bool
check_lib_avaliable fs = elim (fs lib_place) [ none ↦ false | some there ↦ true ]

-- `InitializeEnvironment`; `release` is `releaseLibBinary`, with its panic on the left.
unfoldable pub write_test :
    FileCalls → (Files → Bytes ⊎ Files) → Bytes → Place → Files → Bytes ⊎ Files
unfolding and_then check_lib_avaliable
write_test calls release code tmp fs =
    and_then (if check_lib_avaliable fs then inr fs else release fs)
      (calls.write_file (tmp ++ script_place) code)

-- What `Run` of Node.js does to the files up to its pipe; `sandbox_fs` is the embedded prescript.js.
unfoldable pub place_nodejs :
    FileCalls → (Files → Bytes ⊎ Files) → Bytes → Bytes → Bytes → Files → Bytes ⊎ Files
unfolding with_files write_test nodejs_bootstrap
place_nodejs calls release sandbox_fs preload uuid =
    with_files calls uuid required_fs
      (write_test calls release (nodejs_bootstrap sandbox_fs preload))

-- What the calls do to the files.
unfoldable pub put : Place → Node → Files → Files
unfolding strip
put p n fs q = elim (strip p q) [ some [] ↦ some n | some (_ ∷ _) ↦ fs q | none ↦ fs q ]

unfoldable pub put_dirs : Place → Files → Files
unfolding strip
put_dirs p fs q = elim (strip q p) [ some rest ↦ some directory | none ↦ fs q ]

unfoldable pub graft : Place → Place → Files → Files
unfolding strip
graft src dst fs q = elim (strip dst q) [ some rest ↦ fs (src ++ rest) | none ↦ fs q ]

-- Not a regular file.
abbrev pub IsPassable : Option Node → Type 0
IsPassable (some (regular content)) = ⊥
IsPassable _ = Unit

-- Not a directory.
abbrev pub IsWritable : Option Node → Type 0
IsWritable (some directory) = ⊥
IsWritable _ = Unit

-- The documented effect of the calls, on a disk without faults. A `cp -r` of a directory onto one
-- that is there copies it into that one, under its own name.
pub record Documented (calls : FileCalls) : Type 0 where
  pub mkdir :
      (p : Place) (fs : Files)
      → fs p ≡ none
      → fs (path_dir p) ≡ some directory
      → calls.mkdir p fs ≡ inr (put p directory fs)
  pub mkdir_all :
      (p : Place) (fs : Files)
      → ((q rest : Place) → q ++ rest ≡ p → IsPassable (fs q))
      → calls.mkdir_all p fs ≡ inr (put_dirs p fs)
  pub cp_file :
      (src dst : Place) (content : Bytes) (fs : Files)
      → fs src ≡ some (regular content)
      → fs dst ≡ none
      → fs (path_dir dst) ≡ some directory
      → calls.cp src dst fs ≡ inr (put dst (regular content) fs)
  pub cp_dir :
      (above : Place) (name : Bytes) (dst : Place) (fs : Files)
      → fs (above ++ (name ∷ [])) ≡ some directory
      → fs dst ≡ some directory
      → ((rest : Place) → fs (dst ++ (name ∷ rest)) ≡ none)
      → calls.cp (above ++ (name ∷ [])) dst fs
        ≡ inr (graft (above ++ (name ∷ [])) (dst ++ (name ∷ [])) fs)
  pub write_file :
      (p : Place) (content : Bytes) (fs : Files)
      → IsWritable (fs p)
      → fs (path_dir p) ≡ some directory
      → calls.write_file p content fs ≡ inr (put p (regular content) fs)
