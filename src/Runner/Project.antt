-- ===== src/Runner/Project.antt =====
-- internal/core/runner/nodejs/setup.go: the release of the library and of the project that the
-- binary embeds; and the release of the library of internal/core/runner/python/setup.go.
-- The embedded files and the disk are arguments: the answer of the disk to an operation may
-- depend on the operations that it did before.

pub mod Copy
use dify_sandbox.Base.{
  ℕ, zero, suc, ◌≡◌, refl, Bool, true, false, not, ◌||◌, ◌⊎◌, inl, inr, List, [], ◌∷◌, ◌++◌, Option,
  none, some, Bytes, codes, if◌then◌else◌,
}

-- `fs.DirEntry`
pub record DirEntry : Type 0 where
  pub name : Bytes
  pub is_dir : Bool

-- `embed.FS`, each call with its error on the left.
pub record EmbedFs : Type 0 where
  pub read_dir : Bytes → Bytes ⊎ List DirEntry
  pub read_file : Bytes → Bytes ⊎ Bytes

-- What the code asks of the disk.
pub data DiskOp : Type 0 where
  remove_all : Bytes → DiskOp
  remove : Bytes → DiskOp
  mkdir_all : Bytes → DiskOp
  mkdir : Bytes → DiskOp
  write_file : Bytes → Bytes → DiskOp

-- The error of an operation, after those that were done.
abbrev pub Disk : Type 0
Disk = List DiskOp → DiskOp → Option Bytes

-- `starved` is for a recursion that is deeper than its fuel.
pub data Status : Type 0 where
  copied : Status
  refused : Bytes → Status
  starved : Status

-- How a piece of code ended, and what was done by then.
abbrev pub Progress : Type 0
Progress = Status × List DiskOp

unfoldable pub then_do : Progress → (List DiskOp → Progress) → Progress
then_do (copied, done) next = next done
then_do (refused e, done) next = (refused e, done)
then_do (starved, done) next = (starved, done)

unfoldable pub on_disk : Disk → DiskOp → List DiskOp → Progress
on_disk disk op done = elim (disk done op) [
  | some e ↦ (refused e, done)
  | none ↦ (copied, done ++ (op ∷ []))
]

unfoldable pub under : Bytes → Bytes → Bytes
under base name = base ++ (codes "/" ++ name)

-- The loop over the entries of a directory; `copy_dir` is the recursive call.
unfoldable pub copy_entries :
    EmbedFs
    → Disk
    → (Bytes → Bytes → List DiskOp → Progress)
    → List DirEntry
    → Bytes
    → Bytes
    → List DiskOp
    → Progress
unfolding then_do on_disk under
copy_entries fs disk copy_dir [] src dst done = (copied, done)
copy_entries fs disk copy_dir (entry ∷ entries) src dst done =
    let src_path = under src entry.name in
    let dst_path = under dst entry.name in
    let rest = copy_entries fs disk copy_dir entries src dst in
    if entry.is_dir
    then then_do (then_do (on_disk disk (mkdir dst_path) done) (copy_dir src_path dst_path)) rest
    else elim (fs.read_file src_path) [
      | inl e ↦ (refused e, done)
      | inr data_bytes ↦ then_do (on_disk disk (write_file dst_path data_bytes) done) rest
    ]

-- `recursively_copy`, on fuel for the depth of the directories.
unfoldable pub recursively_copy : EmbedFs → Disk → ℕ → Bytes → Bytes → List DiskOp → Progress
unfolding copy_entries
recursively_copy fs disk zero src dst done = (starved, done)
recursively_copy fs disk (suc n) src dst done = elim (fs.read_dir src) [
  | inl e ↦ (refused e, done)
  | inr entries ↦ copy_entries fs disk (recursively_copy fs disk n) entries src dst done
]

abbrev pub lib_path : Bytes
lib_path = codes "/var/sandbox/sandbox-nodejs"

abbrev pub lib_file : Bytes
lib_file = codes "/var/sandbox/sandbox-nodejs/nodejs.so"

abbrev pub project_path : Bytes
project_path = codes "/var/sandbox/sandbox-nodejs/nodejs-project"

-- `releaseLibBinary`, up to the panic that an error ends in; the first removal may fail.
unfoldable pub release_lib_binary : EmbedFs → Disk → Bytes → ℕ → Progress
unfolding then_do on_disk recursively_copy
release_lib_binary fs disk nodejs_lib fuel =
    let (_, removed) = on_disk disk (remove_all lib_path) [] in
    then_do (on_disk disk (mkdir_all lib_path) removed) (λ done1.
      then_do (on_disk disk (write_file lib_file nodejs_lib) done1) (λ done2.
        then_do (on_disk disk (mkdir_all project_path) done2)
          (recursively_copy fs disk fuel (codes "dependens") project_path)))

abbrev pub python_lib_path : Bytes
python_lib_path = codes "/var/sandbox/sandbox-python"

abbrev pub python_lib_file : Bytes
python_lib_file = codes "/var/sandbox/sandbox-python/python.so"

-- `releaseLibBinary` of Python, up to the panic that an error ends in; `there` says that the library
-- is there already.
unfoldable pub python_release_lib_binary : Bool → Disk → Bytes → Bool → Progress
unfolding then_do on_disk
python_release_lib_binary there disk python_lib force_remove_old_lib =
    let write : List DiskOp → Progress = λ done1.
      then_do (on_disk disk (mkdir_all python_lib_path) done1)
        (on_disk disk (write_file python_lib_file python_lib)) in
    if there
    then if force_remove_old_lib
      then then_do (on_disk disk (remove python_lib_file) []) write
      else (copied, [])
    else write []

-- `InitializeEnvironment` of Node.js: the library is released again if it is gone; the bootstrap is
-- written below the temporary directory `root`. A release that is cut short is a panic.
unfoldable pub nodejs_initialize_environment :
    EmbedFs → Disk → Bytes → ℕ → Bool → Bytes → Bytes → Progress
unfolding then_do on_disk release_lib_binary
nodejs_initialize_environment fs disk nodejs_lib fuel there code root =
    let script = root ++ (project_path ++ codes "/node_temp/node_temp/test.js") in
    then_do (if there then (copied, []) else release_lib_binary fs disk nodejs_lib fuel)
      (on_disk disk (write_file script code))
