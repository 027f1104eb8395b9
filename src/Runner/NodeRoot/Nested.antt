-- ===== src/Runner/NodeRoot/Nested.antt =====
-- Where the script of Node.js comes to stand: `WithTempDir` of internal/core/runner/temp_dir.go, and
-- `InitializeEnvironment` of internal/core/runner/nodejs/nodejs.go.

use dify_sandbox.Base.{
  true, ◌⊎◌, All-intro, ◌≡◌, inr, refl, sym, ◌∙◌, [], ◌∷◌, ◌++◌, none, some, Bytes, codes, eqb, All,
  All-imp_both, arith,
}
use dify_sandbox.Runner.{nodejs_bootstrap}
use dify_sandbox.Runner.NodeRoot.{
  check_lib_avaliable, Place, directory, regular, Files, strip, path_dir, FileCalls, and_then,
  copy_files, tmp_dir, lib_place, project_place, node_temp, other_files, required_fs, script_place,
  place_nodejs, with_files, write_test, put, Documented,
}
use dify_sandbox.Runner.NodeRoot.Elsewhere.{only_below, nothing_changed, elsewhere}
use dify_sandbox.Runner.NodeRoot.Places.{
  strip-under, strip_each, put-other, put_dirs-other, put_dirs-above,
}
use dify_sandbox.Runner.NodeRoot.Copies.{Copied, copies}
use dify_sandbox.Runner.NodeRoot.Project.{
  modules, nested, Released, made, opened, filled, opened-new, made-IsPassable, filled-outside,
  filled-Ready, others-Beside, others-Separate, put-under, graft-below,
}

-- The loop over `REQUIRED_FS` in the new directory: the project first, then the files.
copy_required :
    (calls : FileCalls) (doc : Documented calls) (lib uuid : Bytes) (fs : Files)
    → Released lib uuid fs
    → copy_files calls (tmp_dir uuid) required_fs (made uuid fs)
      ≡ copy_files calls (tmp_dir uuid) other_files (filled uuid fs)
unfolding copy_files and_then strip eqb
copy_required calls doc lib uuid fs r =
    let dirs =
      doc.mkdir_all (tmp_dir uuid ++ modules) (made uuid fs)
        (made-IsPassable lib uuid fs r modules) in
    let copied =
      doc.cp_dir project_place node_temp (tmp_dir uuid ++ modules) (opened uuid fs)
        (put_dirs-other (tmp_dir uuid ++ modules) modules (made uuid fs) refl
          ∙ put-other (tmp_dir uuid) modules directory fs refl
          ∙ r.project)
        (put_dirs-above (tmp_dir uuid ++ modules) [] (made uuid fs))
        (λ rest. opened-new lib uuid fs (modules ++ (node_temp ∷ rest)) r refl refl) in
    let here : made uuid fs modules ≡ some directory =
      put-other (tmp_dir uuid) modules directory fs refl ∙ r.project in
    rw (copy_files, here, dirs, copied, and_then) refl

-- Under the copy of the project.
filled-nested :
    (lib uuid : Bytes) (fs : Files) (rest : Place)
    → Released lib uuid fs
    → filled uuid fs (nested uuid ++ rest) ≡ fs (modules ++ rest)
unfolding strip eqb
filled-nested lib uuid fs rest r =
    graft-below modules (nested uuid) rest (opened uuid fs)
    ∙ put_dirs-other (tmp_dir uuid ++ modules) (modules ++ rest) (made uuid fs) refl
    ∙ put-other (tmp_dir uuid) (modules ++ rest) directory fs refl

-- What a script of Node.js finds: its own directory is the project with it in the place of test.js,
-- and the library is copied. Nothing is changed elsewhere.
pub record Furnished (code uuid : Bytes) (fs after : Files) : Type 0 where
  pub beside_script :
      (rest : Place)
      → after (nested uuid ++ rest)
        ≡ put (codes "test.js" ∷ []) (regular code) (λ q. fs (modules ++ q)) rest
  pub library_copied : after (tmp_dir uuid ++ lib_place) ≡ fs lib_place
  pub nothing_else : (q : Place) → after q ≡ only_below (tmp_dir uuid) after fs q

nested-kept :
    (lib uuid : Bytes) (fs after : Files) (rest : Place)
    → Released lib uuid fs
    → Copied (tmp_dir uuid) other_files (filled uuid fs) after
    → after (nested uuid ++ rest) ≡ fs (modules ++ rest)
unfolding strip eqb
nested-kept lib uuid fs after rest r done =
    let off : All (λ p. strip (modules ++ (node_temp ∷ rest)) p ≡ none) other_files =
      ground arith in
    done.others (nested uuid ++ rest)
      (strip_each (tmp_dir uuid) (modules ++ (node_temp ∷ rest)) other_files off)
    ∙ filled-nested lib uuid fs rest r

furnish :
    (lib code uuid : Bytes) (fs after : Files)
    → Released lib uuid fs
    → Copied (tmp_dir uuid) other_files (filled uuid fs) after
    → Furnished code uuid fs (put (tmp_dir uuid ++ script_place) (regular code) after)
unfolding strip eqb
furnish lib code uuid fs after r done =
    let library = (others-Beside uuid).0 in
    record {
      beside_script = λ rest.
          put-under (nested uuid) (codes "test.js" ∷ []) rest (regular code) after
            (λ q. fs (modules ++ q)) (nested-kept lib uuid fs after rest r done);
      library_copied =
          put-other (tmp_dir uuid ++ script_place) (tmp_dir uuid ++ lib_place) (regular code) after
            (strip-under (tmp_dir uuid) lib_place script_place)
          ∙ done.files.0 lib
              (filled-outside uuid fs lib_place library.above_off library.below_off ∙ r.library)
          ∙ sym r.library;
      nothing_else = λ q.
          nothing_changed (tmp_dir uuid) q (put (tmp_dir uuid ++ script_place) (regular code) after)
            fs (elsewhere lib code uuid fs after r done q);
    }

library_there :
    (lib uuid : Bytes) (fs after : Files)
    → Released lib uuid fs
    → Copied (tmp_dir uuid) other_files (filled uuid fs) after
    → check_lib_avaliable after ≡ true
unfolding check_lib_avaliable
library_there lib uuid fs after r done =
    let library = (others-Beside uuid).0 in
    let here =
      done.others lib_place (All-intro library.above_off other_files)
      ∙ filled-outside uuid fs lib_place library.above_off library.below_off
      ∙ r.library in
    rw (here, check_lib_avaliable) refl

-- On a disk without faults, where the project and the library are released, the other paths of
-- REQUIRED_FS are files or not there, and the directory of the UUID is new, `WithTempDir` and the
-- write of the script of Node.js succeed. `cp` copies the released directory `node_temp` into the one
-- of this name that `MkdirAll` made, so it stands twice in the path, as in the path of the script:
-- beside the script is a copy of the project, in which it takes the place of test.js. The library is
-- copied to where the script loads it. Nothing outside the directory is changed: not the released
-- project, and not what another run put into its own.
pub place_nodejs-Furnished :
    (calls : FileCalls) (doc : Documented calls) (release : Files → Bytes ⊎ Files)
    (lib sandbox_fs preload uuid : Bytes) (fs : Files)
    → Released lib uuid fs
    → (after : Files) × (place_nodejs calls release sandbox_fs preload uuid fs ≡ inr after)
      × Furnished (nodejs_bootstrap sandbox_fs preload) uuid fs after
unfolding place_nodejs with_files write_test and_then path_dir
place_nodejs-Furnished calls doc release lib sandbox_fs preload uuid fs r =
    let code = nodejs_bootstrap sandbox_fs preload in
    let ready =
      All-imp_both (λ p b there. filled-Ready lib uuid fs p r b there) other_files
        (others-Beside uuid) r.files in
    let (after, e, done) =
      copies calls doc (tmp_dir uuid) other_files (filled uuid fs) (others-Separate uuid) ready in
    let there = library_there lib uuid fs after r done in
    let start = doc.mkdir (tmp_dir uuid) fs (r.new []) r.tmp in
    let write =
      doc.write_file (tmp_dir uuid ++ script_place) code after
        (rw (nested-kept lib uuid fs after (codes "test.js" ∷ []) r done) r.test)
        (nested-kept lib uuid fs after [] r done ∙ r.project) in
    (
      put (tmp_dir uuid ++ script_place) (regular code) after,
      rw
          (
            place_nodejs,
            with_files,
            start,
            copy_required calls doc lib uuid fs r,
            e,
            there,
            and_then,
          )
          write,
      furnish lib code uuid fs after r done,
    )
