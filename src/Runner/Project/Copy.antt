-- ===== src/Runner/Project/Copy.antt =====
-- The copy of the embedded project against a reference: the operations of a file tree in order.
use dify_sandbox.Base.{
  ℕ, zero, suc, ◌+◌, ◌≤◌, ◌<◌, ◌≡◌, refl, sym, ap, ◌∙◌, true, false, inr, List, [], ◌∷◌, ◌++◌,
  Bytes, codes, arith, fun_ext,
}
use dify_sandbox.Runner.Project.{
  DirEntry, EmbedFs, DiskOp, remove_all, mkdir_all, mkdir, write_file, Disk, copied, refused,
  starved, Progress, then_do, on_disk, under, copy_entries, recursively_copy, release_lib_binary,
  lib_path, lib_file, project_path,
}

-- The contents of a directory: nothing, or a file or a directory before the others.
pub data Tree : Type 0 where
  leaf : Tree
  file : Bytes → Bytes → Tree → Tree
  dir : Bytes → Tree → Tree → Tree

abbrev pub listing : Tree → List DirEntry
listing leaf = []
listing (file name content rest) = record { name = name; is_dir = false } ∷ listing rest
listing (dir name sub rest) = record { name = name; is_dir = true } ∷ listing rest

abbrev pub dirs : Tree → ℕ
dirs leaf = 0
dirs (file name content rest) = dirs rest
dirs (dir name sub rest) = suc (dirs sub + dirs rest)

-- The embedded file system holds these contents under `src`.
unfoldable pub Contents : EmbedFs → Bytes → Tree → Type 0
unfolding under
Contents fs src leaf = Unit
Contents fs src (file name content rest) =
    (fs.read_file (under src name) ≡ inr content) × Contents fs src rest
Contents fs src (dir name sub rest) =
    (fs.read_dir (under src name) ≡ inr (listing sub))
    × Contents fs (under src name) sub
    × Contents fs src rest

-- The operations that write these contents under `dst`.
unfoldable pub layout : Bytes → Tree → List DiskOp
unfolding under
layout dst leaf = []
layout dst (file name content rest) = write_file (under dst name) content ∷ layout dst rest
layout dst (dir name sub rest) =
    mkdir (under dst name) ∷ (layout (under dst name) sub ++ layout dst rest)

-- One operation after the other, up to the first that is refused.
unfoldable pub run_ops : Disk → List DiskOp → List DiskOp → Progress
unfolding then_do on_disk
run_ops disk [] done = (copied, done)
run_ops disk (op ∷ ops) done = then_do (on_disk disk op done) (run_ops disk ops)

then_do_assoc :
    (p : Progress) (f g : List DiskOp → Progress)
    → then_do (then_do p f) g ≡ then_do p (λ done. then_do (f done) g)
unfolding then_do
then_do_assoc (copied, done) f g = refl
then_do_assoc (refused e, done) f g = refl
then_do_assoc (starved, done) f g = refl

run_ops-append :
    (disk : Disk) (xs ys done : List DiskOp)
    → run_ops disk (xs ++ ys) done ≡ then_do (run_ops disk xs done) (run_ops disk ys)
unfolding run_ops then_do
run_ops-append disk [] ys done = refl
run_ops-append disk (op ∷ xs) ys done =
    ap (then_do (on_disk disk op done)) (fun_ext (λ d. run_ops-append disk xs ys d))
    ∙ sym (then_do_assoc (on_disk disk op done) (run_ops disk xs) (run_ops disk ys))

recursively_copy-listing :
    (fs : EmbedFs) (disk : Disk) (n : ℕ) (entries : List DirEntry) (src dst : Bytes)
    (done : List DiskOp)
    → fs.read_dir src ≡ inr entries
    → recursively_copy fs disk (suc n) src dst done
      ≡ copy_entries fs disk (recursively_copy fs disk n) entries src dst done
unfolding recursively_copy
recursively_copy-listing fs disk n entries src dst done e = rw (recursively_copy, e) refl

-- The loop over the entries, where the recursive call has fuel for each directory below.
copy_entries-run_ops :
    (fs : EmbedFs) (disk : Disk) (n : ℕ) (t : Tree) (src dst : Bytes) (done : List DiskOp)
    → Contents fs src t
    → dirs t ≤ n
    → copy_entries fs disk (recursively_copy fs disk n) (listing t) src dst done
      ≡ run_ops disk (layout dst t) done
unfolding copy_entries run_ops layout Contents
copy_entries-run_ops fs disk n leaf src dst done c h = refl
copy_entries-run_ops fs disk n (file name content rest) src dst done (e, c) h = rw e (
    ap (then_do (on_disk disk (write_file (under dst name) content) done))
      (fun_ext (λ d. copy_entries-run_ops fs disk n rest src dst d c h)))
copy_entries-run_ops fs disk zero (dir name sub rest) src dst done c h = absurd (omega arith)
copy_entries-run_ops fs disk (suc n) (dir name sub rest) src dst done (e, c, c') h =
    let sub_src = under src name in
    let sub_dst = under dst name in
    let copy_rest =
      copy_entries fs disk (recursively_copy fs disk (suc n)) (listing rest) src dst in
    let copy_sub = recursively_copy fs disk (suc n) sub_src sub_dst in
    then_do_assoc (on_disk disk (mkdir sub_dst) done) copy_sub copy_rest
    ∙ ap (then_do (on_disk disk (mkdir sub_dst) done)) (
        fun_ext (λ d.
          ap (λ p. then_do p copy_rest)
            (recursively_copy-listing fs disk n (listing sub) sub_src sub_dst d e
              ∙ copy_entries-run_ops fs disk n sub sub_src sub_dst d c (omega arith))
          ∙ ap (then_do (run_ops disk (layout sub_dst sub) d)) (
              fun_ext (λ d'. copy_entries-run_ops fs disk (suc n) rest src dst d' c' (omega arith)))
          ∙ sym (run_ops-append disk (layout sub_dst sub) (layout dst rest) d)))

-- The operations of the whole release behind the first removal.
unfoldable pub release_ops : Bytes → Tree → List DiskOp
unfolding layout
release_ops nodejs_lib t =
    mkdir_all lib_path
    ∷ write_file lib_file nodejs_lib
    ∷ mkdir_all project_path
    ∷ layout project_path t

-- Where the embedded directory holds the contents `t` and the fuel is above the number of their
-- directories, the recursive release asks for the removal of the old library, whose failure it
-- ignores, and then for the operations of `release_ops` in order, up to the first that is
-- refused, with which it ends.
pub release-run_ops :
    (fs : EmbedFs) (disk : Disk) (nodejs_lib : Bytes) (t : Tree) (fuel : ℕ)
    → fs.read_dir (codes "dependens") ≡ inr (listing t)
    → Contents fs (codes "dependens") t
    → dirs t < fuel
    → release_lib_binary fs disk nodejs_lib fuel
      ≡ run_ops disk (release_ops nodejs_lib t) ((on_disk disk (remove_all lib_path) []).1)
unfolding release_lib_binary recursively_copy run_ops release_ops
release-run_ops fs disk nodejs_lib t zero e c h = absurd (omega arith)
release-run_ops fs disk nodejs_lib t (suc n) e c h =
    let start = (on_disk disk (remove_all lib_path) []).1 in
    ap (then_do (on_disk disk (mkdir_all lib_path) start)) (
      fun_ext (λ d1. ap (then_do (on_disk disk (write_file lib_file nodejs_lib) d1)) (
        fun_ext (λ d2. ap (then_do (on_disk disk (mkdir_all project_path) d2)) (
          fun_ext (λ d3.
            recursively_copy-listing fs disk n (listing t) (codes "dependens") project_path d3 e
            ∙ copy_entries-run_ops fs disk n t (codes "dependens") project_path d3 c
                (omega arith)))))))
