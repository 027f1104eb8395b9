-- ===== src/Runner/NodeRoot/Elsewhere.antt =====
-- What is outside the directory that `WithTempDir` of internal/core/runner/temp_dir.go makes for a run
-- of Node.js.
use dify_sandbox.Base.{
  inr, inl, Option-cases, ◌≡◌, refl, sym, ◌∙◌, [], ◌∷◌, ◌++◌, none, some, Bytes, codes, All-intro,
  arith,
}
use dify_sandbox.Runner.NodeRoot.{
  Place, directory, regular, Files, strip, tmp_dir, node_temp, other_files, script_place, put,
}
use dify_sandbox.Runner.NodeRoot.Places.{
  strip-none, strip-some, strip_longer, strip_beside, put-away, put_dirs-directory, put-other,
}
use dify_sandbox.Runner.NodeRoot.Copies.{Copied}
use dify_sandbox.Runner.NodeRoot.Project.{
  graft-other, modules, nested, Released, made, opened, filled, filled-outside,
}

-- The new files below a place, and the old ones elsewhere.
abbrev pub only_below : Place → Files → Files → Files
only_below d new old q = elim (strip d q) [ some rest ↦ new q | none ↦ old q ]

-- The loop and the write of the script change nothing outside the directory.
kept :
    (code uuid : Bytes) (fs after : Files)
    → Copied (tmp_dir uuid) other_files (filled uuid fs) after
    → (q : Place) → ((x : Place) → strip q (tmp_dir uuid ++ x) ≡ none)
    → ((x : Place) → strip (tmp_dir uuid ++ x) q ≡ none)
    → put (tmp_dir uuid ++ script_place) (regular code) after q ≡ fs q
kept code uuid fs after done q above below =
    put-other (tmp_dir uuid ++ script_place) q (regular code) after (above script_place)
    ∙ done.others q (All-intro above other_files)
    ∙ filled-outside uuid fs q above below

-- Above the directory there are directories before and after.
above-directory :
    (lib uuid : Bytes) (fs : Files) (q rest : Place)
    → Released lib uuid fs
    → strip (tmp_dir uuid) q ≡ none
    → q ++ rest ≡ tmp_dir uuid
    → fs q ≡ some directory
unfolding strip
above-directory lib uuid fs [] rest r h e = r.top
above-directory lib uuid fs (a ∷ []) rest r h e = let name : a ≡ codes "tmp" = cc in rw name r.tmp
above-directory lib uuid fs (a ∷ (b ∷ q)) rest r h e =
    let first : a ≡ codes "tmp" = cc in
    let second : b ≡ codes "sandbox-" ++ uuid = cc in
    absurd (ground (arith, strip-none (tmp_dir uuid) (a ∷ (b ∷ q)) q h))

filled-directory :
    (uuid : Bytes) (fs : Files) (q : Place)
    → strip (tmp_dir uuid) q ≡ none
    → fs q ≡ some directory
    → filled uuid fs q ≡ some directory
filled-directory uuid fs q off here =
    graft-other modules (nested uuid) q (opened uuid fs)
      (strip_longer (tmp_dir uuid) (modules ++ (node_temp ∷ [])) q off)
    ∙ put_dirs-directory (tmp_dir uuid ++ modules) q (made uuid fs)
        (put-away (tmp_dir uuid) q directory fs off ∙ here)

pub elsewhere :
    (lib code uuid : Bytes) (fs after : Files)
    → Released lib uuid fs
    → Copied (tmp_dir uuid) other_files (filled uuid fs) after
    → (q : Place) → strip (tmp_dir uuid) q ≡ none
    → put (tmp_dir uuid ++ script_place) (regular code) after q ≡ fs q
elsewhere lib code uuid fs after r done q off = elim (Option-cases (strip q (tmp_dir uuid))) [
  | inl beside ↦
      kept code uuid fs after done q (λ x. strip_beside q (tmp_dir uuid) x beside off)
        (λ x. strip_longer (tmp_dir uuid) x q off)
  | inr (rest, e) ↦
      let here =
        above-directory lib uuid fs q rest r off (sym (strip-some q (tmp_dir uuid) rest e)) in
      put-away (tmp_dir uuid ++ script_place) q (regular code) after
        (strip_longer (tmp_dir uuid) script_place q off)
      ∙ done.dirs q (filled-directory uuid fs q off here)
      ∙ sym here
]

pub nothing_changed :
    (d q : Place) (new old : Files)
    → (strip d q ≡ none → new q ≡ old q)
    → new q ≡ only_below d new old q
nothing_changed d q new old f = elim (Option-cases (strip d q)) [
  | inl off ↦ rw (off, only_below) (f off)
  | inr (rest, e) ↦ rw (e, only_below) refl
]
