-- ===== src/Runner/NodeRoot/Project.antt =====
-- What the first path of Node.js, the project, becomes in the new directory, and that the other paths
-- of internal/core/runner/nodejs/nodejs.go can be copied after it.
use mathlib.Core.List.{append_assoc}
use dify_sandbox.Base.{
  ◌≡◌, ◌⊎◌, inl, inr, refl, sym, ap, ◌∙◌, Option-cases, [], ◌∷◌, ◌++◌, none, some, Bytes, codes,
  eqb, false, All, arith,
}
use dify_sandbox.Runner.NodeRoot.{
  Place, Node, directory, regular, Files, strip, tmp_dir, lib_place, project_place, node_temp,
  other_files, put, put_dirs, graft, IsPassable, IsWritable,
}
use dify_sandbox.Runner.NodeRoot.Places.{
  strip_append, strip-some, strip-under, strip-none, put-other, put_dirs-other,
}
use dify_sandbox.Runner.NodeRoot.Copies.{Ready, Separate}

-- The released project, and where its copy stands.
abbrev pub modules : Place
modules = project_place ++ (node_temp ∷ [])

abbrev pub nested : Bytes → Place
nested uuid = tmp_dir uuid ++ (modules ++ (node_temp ∷ []))

-- What a run finds: the project and the library are released, the other paths are files or not there,
-- and its directory is new.
pub record Released (lib uuid : Bytes) (fs : Files) : Type 0 where
  pub top : fs [] ≡ some directory
  pub tmp : fs (codes "tmp" ∷ []) ≡ some directory
  pub project : fs modules ≡ some directory
  pub test : IsWritable (fs (modules ++ (codes "test.js" ∷ [])))
  pub library : fs lib_place ≡ some (regular lib)
  pub files :
      All (λ p. (fs p ≡ none) ⊎ ((content : Bytes) × (fs p ≡ some (regular content)))) other_files
  pub new : (rest : Place) → fs (tmp_dir uuid ++ rest) ≡ none

-- The files once the directory is made, once the project's place in it is, and once the project is
-- copied.
abbrev pub made : Bytes → Files → Files
made uuid fs = put (tmp_dir uuid) directory fs

abbrev pub opened : Bytes → Files → Files
opened uuid fs = put_dirs (tmp_dir uuid ++ modules) (made uuid fs)

abbrev pub filled : Bytes → Files → Files
filled uuid fs = graft modules (nested uuid) (opened uuid fs)

pub graft-other : (src dst q : Place) (fs : Files) → strip dst q ≡ none → graft src dst fs q ≡ fs q
unfolding graft
graft-other src dst q fs h = rw (h, graft) refl

pub graft-below :
    (src dst rest : Place) (fs : Files) → graft src dst fs (dst ++ rest) ≡ fs (src ++ rest)
unfolding graft
graft-below src dst rest fs = rw (strip_append dst rest, graft) refl

pub put-under :
    (t p q : Place) (n : Node) (f g : Files)
    → f (t ++ q) ≡ g q
    → put (t ++ p) n f (t ++ q) ≡ put p n g q
unfolding put
put-under t p q n f g h = elim (Option-cases (strip p q)) [
  | inl off ↦ rw (strip-under t p q, off, put) h
  | inr ([], e) ↦ rw (strip-under t p q, e, put) refl
  | inr (x ∷ rest, e) ↦ rw (strip-under t p q, e, put) h
]

-- Above a path in the new directory there is no file.
passable :
    (lib uuid : Bytes) (fs : Files)
    → Released lib uuid fs
    → (p q rest : Place) → q ++ rest ≡ tmp_dir uuid ++ p
    → IsPassable (fs q)
passable lib uuid fs r p [] rest e = rw r.top tt
passable lib uuid fs r p (a ∷ []) rest e = let name : a ≡ codes "tmp" = cc in rw (name, r.tmp) tt
passable lib uuid fs r p (a ∷ (b ∷ q)) rest e =
    let first : a ≡ codes "tmp" = cc in
    let second : b ≡ codes "sandbox-" ++ uuid = cc in rw (first, second, r.new q) tt

pub made-IsPassable :
    (lib uuid : Bytes) (fs : Files)
    → Released lib uuid fs
    → (p q rest : Place) → q ++ rest ≡ tmp_dir uuid ++ p
    → IsPassable (made uuid fs q)
unfolding put
made-IsPassable lib uuid fs r p q rest e = elim (Option-cases (strip (tmp_dir uuid) q)) [
  | inr ([], e') ↦ rw (e', put) tt
  | inr (x ∷ below, e') ↦ rw (e', put) (passable lib uuid fs r p q rest e)
  | inl beside ↦ rw (beside, put) (passable lib uuid fs r p q rest e)
]

-- A path beside the project, outside the new directory.
pub record Beside (uuid : Bytes) (p : Place) : Type 0 where
  pub named : strip p [] ≡ none
  pub above_off : (x : Place) → strip p (tmp_dir uuid ++ x) ≡ none
  pub below_off : (x : Place) → strip (tmp_dir uuid ++ x) p ≡ none
  pub over : strip p modules ≡ none
  pub under : strip (modules ++ (node_temp ∷ [])) p ≡ none

pub opened-new :
    (lib uuid : Bytes) (fs : Files) (p : Place)
    → Released lib uuid fs
    → strip p [] ≡ none
    → strip p modules ≡ none
    → opened uuid fs (tmp_dir uuid ++ p) ≡ none
opened-new lib uuid fs p r named over =
    put_dirs-other (tmp_dir uuid ++ modules) (tmp_dir uuid ++ p) (made uuid fs)
      (strip-under (tmp_dir uuid) p modules ∙ over)
    ∙ put-other (tmp_dir uuid) (tmp_dir uuid ++ p) directory fs
        (strip-under (tmp_dir uuid) p [] ∙ named)
    ∙ r.new p

-- A path outside the directory is as it was.
pub filled-outside :
    (uuid : Bytes) (fs : Files) (q : Place)
    → ((x : Place) → strip q (tmp_dir uuid ++ x) ≡ none)
    → ((x : Place) → strip (tmp_dir uuid ++ x) q ≡ none)
    → filled uuid fs q ≡ fs q
filled-outside uuid fs q above below =
    graft-other modules (nested uuid) q _ (below (modules ++ (node_temp ∷ [])))
    ∙ put_dirs-other (tmp_dir uuid ++ modules) q _ (above modules)
    ∙ put-other (tmp_dir uuid) q directory fs (above [])

pub filled-Ready :
    (lib uuid : Bytes) (fs : Files) (p : Place)
    → Released lib uuid fs
    → Beside uuid p
    → (fs p ≡ none) ⊎ ((content : Bytes) × (fs p ≡ some (regular content)))
    → Ready (tmp_dir uuid) (filled uuid fs) p
unfolding graft put_dirs
filled-Ready lib uuid fs p r b there = record {
  present = rw (filled-outside uuid fs p b.above_off b.below_off) there;
  target =
      graft-other modules (nested uuid) (tmp_dir uuid ++ p) (opened uuid fs)
        (strip-under (tmp_dir uuid) (modules ++ (node_temp ∷ [])) p ∙ b.under)
      ∙ opened-new lib uuid fs p r b.named b.over;
  passable = λ q rest e. elim (Option-cases (strip (nested uuid) q)) [
    | inr (below, e') ↦ absurd (
        strip-none (nested uuid) (tmp_dir uuid ++ p) (below ++ rest)
          (strip-under (tmp_dir uuid) (modules ++ (node_temp ∷ [])) p ∙ b.under)
          (sym (append_assoc (nested uuid) below rest)
            ∙ ap (λ s. s ++ rest) (sym (strip-some (nested uuid) q below e'))
            ∙ e))
    | inl off ↦ elim (Option-cases (strip q (tmp_dir uuid ++ modules))) [
      | inr (between, e') ↦ rw (off, e', graft, put_dirs) tt
      | inl away ↦ rw (off, away, graft, put_dirs) (made-IsPassable lib uuid fs r p q rest e)
    ]
  ];
}

beside :
    (uuid a : Bytes) (p : Place)
    → eqb a (codes "tmp") ≡ false
    → eqb (codes "tmp") a ≡ false
    → strip (a ∷ p) modules ≡ none
    → strip (modules ++ (node_temp ∷ [])) (a ∷ p) ≡ none
    → Beside uuid (a ∷ p)
unfolding strip
beside uuid a p h h' over under = record {
  named = refl;
  above_off = λ x. rw h refl;
  below_off = λ x. rw h' refl;
  over = over;
  under = under;
}

pub others-Beside : (uuid : Bytes) → All (Beside uuid) other_files
unfolding strip eqb
others-Beside uuid = (
  beside uuid _ _ refl refl refl refl,
  (
    beside uuid _ _ refl refl refl refl,
    (
      beside uuid _ _ refl refl refl refl,
      (
        beside uuid _ _ refl refl refl refl,
        (beside uuid _ _ refl refl refl refl, (beside uuid _ _ refl refl refl refl, tt)),
      ),
    ),
  ),
)

pub others-Separate : (uuid : Bytes) → Separate (tmp_dir uuid) other_files
unfolding strip eqb Separate
others-Separate uuid = ground arith
