-- ===== src/Runner/NodeRoot/Copies.antt =====
-- The loop of `WithTempDir` over files of which none is above another.
use mathlib.Core.List.{append_assoc}
use dify_sandbox.Base.{
  ◌≡◌, ◌≢◌, ◌⊎◌, inl, inr, refl, sym, ap, ◌∙◌, Option-cases, List, [], ◌∷◌, ◌++◌, append-nil, none,
  some, Bytes, All, All-imp, All-imp_both, arith,
}
use dify_sandbox.Runner.NodeRoot.{
  Place, directory, regular, Files, strip, path_dir, FileCalls, and_then, copy_files, put, put_dirs,
  IsPassable, Documented,
}
use dify_sandbox.Runner.NodeRoot.Places.{
  strip-some, strip-under, strip-none, path_dir_append, path_dir-last, put-same, put-other,
  put-away, put_dirs-directory, put_dirs-other, put_dirs-above, strip-path_dir,
}

-- What a file that is copied leaves behind.
abbrev placed : Place → Place → Bytes → Files → Files
placed tmp p content fs = put (tmp ++ p) (regular content) (put_dirs (tmp ++ path_dir p) fs)

placed-other :
    (tmp p q : Place) (content : Bytes) (fs : Files)
    → p ≢ []
    → strip q (tmp ++ p) ≡ none
    → placed tmp p content fs q ≡ fs q
placed-other tmp p q content fs ne h =
    put-other (tmp ++ p) q (regular content) _ h
    ∙ put_dirs-other (tmp ++ path_dir p) q fs (strip-path_dir q p tmp ne h)

placed-directory :
    (tmp p q : Place) (content : Bytes) (fs : Files)
    → fs (tmp ++ p) ≡ none
    → fs q ≡ some directory
    → placed tmp p content fs q ≡ some directory
unfolding put
placed-directory tmp p q content fs free here = elim (Option-cases (strip (tmp ++ p) q)) [
  | inl off ↦
      put-away (tmp ++ p) q (regular content) (put_dirs (tmp ++ path_dir p) fs) off
      ∙ put_dirs-directory (tmp ++ path_dir p) q fs here
  | inr ([], e) ↦
      let same = strip-some (tmp ++ p) q [] e ∙ append-nil (tmp ++ p) in
      absurd (ground (arith, sym here ∙ ap fs same ∙ free))
  | inr (x ∷ rest, e) ↦ rw (e, put) (put_dirs-directory (tmp ++ path_dir p) q fs here)
]

-- What the copy of a file needs.
pub record Ready (tmp : Place) (fs : Files) (p : Place) : Type 0 where
  pub present : (fs p ≡ none) ⊎ ((content : Bytes) × (fs p ≡ some (regular content)))
  pub target : fs (tmp ++ p) ≡ none
  pub passable : (q rest : Place) → q ++ rest ≡ tmp ++ p → IsPassable (fs q)

-- A path that is no directory of the temporary one, and neither above nor below `p`.
pub record Apart (tmp p q : Place) : Type 0 where
  pub outside : strip q (tmp ++ p) ≡ none
  pub over : strip q p ≡ none
  pub under : strip p q ≡ none

placed-Ready :
    (tmp p q : Place) (content : Bytes) (fs : Files)
    → p ≢ []
    → Apart tmp p q
    → Ready tmp fs q
    → Ready tmp (placed tmp p content fs) q
unfolding put put_dirs
placed-Ready tmp p q content fs ne apart ready = record {
  present = rw (placed-other tmp p q content fs ne apart.outside) ready.present;
  target =
      placed-other tmp p (tmp ++ q) content fs ne (strip-under tmp q p ∙ apart.over) ∙ ready.target;
  passable = λ r rest e. elim (Option-cases (strip (tmp ++ p) r)) [
    | inr (below, e') ↦ absurd (
        strip-none (tmp ++ p) (tmp ++ q) (below ++ rest) (strip-under tmp p q ∙ apart.under) (
          sym (append_assoc (tmp ++ p) below rest)
          ∙ ap (λ s. s ++ rest) (sym (strip-some (tmp ++ p) r below e'))
          ∙ e))
    | inl off ↦ elim (Option-cases (strip r (tmp ++ path_dir p))) [
      | inr (between, e') ↦ rw (off, e', put, put_dirs) tt
      | inl away ↦ rw (off, away, put, put_dirs) (ready.passable r rest e)
    ]
  ];
}

strip-below : (a : Bytes) (p : Place) → strip (a ∷ p) (path_dir (a ∷ p)) ≡ none
unfolding strip path_dir
strip-below a [] = refl
strip-below a (b ∷ p) = ground (arith, strip-below b p)

-- A file that is there is copied, and the loop goes on.
copy_file :
    (calls : FileCalls) (doc : Documented calls) (tmp p : Place) (ps : List Place) (content : Bytes)
    (fs : Files)
    → p ≢ []
    → strip p (tmp ++ p) ≡ none
    → Ready tmp fs p
    → fs p ≡ some (regular content)
    → copy_files calls tmp (p ∷ ps) fs ≡ copy_files calls tmp ps (placed tmp p content fs)
unfolding copy_files and_then
copy_file calls doc tmp [] ps content fs ne own ready here = absurd (ne refl)
copy_file calls doc tmp (a ∷ p) ps content fs ne own ready here =
    let file = a ∷ p in
    let (last, split) = path_dir-last a p in
    let made = doc.mkdir_all (tmp ++ path_dir file) fs (λ q rest e.
      ready.passable q (rest ++ (last ∷ [])) (
        sym (append_assoc q rest (last ∷ []))
        ∙ ap (λ r. r ++ (last ∷ [])) e
        ∙ append_assoc tmp (path_dir file) (last ∷ [])
        ∙ ap (λ r. tmp ++ r) (sym split))) in
    let dirs = put_dirs (tmp ++ path_dir file) fs in
    let copied =
      doc.cp_file file (tmp ++ file) content dirs
        (put_dirs-other (tmp ++ path_dir file) file fs (strip-path_dir file file tmp ne own) ∙ here)
        (put_dirs-other (tmp ++ path_dir file) (tmp ++ file) fs
            (strip-under tmp file (path_dir file) ∙ strip-below a p)
          ∙ ready.target)
        (ap dirs (path_dir_append tmp a p)
          ∙ ap (λ r. put_dirs r fs (tmp ++ path_dir file)) (sym (append-nil (tmp ++ path_dir file)))
          ∙ put_dirs-above (tmp ++ path_dir file) [] fs) in
    rw (copy_files, here, made, copied) refl

-- No path is in the temporary directory, and none is above another.
unfoldable pub Separate : Place → List Place → Type 0
Separate tmp [] = Unit
Separate tmp (p ∷ ps) =
    (p ≢ []) × (strip p (tmp ++ p) ≡ none) × All (Apart tmp p) ps × Separate tmp ps

-- What the loop does: it copies the files that are there and changes nothing but them and what is
-- above them, and what is a directory stays one.
pub record Copied (tmp : Place) (ps : List Place) (fs after : Files) : Type 0 where
  pub dirs : (q : Place) → fs q ≡ some directory → after q ≡ some directory
  pub others : (q : Place) → All (λ p. strip q (tmp ++ p) ≡ none) ps → after q ≡ fs q
  pub files :
      All
        (λ p.
          (content : Bytes)
          → fs p ≡ some (regular content)
          → after (tmp ++ p) ≡ some (regular content))
        ps

pub copies :
    (calls : FileCalls) (doc : Documented calls) (tmp : Place) (ps : List Place) (fs : Files)
    → Separate tmp ps
    → All (Ready tmp fs) ps
    → (after : Files) × (copy_files calls tmp ps fs ≡ inr after) × Copied tmp ps fs after
unfolding copy_files Separate
copies calls doc tmp [] fs sep ready =
    (fs, refl, record { dirs = λ q h. h; others = λ q h. refl; files = tt })
copies calls doc tmp (p ∷ ps) fs (ne, own, apart, sep) (ready, readys) = elim ready.present [
  | inl away ↦
      let (after, e, done) = copies calls doc tmp ps fs sep readys in
      (
        after,
        rw (copy_files, away) e,
        record {
          dirs = done.dirs;
          others = λ q (h, hs). done.others q hs;
          files = (λ content here. absurd (ground (arith, away, here)), done.files);
        },
      )
  | inr (content, here) ↦
      let now = placed tmp p content fs in
      let (after, e, done) =
        copies calls doc tmp ps now sep
          (All-imp_both (λ q a r. placed-Ready tmp p q content fs ne a r) ps apart readys) in
      (
        after,
        copy_file calls doc tmp p ps content fs ne own ready here ∙ e,
        record {
          dirs = λ q here'. done.dirs q (placed-directory tmp p q content fs ready.target here');
          others = λ q (h, hs). done.others q hs ∙ placed-other tmp p q content fs ne h;
          files = (
            λ c e'.
                done.others (tmp ++ p) (All-imp (λ q a. strip-under tmp p q ∙ a.under) ps apart)
                ∙ put-same (tmp ++ p) (regular content) _
                ∙ sym here
                ∙ e',
            All-imp_both (λ q a h c e'. h c (placed-other tmp p q content fs ne a.outside ∙ e')) ps
                apart done.files,
          );
        },
      )
]
