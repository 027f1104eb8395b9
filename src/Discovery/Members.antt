-- ===== src/Discovery/Members.antt =====
-- Which paths a list of candidates holds.
use dify_sandbox.Base.{
  ◌≡◌, ◌≢◌, refl, sym, ap, ◌∙◌, true, List, [], ◌∷◌, ◌++◌, Bytes, Option, none, some, eqb, eqb_iff,
  eqb_refl, arith, All, Bool-cases, Option-cases, inl, inr, subst,
}
use dify_sandbox.Text.FilePath.{is_abs}
use dify_sandbox.Discovery.{
  contains_path, dedupe_paths, Files, normalize_absolute_path, normalize_existing, normalized,
}
use dify_sandbox.Discovery.Dedupe.{contains-append, dedupe_paths_lem}

-- A path that begins at the root and that `os.Stat` finds.
abbrev pub IsThere : Files → Bytes → Type 0
IsThere fs path = (is_abs path ≡ true) × (fs.stat path ≢ none)

pub normalize-IsThere : (fs : Files) (x y : Bytes) → normalize_existing fs x ≡ some y → IsThere fs y
unfolding normalize_absolute_path
normalize-IsThere fs x y h = ground arith

pub normalized-none :
    (f : Bytes → Option Bytes) (x : Bytes) (xs : List Bytes)
    → f x ≡ none
    → normalized f (x ∷ xs) ≡ normalized f xs
unfolding normalized
normalized-none f x xs h = ground arith

pub normalized-some :
    (f : Bytes → Option Bytes) (x y : Bytes) (xs : List Bytes)
    → f x ≡ some y
    → normalized f (x ∷ xs) ≡ y ∷ normalized f xs
unfolding normalized
normalized-some f x y xs h = ground arith

pub normalized-All :
    (fs : Files) (xs : List Bytes) → All (IsThere fs) (normalized (normalize_existing fs) xs)
unfolding normalized
normalized-All fs [] = tt
normalized-All fs (x ∷ xs) =
    let f = normalize_existing fs in
    elim (Option-cases (normalize_existing fs x)) [
      | inl n ↦ subst (All (IsThere fs)) (sym (normalized-none f x xs n)) (normalized-All fs xs)
      | inr (y, e) ↦
          subst (All (IsThere fs)) (sym (normalized-some f x y xs e))
            (normalize-IsThere fs x y e, normalized-All fs xs)
    ]

pub contains-normalized :
    (f : Bytes → Option Bytes) (xs : List Bytes) (x y : Bytes)
    → contains_path xs x ≡ true
    → f x ≡ some y
    → contains_path (normalized f xs) y ≡ true
unfolding contains_path
contains-normalized f [] x y h e = cc
contains-normalized f (z ∷ xs) x y h e = elim (Bool-cases (eqb z x)) [
  | inl same ↦
      rw (normalized-some f z y xs (ap f ((eqb_iff z x).0 same) ∙ e)) (ground (arith, eqb_refl y))
  | inr other ↦
      let later = contains-normalized f xs x y (ground arith) e in
      elim (Option-cases (f z)) [
        | inl n ↦ rw (normalized-none f z xs n) later
        | inr (w, n) ↦ rw (normalized-some f z w xs n) (ground (arith, later))
      ]
]

pub All-contains :
    (P : Bytes → Type 0) (xs : List Bytes) (y : Bytes) → All P xs → contains_path xs y ≡ true → P y
unfolding contains_path
All-contains P [] y h c = cc
All-contains P (x ∷ xs) y (hx, hs) c = elim (Bool-cases (eqb x y)) [
  | inl same ↦ subst P ((eqb_iff x y).0 same) hx
  | inr other ↦ All-contains P xs y hs (ground arith)
]

abbrev pub dedupe-contains :
    (xs : List Bytes) (y : Bytes) → contains_path (dedupe_paths xs) y ≡ contains_path xs y
dedupe-contains xs = (dedupe_paths_lem xs).0

pub contains_head : (x : Bytes) (xs : List Bytes) → contains_path (x ∷ xs) x ≡ true
unfolding contains_path
contains_head x xs = ground (arith, eqb_refl x)

pub contains_tail :
    (x y : Bytes) (xs : List Bytes) → contains_path xs y ≡ true → contains_path (x ∷ xs) y ≡ true
unfolding contains_path
contains_tail x y xs h = ground arith

pub contains_left :
    (xs ys : List Bytes) (y : Bytes) → contains_path xs y ≡ true → contains_path (xs ++ ys) y ≡ true
contains_left xs ys y h = contains-append xs ys y ∙ ground arith

pub contains_right :
    (xs ys : List Bytes) (y : Bytes) → contains_path ys y ≡ true → contains_path (xs ++ ys) y ≡ true
contains_right xs ys y h = contains-append xs ys y ∙ ground arith

pub normalized-append :
    (f : Bytes → Option Bytes) (xs ys : List Bytes)
    → normalized f (xs ++ ys) ≡ normalized f xs ++ normalized f ys
unfolding normalized
normalized-append f [] ys = refl
normalized-append f (x ∷ xs) ys = ground (arith, normalized-append f xs ys)
