-- ===== src/Discovery/Dedupe.antt =====
-- `dedupePaths` keeps the first of each path, in order.
use dify_sandbox.Base.{
  ◌≡◌, ◌↔◌, subst, refl, ap, ◌∙◌, true, false, List, [], ◌∷◌, ◌++◌, Bytes, eqb, eqb_iff, eqb_refl,
  if◌then◌else◌, arith, All, Bool-cases, inl, inr,
}
use dify_sandbox.Discovery.{contains_path, dedupe_from, dedupe_paths}

pub contains-append :
    (xs ys : List Bytes) (y : Bytes)
    → contains_path (xs ++ ys) y ≡ (if contains_path xs y then true else contains_path ys y)
unfolding contains_path
contains-append [] ys y = refl
contains-append (x ∷ xs) ys y = ground (arith, contains-append xs ys y)

contains_same :
    (xs : List Bytes) (x y : Bytes) → eqb x y ≡ true → contains_path xs x ≡ contains_path xs y
contains_same xs x y h = ap (contains_path xs) ((eqb_iff x y).0 h)

contains-dedupe_from :
    (seen xs : List Bytes) (y : Bytes)
    → contains_path (dedupe_from seen xs) y
      ≡ (if contains_path seen y then false else contains_path xs y)
unfolding dedupe_from contains_path
contains-dedupe_from seen [] y = ground arith
contains-dedupe_from seen (x ∷ xs) y = elim (Bool-cases (eqb x y)) [
  | inl same ↦ ground (
    arith,
    contains-dedupe_from seen xs y,
    contains-dedupe_from (x ∷ seen) xs y,
    contains_same seen x y same,
  )
  | inr other ↦ ground (arith, contains-dedupe_from seen xs y, contains-dedupe_from (x ∷ seen) xs y)
]

-- No path stands twice.
abbrev pub Distinct : List Bytes → Type 0
Distinct [] = Unit
Distinct (x ∷ xs) = (contains_path xs x ≡ false) × Distinct xs

dedupe_from-Distinct : (seen xs : List Bytes) → Distinct (dedupe_from seen xs)
unfolding dedupe_from
dedupe_from-Distinct seen [] = tt
dedupe_from-Distinct seen (x ∷ xs) = elim (Bool-cases (contains_path seen x)) [
  | inl old ↦ rw old (dedupe_from-Distinct seen xs)
  | inr new ↦ rw new (
    contains-dedupe_from (x ∷ seen) xs x ∙ unfold contains_path in ground (arith, eqb_refl x),
    dedupe_from-Distinct (x ∷ seen) xs,
  )
]

-- Paths that are all new stay as they are.
abbrev AllNew : List Bytes → List Bytes → Type 0
AllNew seen xs = All (λ x. contains_path seen x ≡ false) xs

AllNew-cons :
    (seen xs : List Bytes) (x : Bytes)
    → contains_path xs x ≡ false
    → AllNew seen xs
    → AllNew (x ∷ seen) xs
unfolding contains_path
AllNew-cons seen [] x h n = tt
AllNew-cons seen (y ∷ xs) x h (ny, n) =
    (ground (arith, eqb_iff x y, eqb_iff y x), AllNew-cons seen xs x (ground arith) n)

dedupe_from_new : (seen xs : List Bytes) → Distinct xs → AllNew seen xs → dedupe_from seen xs ≡ xs
unfolding dedupe_from
dedupe_from_new seen [] d n = refl
dedupe_from_new seen (x ∷ xs) (dx, d) (nx, n) =
    rw nx (ap (λ t. x ∷ t) (dedupe_from_new (x ∷ seen) xs d (AllNew-cons seen xs x dx n)))

AllNew-nil : (xs : List Bytes) → AllNew [] xs
AllNew-nil [] = tt
AllNew-nil (x ∷ xs) = (unfold contains_path in refl, AllNew-nil xs)

-- The result of `dedupePaths` has the paths of the list, no path twice, and is the list itself
-- exactly where that already has no path twice.
pub dedupe_paths_lem :
    (xs : List Bytes)
    → ((y : Bytes) → contains_path (dedupe_paths xs) y ≡ contains_path xs y)
      × Distinct (dedupe_paths xs)
      × (Distinct xs ↔ dedupe_paths xs ≡ xs)
unfolding dedupe_paths
dedupe_paths_lem xs = (
  λ y. contains-dedupe_from [] xs y ∙ unfold contains_path in refl,
  dedupe_from-Distinct [] xs,
  (
    λ d. dedupe_from_new [] xs d (AllNew-nil xs),
    λ e. subst Distinct e (dedupe_from-Distinct [] xs),
  ),
)
