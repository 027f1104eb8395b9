-- ===== src/Runner/NodeRoot/Places.antt =====
-- Places above one another, and what the calls of the system do to the files beside theirs.
use mathlib.Core.List.{append_assoc}
use dify_sandbox.Base.{
  ◌≡◌, ◌≢◌, inl, inr, refl, sym, ap, ◌∙◌, Option-cases, List, [], ◌∷◌, ◌++◌, append-nil, none, some,
  Bytes, eqb→eq, eqb_refl, All, All-imp, arith,
}
use dify_sandbox.Runner.NodeRoot.{Place, Node, directory, Files, strip, path_dir, put, put_dirs}

pub strip_append : (d rest : Place) → strip d (d ++ rest) ≡ some rest
unfolding strip
strip_append [] rest = refl
strip_append (a ∷ d) rest = ground (arith, eqb_refl a, strip_append d rest)

pub strip-some : (d q rest : Place) → strip d q ≡ some rest → q ≡ d ++ rest
unfolding strip
strip-some [] q rest h = ground arith
strip-some (a ∷ d) [] rest h = absurd (ground arith)
strip-some (a ∷ d) (b ∷ q) rest h = ground (arith, eqb→eq a b, strip-some d q rest)

pub strip-under : (t a b : Place) → strip (t ++ a) (t ++ b) ≡ strip a b
unfolding strip
strip-under [] a b = refl
strip-under (x ∷ t) a b = ground (arith, eqb_refl x, strip-under t a b)

pub strip_each :
    (t q : Place) (ps : List Place)
    → All (λ p. strip q p ≡ none) ps
    → All (λ p. strip (t ++ q) (t ++ p) ≡ none) ps
strip_each t q ps = All-imp (λ p h. strip-under t q p ∙ h) ps

pub strip-none : (d q rest : Place) → strip d q ≡ none → d ++ rest ≢ q
strip-none d q rest h e = ground (arith, strip_append d rest)

pub path_dir_append :
    (t : Place) (a : Bytes) (p : Place) → path_dir (t ++ (a ∷ p)) ≡ t ++ path_dir (a ∷ p)
unfolding path_dir
path_dir_append [] a p = refl
path_dir_append (x ∷ []) a p = refl
path_dir_append (x ∷ (y ∷ t)) a p = ap (λ r. x ∷ r) (path_dir_append (y ∷ t) a p)

pub path_dir-last :
    (a : Bytes) (p : Place) → (last : Bytes) × (a ∷ p ≡ path_dir (a ∷ p) ++ (last ∷ []))
unfolding path_dir
path_dir-last a [] = (a, refl)
path_dir-last a (b ∷ p) = let (last, e) = path_dir-last b p in (last, ap (λ r. a ∷ r) e)

pub strip_self : (p : Place) → strip p p ≡ some []
strip_self p = rw (append-nil p) at (strip_append p [])

pub put-same : (p : Place) (n : Node) (fs : Files) → put p n fs p ≡ some n
unfolding put
put-same p n fs = rw (strip_self p, put) refl

pub put-other : (p q : Place) (n : Node) (fs : Files) → strip q p ≡ none → put p n fs q ≡ fs q
unfolding put
put-other p q n fs h = elim (Option-cases (strip p q)) [
  | inl off ↦ rw (off, put) refl
  | inr ([], e) ↦ absurd (strip-none q p [] h (append-nil q ∙ strip-some p q [] e ∙ append-nil p))
  | inr (x ∷ rest, e) ↦ rw (e, put) refl
]

pub put_dirs-other : (p q : Place) (fs : Files) → strip q p ≡ none → put_dirs p fs q ≡ fs q
unfolding put_dirs
put_dirs-other p q fs h = rw (h, put_dirs) refl

pub put_dirs-above : (q rest : Place) (fs : Files) → put_dirs (q ++ rest) fs q ≡ some directory
unfolding put_dirs
put_dirs-above q rest fs = rw (strip_append q rest, put_dirs) refl

-- Below what is not above a path there is nothing above the path's own directory.
pub strip-path_dir :
    (q p t : Place) → p ≢ [] → strip q (t ++ p) ≡ none → strip q (t ++ path_dir p) ≡ none
strip-path_dir q [] t ne h = absurd (ne refl)
strip-path_dir q (a ∷ p) t ne h =
    let (last, split) = path_dir-last a p in
    elim (Option-cases (strip q (t ++ path_dir (a ∷ p)))) [
      | inl off ↦ off
      | inr (rest, e) ↦ absurd (
          strip-none q (t ++ (a ∷ p)) (rest ++ (last ∷ [])) h (
            sym (append_assoc q rest (last ∷ []))
            ∙ ap (λ r. r ++ (last ∷ [])) (sym (strip-some q (t ++ path_dir (a ∷ p)) rest e))
            ∙ append_assoc t (path_dir (a ∷ p)) (last ∷ [])
            ∙ ap (λ r. t ++ r) (sym split)))
    ]

pub strip_longer : (t x q : Place) → strip t q ≡ none → strip (t ++ x) q ≡ none
unfolding strip
strip_longer [] x q h = absurd (ground arith)
strip_longer (a ∷ t) x [] h = refl
strip_longer (a ∷ t) x (b ∷ q) h = ground (arith, strip_longer t x q)

pub strip_beside : (q t x : Place) → strip q t ≡ none → strip t q ≡ none → strip q (t ++ x) ≡ none
unfolding strip
strip_beside [] t x h k = absurd (ground arith)
strip_beside (a ∷ q) [] x h k = absurd (ground arith)
strip_beside (a ∷ q) (b ∷ t) x h k =
    ground (arith, strip_beside q t x, eqb→eq a b, eqb→eq b a, eqb_refl a)

pub put-away : (p q : Place) (n : Node) (fs : Files) → strip p q ≡ none → put p n fs q ≡ fs q
unfolding put
put-away p q n fs h = rw (h, put) refl

pub put_dirs-directory :
    (p q : Place) (fs : Files) → fs q ≡ some directory → put_dirs p fs q ≡ some directory
unfolding put_dirs
put_dirs-directory p q fs h = elim (Option-cases (strip q p)) [
  | inl off ↦ rw (off, put_dirs) h
  | inr (rest, e) ↦ rw (e, put_dirs) refl
]
