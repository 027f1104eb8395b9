-- ===== src/Tests/Tools.antt =====
-- A script that needs the calls 3 and 7.
use dify_sandbox.Base.{
  List, [], range_from, has_prefix, eqb, some, Option, ℕ, ◌≡◌, ◌≢◌, refl, ◌&&◌, ◌||◌, Bool, true,
  false, Bool-cases, inl, inr, All, All-imp, Lacks, map, eqb→eq, eqb_refl, ◌∷◌, none, Bytes, codes,
  if◌then◌else◌, arith,
}
use dify_sandbox.Text.Search.{contains}
use dify_sandbox.Text.Decimal.{format, format-IsDigit}
use dify_sandbox.Text.Split.{split, join, split-join}
use dify_sandbox.Tools.Dig.{
  is_missing, run, Subset, required, syscall_dig, has, Steady, Minimal, syscall_dig-Minimal,
}

unfoldable names : List Bytes → Bytes → Bool
unfolding eqb
names [] p = false
names (q ∷ qs) p = eqb q p || names qs p

unfoldable script : Bytes → Option Bytes
unfolding names
script value =
    let allowed = split b',' value in
    if names allowed (codes "3") && names allowed (codes "7")
    then none
    else some (codes "signal: bad system call (core dumped)")

format-Lacks : (xs : List ℕ) → All (Lacks b',') (map format xs)
format-Lacks [] = tt
format-Lacks (x ∷ xs) =
    (All-imp (λ c d e. omega (arith, d.0, d.1, e)) (format x) (format-IsDigit x), format-Lacks xs)

split-run :
    (x : ℕ) (xs : List ℕ)
    → split b',' (join (codes ",") (map format (x ∷ xs))) ≡ map format (x ∷ xs)
split-run x xs = split-join b',' (map format (x ∷ xs)) (λ e. ground arith) (format-Lacks (x ∷ xs))

named :
    (xs : List ℕ) (p : Bytes)
    → names (map format xs) p ≡ true
    → (x : ℕ) × (has xs x ≡ true) × (format x ≡ p)
unfolding names has
named [] p h = absurd (ground arith)
named (x ∷ xs) p h = elim (Bool-cases (eqb (format x) p)) [
  | inl e ↦ (x, ground arith, eqb→eq (format x) p e)
  | inr e ↦ let (y, at, f) = named xs p (ground arith) in (y, ground arith, f)
]

name : (xs : List ℕ) (x : ℕ) → has xs x ≡ true → names (map format xs) (format x) ≡ true
unfolding names has
name [] x h = absurd (ground arith)
name (y ∷ xs) x h = ground (arith, eqb_refl (format x), name xs x)

names_more :
    (xs ys : List ℕ) (p : Bytes)
    → Subset xs ys
    → names (map format xs) p ≡ true
    → names (map format ys) p ≡ true
names_more xs ys p sub h = let (x, at, f) = named xs p h in rw f at (name ys x (sub x at))

more : (xs ys : List ℕ) → xs ≢ [] → Subset xs ys → run script xs ≡ none → run script ys ≡ none
unfolding run script has
more [] ys ne sub h = absurd (ne refl)
more (x ∷ xs) [] ne sub h = absurd (ground (arith, sub x))
more (x ∷ xs) (y ∷ ys) ne sub h =
    let here = rw (split-run x xs) at h in
    rw (split-run y ys) (
      ground (
        arith,
        names_more (x ∷ xs) (y ∷ ys) (codes "3") sub,
        names_more (x ∷ xs) (y ∷ ys) (codes "7") sub,
      ))

script-Steady : Steady (run script)
unfolding run script is_missing contains has_prefix
script-Steady = record { more = more; killed = λ xs e h. ground arith }

works :
    (x : ℕ) (xs : List ℕ)
    → has (x ∷ xs) 3 ≡ true
    → has (x ∷ xs) 7 ≡ true
    → run script (x ∷ xs) ≡ none
unfolding run script format
works x xs h k = rw (split-run x xs, name (x ∷ xs) 3 h, name (x ∷ xs) 7 k) refl

enough : run script (range_from 0 500) ≡ none
unfolding range_from has
enough = works 0 (range_from 1 499) refl refl

syscall_dig-Minimal_example :
    (list : List ℕ) × (syscall_dig script ≡ some (required list))
    × (run script list ≡ none)
    × Minimal (run script) list
syscall_dig-Minimal_example = syscall_dig-Minimal script script-Steady enough
