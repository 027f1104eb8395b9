-- ===== src/Tools/Dig.antt =====
-- cmd/test/syscall_dig/main.go: of all calls, those are dropped without which a script still runs.
use dify_sandbox.Base.{
  ℕ, zero, suc, ◌≡◌, ◌≢◌, ◌⊎◌, inl, inr, refl, Bool, true, false, not, ◌&&◌, ◌||◌, ◌==◌,
  Option-cases, List, [], ◌∷◌, ◌++◌, append-nil, append_assoc, Option, none, some, Bytes, codes,
  All, All-append, All-imp, length, map, range_from, length-range_from, if◌then◌else◌, arith,
}
use dify_sandbox.Text.Decimal.{format}
use dify_sandbox.Text.Search.{contains}
use dify_sandbox.Text.Split.{join}

-- The error of the script under the calls of a list.
abbrev pub Trial : Type 0
Trial = List ℕ → Option Bytes

-- `run`: `script` is the error of test.py under a value of ALLOWED_SYSCALLS.
unfoldable pub run : (Bytes → Option Bytes) → Trial
run script allowed_syscalls = script (join (codes ",") (map format allowed_syscalls))

abbrev pub syscall_nums : ℕ
syscall_nums = 500

-- Whether the error of a trial says that a call is missing.
unfoldable pub is_missing : Option Bytes → Bool
is_missing none = false
is_missing (some e) = contains e (codes "bad system call")

-- The rounds of `main`; one on an empty list panics.
unfoldable pub dig : ℕ → Trial → List ℕ → Option (List ℕ)
unfolding is_missing
dig zero trial list = some list
dig (suc n) trial [] = none
dig (suc n) trial (syscall ∷ list) =
    dig n trial (if is_missing (trial list) then list ++ (syscall ∷ []) else list)

-- What `main` prints in the end.
pub data Report : Type 0 where
  failed : Report
  required : List ℕ → Report

unfoldable pub final_test : Trial → List ℕ → Report
final_test trial list = elim (trial list) [ some e ↦ failed | none ↦ required list ]

-- `main`
unfoldable pub syscall_dig : (Bytes → Option Bytes) → Option Report
unfolding run dig final_test
syscall_dig script = elim (dig syscall_nums (run script) (range_from 0 syscall_nums)) [
  | none ↦ none
  | some list ↦ some (final_test (run script) list)
]

unfoldable pub has : List ℕ → ℕ → Bool
has [] u = false
has (x ∷ xs) u = x == u || has xs u

abbrev pub Subset : List ℕ → List ℕ → Type 0
Subset xs ys = (u : ℕ) → has xs u ≡ true → has ys u ≡ true

unfoldable pub without : ℕ → List ℕ → List ℕ
without s [] = []
without s (x ∷ xs) = let rest = without s xs in if x == s then rest else x ∷ rest

-- A script that runs under some calls runs under more, and what it is killed for says so. The empty
-- list is left out: for the library it stands for its own lists.
pub record Steady (trial : Trial) : Type 0 where
  pub more : (xs ys : List ℕ) → xs ≢ [] → Subset xs ys → trial xs ≡ none → trial ys ≡ none
  pub killed : (xs : List ℕ) (e : Bytes) → trial xs ≡ some e → is_missing (some e) ≡ true

has-append : (xs ys : List ℕ) (u : ℕ) → has (xs ++ ys) u ≡ has xs u || has ys u
unfolding has
has-append [] ys u = refl
has-append (x ∷ xs) ys u = ground (arith, has-append xs ys u)

has-without : (s : ℕ) (xs : List ℕ) (u : ℕ) → has (without s xs) u ≡ not (s == u) && has xs u
unfolding has without
has-without s [] u = ground arith
has-without s (x ∷ xs) u = ground (arith, has-without s xs u)

-- No list without `s` of what `list` has is enough.
abbrev Needed : Trial → List ℕ → ℕ → Type 0
Needed trial list s =
    (ys : List ℕ)
    → ys ≢ []
    → ((u : ℕ) → has ys u ≡ true → (has list u ≡ true) × (s == u ≡ false))
    → trial ys ≢ none

Needed-smaller :
    (trial : Trial) (xs ys : List ℕ) (s : ℕ) → Subset ys xs → Needed trial xs s → Needed trial ys s
Needed-smaller trial xs ys s sub needed zs ne h =
    needed zs ne (λ u k. let (inside, off) = h u k in (sub u inside, off))

has-rotated : (s : ℕ) (xs : List ℕ) (u : ℕ) → has (xs ++ (s ∷ [])) u ≡ has (s ∷ xs) u
unfolding has
has-rotated s xs u = ground (arith, has-append xs (s ∷ []) u)

-- A call whose round fails is needed.
Needed-dropped :
    (trial : Trial) (s : ℕ) (xs : List ℕ) (e : Bytes)
    → Steady trial
    → trial xs ≡ some e
    → Needed trial (xs ++ (s ∷ [])) s
unfolding has
Needed-dropped trial s xs e steady fails ys ne h k =
    let inside : Subset ys xs =
      λ u here. let (at, off) = h u here in ground (arith, has-rotated s xs u) in
    absurd (ground (arith, steady.more ys xs ne inside k))

-- What the rounds end with.
abbrev Dug : Trial → Option (List ℕ) → Type 0
Dug trial none = ⊥
Dug trial (some list) = (trial list ≡ none) × All (Needed trial list) list

dig-Dug :
    (trial : Trial)
    → Steady trial
    → (rest kept : List ℕ) → trial (rest ++ kept) ≡ none
    → All (Needed trial (rest ++ kept)) kept
    → Dug trial (dig (length rest) trial (rest ++ kept))
unfolding dig has
dig-Dug trial steady [] kept enough needed = (enough, needed)
dig-Dug trial steady (s ∷ rest) kept enough needed = elim (Option-cases (trial (rest ++ kept))) [
  | inl fine ↦
      rw (fine, is_missing)
        (dig-Dug trial steady rest kept fine (
          All-imp
            (λ t. Needed-smaller trial (s ∷ (rest ++ kept)) (rest ++ kept) t (λ u h. ground arith))
            kept needed))
  | inr (e, fails) ↦
      let now = (rest ++ kept) ++ (s ∷ []) in
      let all : Subset (s ∷ (rest ++ kept)) now =
        λ u h. ground (arith, has-rotated s (rest ++ kept) u) in
      let back : Subset now (s ∷ (rest ++ kept)) =
        λ u h. ground (arith, has-rotated s (rest ++ kept) u) in
      let enough' : trial now ≡ none =
        steady.more (s ∷ (rest ++ kept)) now (λ e'. ground arith) all enough in
      let needed' : All (Needed trial now) (kept ++ (s ∷ [])) =
        All-append (Needed trial now) kept (s ∷ [])
          (All-imp (λ t. Needed-smaller trial (s ∷ (rest ++ kept)) now t back) kept needed)
          (Needed-dropped trial s (rest ++ kept) e steady fails, tt) in
      let same = append_assoc rest kept (s ∷ []) in
      rw (fails, steady.killed (rest ++ kept) e fails, same)
        (dig-Dug trial steady rest (kept ++ (s ∷ [])) (rw same at enough') (rw same at needed'))
]

dig_all :
    (trial : Trial) (n : ℕ)
    → Steady trial
    → trial (range_from 0 n) ≡ none
    → Dug trial (dig n trial (range_from 0 n))
dig_all trial n steady enough =
    rw (length-range_from 0 n, append-nil (range_from 0 n)) at
      (dig-Dug trial steady (range_from 0 n) [] (rw (append-nil (range_from 0 n)) enough) tt)

-- Without one of its calls a list is empty or not enough.
abbrev pub Minimal : Trial → List ℕ → Type 0
Minimal trial list = All (λ s. (without s list ≡ []) ⊎ (trial (without s list) ≢ none)) list

Needed-Minimal :
    (trial : Trial) (list : List ℕ) (s : ℕ)
    → Needed trial list s
    → (without s list ≡ []) ⊎ (trial (without s list) ≢ none)
Needed-Minimal trial list s needed =
    go (without s list) (λ u h. ground (arith, has-without s list u))
  where
    go :
        (ys : List ℕ)
        → ((u : ℕ) → has ys u ≡ true → (has list u ≡ true) × (s == u ≡ false))
        → (ys ≡ []) ⊎ (trial ys ≢ none)
    go [] h = inl refl
    go (y ∷ ys) h = inr (needed (y ∷ ys) (λ e. ground arith) h)

-- Where a script runs under all 500 calls, and under each list that has all the calls of a list, not
-- empty, under which it runs, and each failure says that a call is missing, the tool does not panic. It
-- reports a list under which the script runs, but without any one of whose calls it does not run,
-- unless no call is left.
pub syscall_dig-Minimal :
    (script : Bytes → Option Bytes)
    → Steady (run script)
    → run script (range_from 0 syscall_nums) ≡ none
    → (list : List ℕ) × (syscall_dig script ≡ some (required list))
      × (run script list ≡ none)
      × Minimal (run script) list
unfolding syscall_dig
syscall_dig-Minimal script steady enough =
    reported (dig syscall_nums (run script) (range_from 0 syscall_nums))
      (dig_all (run script) syscall_nums steady enough)
  where
    reported :
        (dug : Option (List ℕ))
        → Dug (run script) dug
        → (list : List ℕ) × ((elim dug as (λ x. Option Report) [
          | none ↦ none
          | some l ↦ some (final_test (run script) l)
        ])
            ≡ some (required list))
          × (run script list ≡ none)
          × Minimal (run script) list
    reported none d = absurd d
    reported (some list) (fine, needed) = (
      list,
      rw (final_test, fine) refl,
      fine,
      All-imp (λ s. Needed-Minimal (run script) list s) list needed,
    )
