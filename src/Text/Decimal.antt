-- ===== src/Text/Decimal.antt =====
-- `strconv.Itoa` and `strconv.Atoi`, where `int` has 64 bits.
use dify_sandbox.Base.{
  ℕ, zero, suc, ◌+◌, ◌-◌, ◌*◌, ◌/◌, ◌%◌, ◌^◌, ◌≤◌, ◌<◌, ◌≡◌, ◌≢◌, refl, sym, ◌∙◌, ℤ, pos, negsuc,
  Bool, true, false, not, ◌&&◌, [], ◌∷◌, ◌++◌, append_assoc, append-nil, Option, none, some, Bytes,
  All, All-append, ltb, leb, ◌==◌, Bool-cases, inl, inr, ap, subst, All-imp, if◌then◌else◌, arith,
}

-- The digits of a number; `suc n` is fuel enough for `n`.
digits : ℕ → ℕ → Bytes
digits zero n = []
digits (suc f) n =
    let rest = digits f (n / 10) in
    if ltb n 10 then (b'0' + n) ∷ [] else rest ++ ((b'0' + n % 10) ∷ [])

-- `%d` of a number that is not negative
unfoldable pub format : ℕ → Bytes
unfolding digits
format n = digits (suc n) n

-- `strconv.Itoa`
unfoldable pub itoa : ℤ → Bytes
unfolding format
itoa (pos n) = format n
itoa (negsuc n) = b'-' ∷ format (suc n)

pub data ParseError : Type 0 where
  syntax range : ParseError

-- A value and an error, which Go returns side by side.
abbrev pub Parsed : Type 0 → Type 0
Parsed A = A × Option ParseError

abbrev pub max_u64 : ℕ
max_u64 = 2 ^ 64 - 1

-- The loop of `strconv.ParseUint(s, 10, 64)`.
scan : Bytes → ℕ → Parsed ℕ
scan [] n = (n, none)
scan (c ∷ s) n =
    let d = c - b'0' in
    let rest = scan s (n * 10 + d) in
    if not (leb b'0' c && leb c b'9')
    then (0, some syntax)
    else if ltb max_u64 (n * 10 + d)
    then (max_u64, some range)
    else rest

-- The bounds of `strconv.ParseInt`.
with_sign : Bool → Parsed ℕ → Parsed ℤ
with_sign neg (n, some syntax) = (pos 0, some syntax)
with_sign false (n, e) = if ltb n (2 ^ 63) then (pos n, none) else (pos (2 ^ 63 - 1), some range)
with_sign true (zero, e) = (pos 0, none)
with_sign true (suc n, e) =
    if ltb (2 ^ 63) (suc n) then (negsuc (2 ^ 63 - 1), some range) else (negsuc n, none)

unsigned : Bytes → Parsed ℕ
unsigned [] = (0, some syntax)
unsigned (c ∷ s) = scan (c ∷ s) 0

-- `strconv.Atoi`
unfoldable pub atoi : Bytes → Parsed ℤ
unfolding scan with_sign unsigned
atoi [] = (pos 0, some syntax)
atoi (c ∷ s) =
    if c == b'-'
    then with_sign true (unsigned s)
    else if c == b'+'
    then with_sign false (unsigned s)
    else with_sign false (unsigned (c ∷ s))

with_sign-syntax :
    (neg : Bool) (p : Parsed ℕ) → (with_sign neg p).1 ≡ some syntax → (with_sign neg p).0 ≡ pos 0
unfolding with_sign
with_sign-syntax neg (n, some syntax) h = refl
with_sign-syntax false (n, some range) h = ground arith
with_sign-syntax false (n, none) h = ground arith
with_sign-syntax true (zero, some range) h = refl
with_sign-syntax true (zero, none) h = refl
with_sign-syntax true (suc n, some range) h = ground arith
with_sign-syntax true (suc n, none) h = ground arith

-- Where `Atoi` reports a syntax error its value is 0.
pub atoi-syntax : (s : Bytes) → (atoi s).1 ≡ some syntax → (atoi s).0 ≡ pos 0
unfolding atoi
atoi-syntax [] h = refl
atoi-syntax (c ∷ s) h = ground (
  arith,
  with_sign-syntax true (unsigned s),
  with_sign-syntax false (unsigned s),
  with_sign-syntax false (unsigned (c ∷ s)),
)

abbrev pub IsDigit : ℕ → Type 0
IsDigit c = (b'0' ≤ c) × (c ≤ b'9')

digits-IsDigit : (f n : ℕ) → All IsDigit (digits f n)
unfolding digits
digits-IsDigit zero n = tt
digits-IsDigit (suc f) n = ground (
  arith,
  All-append IsDigit (digits f (n / 10)) ((b'0' + n % 10) ∷ []) (digits-IsDigit f (n / 10)),
)

pub format-IsDigit : (n : ℕ) → All IsDigit (format n)
unfolding format
format-IsDigit n = digits-IsDigit (suc n) n

-- Reading the digits of a number, and then more, is reading more behind the number.
scan-digits :
    (f n : ℕ) (rest : Bytes) → n < f → n ≤ max_u64 → scan (digits f n ++ rest) 0 ≡ scan rest n
unfolding digits scan
scan-digits zero n rest h m = elim h [ ]
scan-digits (suc f) n rest h m = ground (
  arith,
  scan-digits f (n / 10) ((b'0' + n % 10) ∷ rest),
  append_assoc (digits f (n / 10)) ((b'0' + n % 10) ∷ []) rest,
)

snoc_cases : (xs : Bytes) (y : ℕ) → (d : ℕ) × (ds : Bytes) × (xs ++ (y ∷ []) ≡ d ∷ ds)
snoc_cases [] y = (y, [], refl)
snoc_cases (x ∷ xs) y = (x, xs ++ (y ∷ []), refl)

format_cases : (n : ℕ) → (d : ℕ) × (ds : Bytes) × (format n ≡ d ∷ ds)
unfolding format
format_cases n = elim (Bool-cases (ltb n 10)) [
  | inl small ↦ (b'0' + n, [], rw small)
  | inr large ↦ rw large (snoc_cases (digits n (n / 10)) (b'0' + n % 10))
]

scan-format : (n : ℕ) → n ≤ max_u64 → scan (format n) 0 ≡ (n, none)
unfolding format
scan-format n h =
    ap (λ s. scan s 0) (sym (append-nil (digits (suc n) n)))
    ∙ scan-digits (suc n) n [] (omega arith) h
    ∙ unfold scan in refl

unsigned-format : (n : ℕ) → n ≤ max_u64 → unsigned (format n) ≡ (n, none)
unfolding unsigned
unsigned-format n h = let (d, ds, e) = format_cases n in ground (arith, scan-format n h)

-- The first byte of a print is neither sign.
format_head : (n d : ℕ) (ds : Bytes) → format n ≡ d ∷ ds → IsDigit d
format_head n d ds e = (subst (All IsDigit) e (format-IsDigit n)).0

atoi-unsigned :
    (d : ℕ) (ds : Bytes) → IsDigit d → atoi (d ∷ ds) ≡ with_sign false (unsigned (d ∷ ds))
unfolding atoi
atoi-unsigned d ds h = ground arith

abbrev pub InInt64 : ℤ → Type 0
InInt64 (pos n) = n < 2 ^ 63
InInt64 (negsuc n) = n < 2 ^ 63

-- Every `int` is read back from its decimal print.
pub atoi-itoa : (z : ℤ) → InInt64 z → atoi (itoa z) ≡ (z, none)
unfolding itoa
atoi-itoa (pos n) h =
    let (d, ds, e) = format_cases n in
    rw e (
      atoi-unsigned d ds (format_head n d ds e)
      ∙ (rw (← e, unsigned-format n (omega arith)) (unfold with_sign in ground arith)))
atoi-itoa (negsuc n) h = unfold atoi in rw (unsigned-format (suc n) (omega arith)) (ground arith)

-- The text of an `int` is digits, behind a sign if it is negative.
pub itoa-All : (P : ℕ → Type 0) → ((c : ℕ) → IsDigit c → P c) → P b'-' → (z : ℤ) → All P (itoa z)
unfolding itoa
itoa-All P digit sign (pos n) = All-imp digit (format n) (format-IsDigit n)
itoa-All P digit sign (negsuc n) = (sign, All-imp digit (format (suc n)) (format-IsDigit (suc n)))

pub itoa-ne-nil : (z : ℤ) → itoa z ≢ []
unfolding itoa
itoa-ne-nil (pos n) = let (d, ds, e) = format_cases n in λ h. cc
itoa-ne-nil (negsuc n) = λ h. cc
