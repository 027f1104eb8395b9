-- ===== src/Seccomp/Loading.antt =====
-- Which program reaches the kernel.
use dify_sandbox.Base.{
  ℕ, zero, suc, ◌*◌, ◌/◌, ◌%◌, ◌^◌, ◌≤◌, ◌<◌, ◌≡◌, ◌⊎◌, inl, inr, Bool-cases, leb, refl, sym, ap,
  subst, ◌∙◌, List, [], ◌∷◌, ◌++◌, none, some, Bytes, length, take, drop, All, arith,
}
use dify_sandbox.Seccomp.{Lists}
use dify_sandbox.Seccomp.Program.{
  SockFilter, decode_filter, decode_filters, zeros, Calls, Outcome, failed, handed_over, load,
  read_filters, seccomp,
}

-- The fields fit the C struct `sock_filter`.
pub record IsFilter (f : SockFilter) : Type 0 where
  pub code_u16 : f.code < 65536
  pub jt_u8 : f.jt < 256
  pub jf_u8 : f.jf < 256
  pub k_u32 : f.k < 4294967296

-- A struct `sock_filter` in memory, on a machine that stores the lowest byte first.
abbrev pub struct_bytes : SockFilter → Bytes → Bytes
struct_bytes f rest =
    (f.code % 256)
    ∷ (f.code / 256)
    ∷ f.jt
    ∷ f.jf
    ∷ (f.k % 256)
    ∷ (f.k / 256 % 256)
    ∷ (f.k / 65536 % 256)
    ∷ (f.k / 16777216)
    ∷ rest

unfoldable pub program_bytes : List SockFilter → Bytes
program_bytes [] = []
program_bytes (f ∷ fs) = struct_bytes f (program_bytes fs)

length-program_bytes : (fs : List SockFilter) → length (program_bytes fs) ≡ 8 * length fs
unfolding program_bytes
length-program_bytes [] = refl
length-program_bytes (f ∷ fs) = omega (arith, length-program_bytes fs)

decode-struct :
    (f : SockFilter)
    → IsFilter f
    → decode_filter
        (f.code % 256)
        (f.code / 256)
        f.jt
        f.jf
        (f.k % 256)
        (f.k / 256 % 256)
        (f.k / 65536 % 256)
        (f.k / 16777216)
      ≡ f
decode-struct f v = ground arith

decode-program_bytes :
    (fs : List SockFilter) (rest : Bytes)
    → All IsFilter fs
    → decode_filters (length fs) (program_bytes fs ++ rest) ≡ some fs
unfolding decode_filters program_bytes
decode-program_bytes [] rest h = refl
decode-program_bytes (f ∷ fs) rest (v, h) = rw (decode-program_bytes fs rest h, decode-struct f v)

eight_more : (m : ℕ) → 8 * suc m ≡ suc (suc (suc (suc (suc (suc (suc (suc (8 * m))))))))
eight_more m = omega arith

-- The front of a program in memory is the front of the program.
take-program_bytes :
    (m : ℕ) (fs : List SockFilter) → take (8 * m) (program_bytes fs) ≡ program_bytes (take m fs)
unfolding program_bytes
take-program_bytes zero fs = refl
take-program_bytes (suc m) [] = ap (λ n. take n []) (eight_more m)
take-program_bytes (suc m) (f ∷ fs) =
    ap (λ n. take n (struct_bytes f (program_bytes fs))) (eight_more m)
    ∙ ap (struct_bytes f) (take-program_bytes m fs)

All-take : (m : ℕ) (fs : List SockFilter) → All IsFilter fs → All IsFilter (take m fs)
All-take zero fs h = tt
All-take (suc m) [] h = tt
All-take (suc m) (f ∷ fs) (v, h) = (v, All-take m fs h)

length-take : (m : ℕ) (fs : List SockFilter) → length (take m fs) ≤ m
length-take zero fs = omega arith
length-take (suc m) [] = omega arith
length-take (suc m) (f ∷ fs) = omega (arith, length-take m fs)

-- What the kernel is asked to load, and the answer.
abbrev pub Loads : Calls → List SockFilter → Outcome → Type 0
Loads c fs o =
    ((r1 : ℕ) × (c.seccomp fs (length fs) ≡ inr r1) × (o ≡ handed_over fs (length fs)))
    ⊎ ((e : Bytes) × (c.seccomp fs (length fs) ≡ inl e) × (o ≡ failed e))

load-Loads :
    (c : Calls) (f : SockFilter) (fs : List SockFilter)
    → length (f ∷ fs) ≤ 512
    → Loads c (f ∷ fs) (load c (some (f ∷ fs)))
load-Loads c f fs h =
    subst
      (λ n. Loads c (f ∷ fs) (elim (c.seccomp (f ∷ fs) n) as (λ x. Outcome) [
        | inl e ↦ failed e
        | inr r1 ↦ handed_over (f ∷ fs) n
      ]))
      small (answered (c.seccomp (f ∷ fs) (length (f ∷ fs))) refl)
  where
    small : length (f ∷ fs) ≡ length (f ∷ fs) % 2 ^ 16
    small = omega arith

    answered :
        (r : Bytes ⊎ ℕ)
        → c.seccomp (f ∷ fs) (length (f ∷ fs)) ≡ r
        → ((r1 : ℕ) × (c.seccomp (f ∷ fs) (length (f ∷ fs)) ≡ inr r1)
            × (elim r as (λ x. Outcome) [
              | inl e ↦ failed e
              | inr r1 ↦ handed_over (f ∷ fs) (length (f ∷ fs))
            ]
                ≡ handed_over (f ∷ fs) (length (f ∷ fs))))
          ⊎ ((e : Bytes) × (c.seccomp (f ∷ fs) (length (f ∷ fs)) ≡ inl e)
              × (elim r as (λ x. Outcome) [
                | inl e ↦ failed e
                | inr r1 ↦ handed_over (f ∷ fs) (length (f ∷ fs))
              ]
                  ≡ failed e))
    answered (inr r1) e = inl (r1, e, refl)
    answered (inl t) e = inr (t, e, refl)

count_of_bytes : (fs : List SockFilter) → length (program_bytes fs) / 8 ≡ length fs
count_of_bytes fs = omega (arith, length-program_bytes fs)

read_filters-program_bytes :
    (c : Calls) (fs : List SockFilter)
    → All IsFilter fs
    → read_filters c (program_bytes fs) ≡ load c (some fs)
read_filters-program_bytes c fs h =
    let rest = drop (length (program_bytes fs)) (zeros 4096) in
    ap (λ n. load c (decode_filters n (program_bytes fs ++ rest))) (count_of_bytes fs)
    ∙ ap (load c) (decode-program_bytes fs rest h)

-- The calls before the last one succeed, and libseccomp exports the program `fs`.
pub record Exports (c : Calls) (ls : Lists) (fs : List SockFilter) : Type 0 where
  pub filter_made : c.new_filter ≡ none
  pub pipe_made : c.pipe ≡ none
  pub pipe_read : c.read ≡ none
  pub exported : c.export ls ≡ program_bytes fs

seccomp-read_filters :
    (c : Calls) (ls : Lists) (f : SockFilter) (fs : List SockFilter)
    → Exports c ls (f ∷ fs)
    → seccomp c ls ≡ read_filters c (take 4096 (program_bytes (f ∷ fs)))
unfolding seccomp program_bytes
seccomp-read_filters c ls f fs v = rw (v.filter_made, v.pipe_made, v.exported, v.pipe_read) refl

take-all : (m : ℕ) (fs : List SockFilter) → length fs ≤ m → take m fs ≡ fs
take-all zero [] h = refl
take-all zero (f ∷ fs) h = absurd (omega arith)
take-all (suc m) [] h = refl
take-all (suc m) (f ∷ fs) h = ap (λ gs. f ∷ gs) (take-all m fs (omega arith))

pub seccomp-take :
    (c : Calls) (ls : Lists) (f : SockFilter) (fs : List SockFilter)
    → Exports c ls (f ∷ fs)
    → All IsFilter (f ∷ fs)
    → Loads c (take 512 (f ∷ fs)) (seccomp c ls)
seccomp-take c ls f fs v h =
    subst (Loads c (take 512 (f ∷ fs)))
      (sym (
        seccomp-read_filters c ls f fs v
        ∙ ap (read_filters c) (take-program_bytes 512 (f ∷ fs))
        ∙ read_filters-program_bytes c (take 512 (f ∷ fs)) (All-take 512 (f ∷ fs) h)))
      (load-Loads c f (take 511 fs) (length-take 512 (f ∷ fs)))

-- Where the calls before succeed and libseccomp exports a program of filters whose fields fit the C
-- struct, `Seccomp` loads this program, with its length, if it has at most 512 filters, and only its
-- first 512 filters if it has more; the result is an error exactly if the kernel answers with an errno to
-- that, and the number that it answers else is dropped.
pub seccomp-Loads :
    (c : Calls) (ls : Lists) (f : SockFilter) (fs : List SockFilter)
    → Exports c ls (f ∷ fs)
    → All IsFilter (f ∷ fs)
    → (length (f ∷ fs) ≤ 512) × Loads c (f ∷ fs) (seccomp c ls)
      ⊎ (512 < length (f ∷ fs)) × Loads c (take 512 (f ∷ fs)) (seccomp c ls)
seccomp-Loads c ls f fs v h = elim (Bool-cases (leb (length (f ∷ fs)) 512)) [
  | inl e ↦
      let small : length (f ∷ fs) ≤ 512 = ground arith in
      inl (
        small,
        subst (λ gs. Loads c gs (seccomp c ls)) (take-all 512 (f ∷ fs) small)
            (seccomp-take c ls f fs v h),
      )
  | inr e ↦
      let large : 512 < length (f ∷ fs) = ground arith in inr (large, seccomp-take c ls f fs v h)
]
