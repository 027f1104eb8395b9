-- ===== src/Seccomp/Program.antt =====
-- internal/core/lib/seccomp.go: from the lists to the filter program that the kernel is given.
-- libseccomp and the system calls are arguments: `export` is what `ExportBPF` writes for the lists.
use dify_sandbox.Base.{
  ℕ, zero, suc, ◌+◌, ◌*◌, ◌/◌, ◌%◌, ◌^◌, List, [], ◌∷◌, ◌++◌, ◌⊎◌, inl, inr, Option, none, some,
  Bytes, length, take, drop, codes,
}
use dify_sandbox.Seccomp.{Lists}

-- `syscall.SockFilter`
pub record SockFilter : Type 0 where
  pub code : ℕ
  pub jt : ℕ
  pub jf : ℕ
  pub k : ℕ

-- `binary.Read` of one filter: 16 bits, twice 8, and 32, the lowest byte first.
abbrev pub decode_filter : ℕ → ℕ → ℕ → ℕ → ℕ → ℕ → ℕ → ℕ → SockFilter
decode_filter b0 b1 b2 b3 b4 b5 b6 b7 = record {
  code = b0 + 256 * b1;
  jt = b2;
  jf = b3;
  k = b4 + 256 * b5 + 65536 * b6 + 16777216 * b7;
}

-- `binary.Read` into a slice of that many filters; `none` is an unexpected end.
unfoldable pub decode_filters : ℕ → Bytes → Option (List SockFilter)
decode_filters zero bs = some []
decode_filters (suc n) (b0 ∷ b1 ∷ b2 ∷ b3 ∷ b4 ∷ b5 ∷ b6 ∷ b7 ∷ bs) = elim (decode_filters n bs) [
  | none ↦ none
  | some fs ↦ some (decode_filter b0 b1 b2 b3 b4 b5 b6 b7 ∷ fs)
]
decode_filters (suc n) _ = none

unfoldable pub zeros : ℕ → Bytes
zeros zero = []
zeros (suc n) = 0 ∷ zeros n

-- The calls, each with its error if it fails. `seccomp` with TSYNC answers an errno, or a number: 0
-- where the filters are attached, and else the id of a thread that cannot have them, where none are.
pub record Calls : Type 0 where
  pub new_filter : Option Bytes
  pub pipe : Option Bytes
  pub export : Lists → Bytes
  pub read : Option Bytes
  pub seccomp : List SockFilter → ℕ → Bytes ⊎ ℕ

-- How `Seccomp` ends: with an error, with the panic of `&sock_filters[0]` on no filter, waiting for
-- the pipe where nothing was written, or without an error: the kernel was given a program of so many
-- filters, and its number is dropped.
pub data Outcome : Type 0 where
  failed : Bytes → Outcome
  panics : Outcome
  waits : Outcome
  handed_over : List SockFilter → ℕ → Outcome

abbrev pub load : Calls → Option (List SockFilter) → Outcome
load c none = failed (codes "unexpected EOF")
load c (some []) = panics
load c (some (f ∷ fs)) = elim (c.seccomp (f ∷ fs) (length (f ∷ fs) % 2 ^ 16)) [
  | inl e ↦ failed e
  | inr r1 ↦ handed_over (f ∷ fs) (length (f ∷ fs) % 2 ^ 16)
]

-- What one `Read` into a buffer of 4096 bytes gets from the pipe, and the filters in the buffer.
abbrev pub read_filters : Calls → Bytes → Outcome
read_filters c chunk =
    load c (decode_filters (length chunk / 8) (chunk ++ drop (length chunk) (zeros 4096)))

abbrev pub read_program : Calls → Bytes → Outcome
read_program c [] = waits
read_program c (b ∷ bs) = elim c.read [
  | some e ↦ failed e
  | none ↦ read_filters c (take 4096 (b ∷ bs))
]

-- `Seccomp`
unfoldable pub seccomp : Calls → Lists → Outcome
seccomp c ls = elim c.new_filter [
  | some e ↦ failed e
  | none ↦ elim c.pipe [ some e ↦ failed e | none ↦ read_program c (c.export ls) ]
]
