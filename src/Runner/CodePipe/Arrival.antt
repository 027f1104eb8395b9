-- ===== src/Runner/CodePipe/Arrival.antt =====
-- What the child reads of the code.
use dify_sandbox.Base.{ℕ, ◌≡◌, refl, sym, ap, ◌∙◌, [], ◌++◌, Bytes, append_assoc, append-nil, arith}
use dify_sandbox.Runner.CodePipe.{
  WriterPc, writing, ended, ChildPc, at_end, gone, ParentPc, capturing, CodePipe, Step, writes,
  written, fails, ends, starts, start_fails, reads, sees_end, exits, closes_reader, closes_writer,
  Transfer, start, next,
}

-- A goroutine that is behind its write has sent the code, unless the child is gone.
abbrev pub Sent : WriterPc → ChildPc → Bytes → Type 0
Sent writing c us = Unit
Sent _ gone us = Unit
Sent _ _ us = us ≡ []

abbrev pub Kept : ChildPc → ParentPc → Type 0
Kept gone p = Unit
Kept _ p = p ≡ capturing

abbrev pub Seen : ChildPc → WriterPc → Bytes → Type 0
Seen at_end w bs = (bs ≡ []) × (w ≡ ended)
Seen _ w bs = Unit

pub record Inv (code : Bytes) (s : CodePipe) : Type 0 where
  pub whole : s.received ++ (s.buffer ++ s.unsent) ≡ code
  pub sent : Sent s.writer s.child s.unsent
  pub kept : Kept s.child s.parent
  pub seen : Seen s.child s.writer s.buffer

Step-Inv : {room : ℕ} {code : Bytes} {s t : CodePipe} → Step room s t → Inv code s → Inv code t
Step-Inv {s = s} (writes chunk rest w u n f o) v = record {
  whole =
      ap (λ t. s.received ++ t) (append_assoc s.buffer chunk rest ∙ ap (λ t. s.buffer ++ t) (sym u))
      ∙ v.whole;
  sent = ground arith;
  kept = v.kept;
  seen = ground arith;
}
Step-Inv (written w u) v = record {
  whole = v.whole;
  sent = ground arith;
  kept = v.kept;
  seen = ground arith;
}
Step-Inv (fails w o) v = record {
  whole = v.whole;
  sent = ground arith;
  kept = v.kept;
  seen = ground arith;
}
Step-Inv (ends w) v = record {
  whole = v.whole;
  sent = ground arith;
  kept = v.kept;
  seen = ground arith;
}
Step-Inv (starts c) v = record {
  whole = v.whole;
  sent = ground arith;
  kept = ground arith;
  seen = ground arith;
}
Step-Inv (start_fails c) v = record {
  whole = v.whole;
  sent = ground arith;
  kept = ground arith;
  seen = ground arith;
}
Step-Inv {s = s} (reads chunk rest c e n) v = record {
  whole =
      append_assoc s.received chunk (rest ++ s.unsent)
      ∙ ap (λ t. s.received ++ t)
          (sym (append_assoc chunk rest s.unsent) ∙ ap (λ t. t ++ s.unsent) (sym e))
      ∙ v.whole;
  sent = v.sent;
  kept = v.kept;
  seen = ground arith;
}
Step-Inv (sees_end c e o) v = record {
  whole = v.whole;
  sent = ground arith;
  kept = ground arith;
  seen = ground arith;
}
Step-Inv (exits c) v = record {
  whole = v.whole;
  sent = ground arith;
  kept = ground arith;
  seen = ground arith;
}
Step-Inv (closes_reader c p) v = record {
  whole = v.whole;
  sent = v.sent;
  kept = ground arith;
  seen = ground arith;
}
Step-Inv (closes_writer p) v = record {
  whole = v.whole;
  sent = v.sent;
  kept = ground arith;
  seen = ground arith;
}

pub Transfer-Inv :
    {room : ℕ} {code : Bytes} {n : ℕ} {s : CodePipe} → Transfer room code n s → Inv code s
Transfer-Inv start = record { whole = refl; sent = tt; kept = refl; seen = tt }
Transfer-Inv (next r st) = Step-Inv st (Transfer-Inv r)

-- However writing and reading interleave, a child that sees the end of its descriptor has read the
-- code exactly, and the goroutine is over.
pub child_reads_code :
    {room : ℕ} {code : Bytes} {n : ℕ} {s : CodePipe}
    → Transfer room code n s
    → s.child ≡ at_end
    → (s.received ≡ code) × (s.writer ≡ ended)
child_reads_code {s = s} r e =
    let v = Transfer-Inv r in
    let read_all : s.buffer ≡ [] = ground arith in
    let over : s.writer ≡ ended = ground arith in
    let sent_all : s.unsent ≡ [] = ground arith in
    (
      sym (append-nil s.received)
          ∙ ap (λ t. s.received ++ t) (sym (ap (λ t. t ++ s.unsent) read_all ∙ sent_all))
          ∙ v.whole,
      over,
    )
