-- ===== src/Runner/CodePipe/Closing.antt =====
-- How the pipe and the goroutine that writes into it end.
use dify_sandbox.Base.{
  ℕ, ◌+◌, ◌*◌, ◌≤◌, ◌<◌, ◌≡◌, refl, sym, ap, ◌∙◌, Bool, true, false, ◌⊎◌, inl, inr, Bool-cases, ltb,
  [], ◌∷◌, Bytes, length, length-append, append-nil, arith,
}
use dify_sandbox.Runner.CodePipe.{
  WriterPc, writing, closing, ended, ChildPc, waiting, reading, at_end, gone, ParentPc, capturing,
  between, closed, CodePipe, Step, writes, written, fails, ends, starts, start_fails, reads,
  sees_end, exits, closes_reader, closes_writer, Transfer, start, next,
}
use dify_sandbox.Runner.CodePipe.Arrival.{Inv, Transfer-Inv}

abbrev writer_left : WriterPc → ℕ
writer_left writing = 2
writer_left closing = 1
writer_left ended = 0

abbrev child_left : ChildPc → ℕ
child_left waiting = 3
child_left reading = 2
child_left at_end = 1
child_left gone = 0

abbrev parent_left : ParentPc → ℕ
parent_left capturing = 2
parent_left between = 1
parent_left closed = 0

-- What is left of an execution.
left : CodePipe → ℕ
left s =
    2 * length s.unsent
    + length s.buffer
    + writer_left s.writer
    + child_left s.child
    + parent_left s.parent

Step-left : {room : ℕ} {s t : CodePipe} → Step room s t → left t < left s
unfolding left
Step-left {s = s} (writes chunk rest w u n f o) =
    omega (arith, length-append s.buffer chunk, ap length u, length-append chunk rest)
Step-left {s = s} (reads chunk rest c e n) = omega (arith, ap length e, length-append chunk rest)
Step-left (written w u) = ground arith
Step-left (fails w o) = ground arith
Step-left (ends w) = ground arith
Step-left (starts c) = ground arith
Step-left (start_fails c) = ground arith
Step-left (sees_end c e o) = ground arith
Step-left (exits c) = ground arith
Step-left (closes_reader c p) = ground arith
Step-left (closes_writer p) = ground arith

Transfer-left :
    {room : ℕ} {code : Bytes} {n : ℕ} {s : CodePipe}
    → Transfer room code n s
    → n + left s ≤ 2 * length code + 7
Transfer-left start = unfold left in omega arith
Transfer-left (next r st) = omega (arith, Step-left st, Transfer-left r)

-- Nothing is left to do but for the child: it runs the code, or all is over and closed.
abbrev pub quiet_at : WriterPc → ChildPc → ParentPc → Bool
quiet_at ended at_end capturing = true
quiet_at ended gone closed = true
quiet_at _ _ _ = false

abbrev pub IsQuiet : CodePipe → Type 0
IsQuiet s = quiet_at s.writer s.child s.parent ≡ true

-- A step that is not the end of the child.
abbrev pub GoesOn : {room : ℕ} {s t : CodePipe} → Step room s t → Type 0
GoesOn (start_fails c) = ⊥
GoesOn (exits c) = ⊥
GoesOn _ = Unit

abbrev pub Continues : ℕ → CodePipe → Type 0
Continues room s = (t : CodePipe) × (st : Step room s t) × GoesOn st

module _ {room : ℕ} (some_room : 0 < room) (s : CodePipe) where
  -- The child reads, and the goroutine writes.
  while_writing :
      (us : Bytes)
      → s.unsent ≡ us
      → s.writer ≡ writing
      → s.child ≡ reading
      → s.parent ≡ capturing
      → Continues room s
  while_writing [] u w c p = (_, written w u, tt)
  while_writing (x ∷ xs) u w c p = elim (Bool-cases (ltb (length s.buffer) room)) [
    | inl free ↦ (_, writes (x ∷ []) xs w u (omega arith) (ground arith) (ground arith), tt)
    | inr full ↦ (_, reads s.buffer [] c (sym (append-nil s.buffer)) (ground arith), tt)
  ]

  -- The child reads, and the goroutine is over.
  while_reading :
      (bs : Bytes) → s.buffer ≡ bs → s.writer ≡ ended → s.child ≡ reading → Continues room s
  while_reading [] b w c = (_, sees_end c b (ground arith), tt)
  while_reading (x ∷ xs) b w c =
      (_, reads (x ∷ xs) [] c (b ∙ sym (append-nil (x ∷ xs))) (omega arith), tt)

  continues :
      {code : Bytes} (w : WriterPc) (c : ChildPc) (p : ParentPc)
      → Inv code s
      → s.writer ≡ w
      → s.child ≡ c
      → s.parent ≡ p
      → IsQuiet s ⊎ Continues room s
  continues w waiting p v ew ec ep = inr (_, starts ec, tt)
  continues writing reading p v ew ec ep = inr (while_writing s.unsent refl ew ec (ground arith))
  continues closing reading p v ew ec ep = inr (_, ends ew, tt)
  continues ended reading p v ew ec ep = inr (while_reading s.buffer refl ew ec)
  continues w at_end p v ew ec ep = inl (ground arith)
  continues w gone capturing v ew ec ep = inr (_, closes_reader ec ep, tt)
  continues w gone between v ew ec ep = inr (_, closes_writer ep, tt)
  continues writing gone closed v ew ec ep = inr (_, fails ew (ground arith), tt)
  continues closing gone closed v ew ec ep = inr (_, ends ew, tt)
  continues ended gone closed v ew ec ep = inl (ground arith)

-- Writing the code, reading it and closing the pipe takes a bounded number of steps, and nobody
-- waits in vain: until the child has seen the end of the code, or the child is gone, the goroutine
-- is over and both ends are closed, there is a step to take that is not the end of the child. So
-- the goroutine never stays behind, also where the child exits without reading.
pub code_pipe_ends :
    {room : ℕ} {code : Bytes} {n : ℕ} {s : CodePipe}
    → Transfer room code n s
    → 0 < room
    → (n ≤ 2 * length code + 7) × (IsQuiet s ⊎ Continues room s)
code_pipe_ends {s = s} r h = (
  omega (arith, Transfer-left r),
  continues h s s.writer s.child s.parent (Transfer-Inv r) refl refl refl,
)
