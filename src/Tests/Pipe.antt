-- ===== src/Tests/Pipe.antt =====
-- A code of two bytes through a pipe that keeps one.
use dify_sandbox.Base.{◌+◌, ◌*◌, ◌≤◌, ◌≡◌, ◌⊎◌, refl, [], ◌∷◌, Bytes, length, arith}
use dify_sandbox.Runner.CodePipe.{
  writing, ended, at_end, gone, capturing, closed, CodePipe, writes, written, ends, starts, reads,
  sees_end, exits, closes_reader, closes_writer, Transfer, start, next,
}
use dify_sandbox.Runner.CodePipe.Arrival.{child_reads_code}
use dify_sandbox.Runner.CodePipe.Closing.{IsQuiet, Continues, code_pipe_ends}

abbrev ab : Bytes
ab = 97 ∷ 98 ∷ []

abbrev after_reading : CodePipe
after_reading = record {
  unsent = [];
  buffer = [];
  received = 97 ∷ 98 ∷ [];
  writer = ended;
  child = at_end;
  parent = capturing;
}

after_reading-Transfer : Transfer 1 ab 8 after_reading
after_reading-Transfer =
    next
      (next
        (next
          (next
            (next
              (next
                (next
                  (next start
                    (writes (97 ∷ []) (98 ∷ []) refl refl (omega arith) (omega arith) refl))
                  (starts refl))
                (reads (97 ∷ []) [] refl refl (omega arith)))
              (writes (98 ∷ []) [] refl refl (omega arith) (omega arith) refl))
            (written refl refl))
          (reads (98 ∷ []) [] refl refl (omega arith)))
        (ends refl))
      (sees_end refl refl refl)

child_reads_code_example : (ab ≡ ab) × (ended ≡ ended)
child_reads_code_example = child_reads_code after_reading-Transfer refl

-- The child has exited without reading, and the hook has closed both ends.
abbrev left_alone : CodePipe
left_alone = record {
  unsent = 98 ∷ [];
  buffer = 97 ∷ [];
  received = [];
  writer = writing;
  child = gone;
  parent = closed;
}

left_alone-Transfer : Transfer 1 ab 5 left_alone
left_alone-Transfer =
    let r1 = next start (writes (97 ∷ []) (98 ∷ []) refl refl (omega arith) (omega arith) refl) in
    let r3 = next (next r1 (starts refl)) (exits refl) in
    next (next r3 (closes_reader refl refl)) (closes_writer refl)

code_pipe_ends_example : (5 ≤ 2 * length ab + 7) × (IsQuiet left_alone ⊎ Continues 1 left_alone)
code_pipe_ends_example = code_pipe_ends left_alone-Transfer (omega arith)
