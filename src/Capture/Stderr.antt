-- ===== src/Capture/Stderr.antt =====
-- What the collector has of stderr. The reader sends slices of one buffer, so the bytes that are
-- copied are those which stand in it at the time of the copy.
use dify_sandbox.Base.{
  ℕ, zero, suc, ◌+◌, ◌≤◌, ◌≡◌, ◌≢◌, refl, [], ◌∷◌, ◌++◌, append_assoc, Bytes, concat, length, take,
  drop, length-append, take-length-append, arith,
}
use dify_sandbox.Capture.{
  Process, ReadEnd, eof, failed, ErrPc, CollectorPc, selecting, copy_err, System, Step, out_read,
  out_ended, out_send, out_report, err_read, err_ended, err_send, err_report, timer_fire,
  timer_code, timer_sends, timer_report, timer_kill, wait_group, wait_process, wait_report,
  wait_hook, wait_done, stop_timer, stop_late, write_out, write_err, write_exec, take_default,
  answer, err_after, fill,
}

length-take_of_le : (n : ℕ) (xs : Bytes) → n ≤ length xs → length (take n xs) ≡ n
length-take_of_le zero xs h = refl
length-take_of_le (suc n) [] h = absurd (omega arith)
length-take_of_le (suc n) (x ∷ xs) h = omega (arith, length-take_of_le n xs)

le-length-fill :
    (c buf : Bytes) → (length c ≤ length (fill c buf)) × (length buf ≤ length (fill c buf))
le-length-fill [] buf = omega arith
le-length-fill (x ∷ c) [] = (omega (arith, length-append c []), omega arith)
le-length-fill (x ∷ c) (y ∷ buf) = omega (arith, le-length-fill c buf)

abbrev pub count_at_send : ErrPc → ℕ
count_at_send (ErrPc.sending n) = n
count_at_send _ = 0

abbrev pub count_at_copy : CollectorPc → ℕ
count_at_copy (copy_err n) = n
count_at_copy _ = 0

-- How many bytes of stderr there are, from what is copied to what is unread.
abbrev pub stderr_count : System → ℕ
stderr_count s =
    length s.stderr
    + (count_at_copy s.collector + (count_at_send s.err_pc + length (concat s.err_src)))

-- The slices on their way lie in the buffer.
pub record Fits (s : System) : Type 0 where
  pub sent : count_at_send s.err_pc ≤ length s.err_buf
  pub copied : count_at_copy s.collector ≤ length s.err_buf

count_at_send-err_after : (e : ReadEnd) → count_at_send (err_after e) ≡ 0
count_at_send-err_after eof = refl
count_at_send-err_after (failed t) = refl

pub Step-Fits : {p : Process} {s t : System} → Step p s t → Fits s → Fits t
Step-Fits {p} {s} (err_read {c = c} a b) v = ground (arith, le-length-fill c s.err_buf)
Step-Fits {p} (err_ended a b) v = ground (arith, count_at_send-err_after p.err_end)
Step-Fits (out_read a b) v = ground arith
Step-Fits (out_ended a b) v = ground arith
Step-Fits (out_send a b) v = ground arith
Step-Fits (out_report a b) v = ground arith
Step-Fits (err_send a b) v = ground arith
Step-Fits (err_report a b) v = ground arith
Step-Fits (timer_fire a) v = ground arith
Step-Fits (timer_code a) v = ground arith
Step-Fits (timer_sends a) v = ground arith
Step-Fits (timer_report a b) v = ground arith
Step-Fits (timer_kill a) v = ground arith
Step-Fits (wait_group a b c) v = ground arith
Step-Fits (wait_process a) v = ground arith
Step-Fits (wait_report a b) v = ground arith
Step-Fits (wait_hook a) v = ground arith
Step-Fits (wait_done a b c) v = ground arith
Step-Fits (stop_timer a b) v = ground arith
Step-Fits (stop_late a b) v = ground arith
Step-Fits (write_out a) v = ground arith
Step-Fits (write_err a) v = ground arith
Step-Fits (write_exec a) v = ground arith
Step-Fits (take_default a b c) v = ground arith
Step-Fits (answer a) v = ground arith

-- No step changes the number of bytes.
pub Step-stderr_count :
    {p : Process} {s t : System} → Step p s t → Fits s → stderr_count t ≡ stderr_count s
Step-stderr_count (err_read {c = c} {cs = cs} a b) v = ground (arith, length-append c (concat cs))
Step-stderr_count {p} (err_ended a b) v = ground (arith, count_at_send-err_after p.err_end)
Step-stderr_count {p} {s} (write_err {n = n} a) v =
    ground (arith, length-append s.stderr (take n s.err_buf), length-take_of_le n s.err_buf)
Step-stderr_count (out_read a b) v = ground arith
Step-stderr_count (out_ended a b) v = ground arith
Step-stderr_count (out_send a b) v = ground arith
Step-stderr_count (out_report a b) v = ground arith
Step-stderr_count (err_send a b) v = ground arith
Step-stderr_count (err_report a b) v = ground arith
Step-stderr_count (timer_fire a) v = ground arith
Step-stderr_count (timer_code a) v = ground arith
Step-stderr_count (timer_sends a) v = ground arith
Step-stderr_count (timer_report a b) v = ground arith
Step-stderr_count (timer_kill a) v = ground arith
Step-stderr_count (wait_group a b c) v = ground arith
Step-stderr_count (wait_process a) v = ground arith
Step-stderr_count (wait_report a b) v = ground arith
Step-stderr_count (wait_hook a) v = ground arith
Step-stderr_count (wait_done a b c) v = ground arith
Step-stderr_count (stop_timer a b) v = ground arith
Step-stderr_count (stop_late a b) v = ground arith
Step-stderr_count (write_out a) v = ground arith
Step-stderr_count (write_exec a) v = ground arith
Step-stderr_count (take_default a b c) v = ground arith
Step-stderr_count (answer a) v = ground arith

-- The bytes on their way, as the buffer has them now.
abbrev pub slice_at_send : ErrPc → Bytes → Bytes
slice_at_send (ErrPc.sending n) buf = take n buf
slice_at_send _ buf = []

abbrev pub slice_at_copy : CollectorPc → Bytes → Bytes
slice_at_copy (copy_err n) buf = take n buf
slice_at_copy _ buf = []

abbrev pub stderr_trail : System → Bytes
stderr_trail s =
    s.stderr
    ++ (slice_at_copy s.collector s.err_buf
        ++ (slice_at_send s.err_pc s.err_buf ++ concat s.err_src))

-- A step that does not read into the buffer while the collector copies from it.
abbrev pub Settled : {p : Process} {s t : System} → Step p s t → Type 0
Settled {s = s} (err_read a b) = (n : ℕ) → s.collector ≢ copy_err n
Settled _ = Unit

slice-err_after : (e : ReadEnd) (buf : Bytes) → slice_at_send (err_after e) buf ≡ []
slice-err_after eof buf = refl
slice-err_after (failed t) buf = refl

slice_at_copy-idle :
    (k : CollectorPc) (buf : Bytes) → ((n : ℕ) → k ≢ copy_err n) → slice_at_copy k buf ≡ []
slice_at_copy-idle (copy_err n) buf h = absurd (h n refl)
slice_at_copy-idle selecting buf h = refl
slice_at_copy-idle _ buf h = refl

-- As long as no read overlaps a copy, no byte of stderr is lost, repeated or changed.
pub Step-stderr_trail :
    {p : Process} {s t : System} (st : Step p s t) → Settled st → stderr_trail t ≡ stderr_trail s
Step-stderr_trail {p} {s} (err_read {c = c} {cs = cs} a b) calm = ground (
  arith,
  take-length-append c (drop (length c) s.err_buf),
  slice_at_copy-idle s.collector s.err_buf calm,
  slice_at_copy-idle s.collector (fill c s.err_buf) calm,
)
Step-stderr_trail {p} {s} (err_ended a b) calm = ground (arith, slice-err_after p.err_end s.err_buf)
Step-stderr_trail {p} {s} (write_err {n = n} a) calm = ground (
  arith,
  append_assoc s.stderr (take n s.err_buf) (slice_at_send s.err_pc s.err_buf ++ concat s.err_src),
)
Step-stderr_trail (out_read a b) calm = ground arith
Step-stderr_trail (out_ended a b) calm = ground arith
Step-stderr_trail (out_send a b) calm = ground arith
Step-stderr_trail (out_report a b) calm = ground arith
Step-stderr_trail (err_send a b) calm = ground arith
Step-stderr_trail (err_report a b) calm = ground arith
Step-stderr_trail (timer_fire a) calm = ground arith
Step-stderr_trail (timer_code a) calm = ground arith
Step-stderr_trail (timer_sends a) calm = ground arith
Step-stderr_trail (timer_report a b) calm = ground arith
Step-stderr_trail (timer_kill a) calm = ground arith
Step-stderr_trail (wait_group a b c) calm = ground arith
Step-stderr_trail (wait_process a) calm = ground arith
Step-stderr_trail (wait_report a b) calm = ground arith
Step-stderr_trail (wait_hook a) calm = ground arith
Step-stderr_trail (wait_done a b c) calm = ground arith
Step-stderr_trail (stop_timer a b) calm = ground arith
Step-stderr_trail (stop_late a b) calm = ground arith
Step-stderr_trail (write_out a) calm = ground arith
Step-stderr_trail (write_exec a) calm = ground arith
Step-stderr_trail (take_default a b c) calm = ground arith
Step-stderr_trail (answer a) calm = ground arith
