-- ===== src/Capture/Race.antt =====
-- What the shared buffer of the stderr reader does, and what the timer does after the answer.
use dify_sandbox.Base.{
  ℕ, suc, ◌≡◌, ◌≤◌, refl, sym, ◌∙◌, Bool, true, [], ◌∷◌, ◌++◌, Bytes, length, concat, take, drop,
  take-length-append, arith, ℤ, pos, negsuc,
}
use dify_sandbox.Capture.Stderr.{stderr_trail, Step-stderr_trail, Settled}
use dify_sandbox.Capture.Outcome.{Run-Phases, ended_trails}
use dify_sandbox.Capture.{
  Process, eof, exited, TimerPc, armed, answering, returned, buf_size, System, Step, out_read,
  out_ended, out_send, out_report, err_read, err_ended, err_send, err_report, timer_fire,
  timer_code, timer_sends, timer_report, timer_kill, wait_group, wait_process, wait_report,
  wait_hook, wait_done, stop_timer, stop_late, write_out, write_err, write_exec, take_default,
  answer, init, Run, start, next, fill, empty_buf,
}

-- Executions in which no read into the stderr buffer overlaps a copy from it.
pub data SettledRun (p : Process) (early : Bool) : ℕ → System → Type 0 where
  settled_start : SettledRun p early 0 (init p early)
  settled_next :
      {n : ℕ} {s t : System}
      → SettledRun p early n s
      → (st : Step p s t) → Settled st
      → SettledRun p early (suc n) t

module _ {p : Process} {early : Bool} where
  SettledRun-Run : {n : ℕ} {s : System} → SettledRun p early n s → Run p early n s
  SettledRun-Run settled_start = start
  SettledRun-Run (settled_next r st calm) = next (SettledRun-Run r) st

  SettledRun-trail :
      {n : ℕ} {s : System} → SettledRun p early n s → stderr_trail s ≡ concat p.err_chunks
  SettledRun-trail settled_start = refl
  SettledRun-trail (settled_next r st calm) = Step-stderr_trail st calm ∙ SettledRun-trail r

  -- If in an execution no read of stderr overlaps a copy from its buffer, the collector that
  -- returns has the stderr of the process, byte for byte.
  pub stderr_exact_if_settled :
      {n : ℕ} {s : System} (c : ℤ)
      → SettledRun p early n s
      → s.collector ≡ returned c
      → s.stderr ≡ concat p.err_chunks
  stderr_exact_if_settled c r h =
      sym ((ended_trails c (Run-Phases (SettledRun-Run r)) h).1) ∙ SettledRun-trail r

-- A process that writes two chunks to stderr and exits with 0.
abbrev pub two_chunks : (c d : Bytes) → length c ≤ buf_size → length d ≤ buf_size → Process
two_chunks c d hc hd = record {
  out_chunks = [];
  out_fits = tt;
  out_end = eof;
  err_chunks = c ∷ d ∷ [];
  err_fits = (hc, (hd, tt));
  err_end = eof;
  result = exited (pos 0) [];
}

-- The second chunk is read while the collector still copies the first.
overlapping :
    (c d : Bytes) (hc : length c ≤ buf_size) (hd : length d ≤ buf_size)
    → (s : System) × Run (two_chunks c d hc hd) true 15 s
      × (s.collector ≡ returned (pos 0))
      × (s.stderr
          ≡ take (length c) (fill d (fill c empty_buf))
            ++ take (length d) (fill d (fill c empty_buf)))
overlapping c d hc hd = (
  _,
  next
      (next
        (next
          (next
            (next
              (next
                (next
                  (next
                    (next
                      (next
                        (next
                          (next
                            (next (next (next start (err_read refl refl)) (err_send refl refl))
                              (err_read refl refl))
                            (write_err refl))
                          (err_send refl refl))
                        (write_err refl))
                      (err_ended refl refl))
                    (out_ended refl refl))
                  (wait_group refl refl refl))
                (wait_process refl))
              (wait_hook refl))
            (wait_done refl refl refl))
          (stop_late refl (λ e. cc)))
        (take_default refl refl (ground arith)))
      (answer refl),
  refl,
  refl,
)

-- For any two chunks of one length, of at most 1024 bytes, that a process writes to stderr, there is
-- an execution in which the collector returns the second chunk twice, in place of the first and the
-- second: the reader overwrites the slice that it has sent.
pub stderr_race :
    (c d : Bytes) (hc : length c ≤ buf_size) (hd : length d ≤ buf_size)
    → length c ≡ length d
    → (s : System) × Run (two_chunks c d hc hd) true 15 s
      × (s.collector ≡ returned (pos 0))
      × (s.stderr ≡ d ++ d)
stderr_race c d hc hd same =
    let (s, r, h, e) = overlapping c d hc hd in
    (s, r, h, e ∙ ground (arith, same, take-length-append d (drop (length d) (fill c empty_buf))))

-- The timer's function waits at a send that nobody will receive.
abbrev pub IsStuck : System → Type 0
IsStuck s = (s.timer ≡ TimerPc.reporting) × ((c : ℤ) × (s.collector ≡ returned c))

Step-IsStuck : {p : Process} {s t : System} → Step p s t → IsStuck s → IsStuck t
Step-IsStuck (out_read a b) (h, (n, k)) = (ground arith, (n, ground arith))
Step-IsStuck (out_ended a b) (h, (n, k)) = (ground arith, (n, ground arith))
Step-IsStuck (out_send a b) (h, (n, k)) = (ground arith, (n, ground arith))
Step-IsStuck (out_report a b) (h, (n, k)) = (ground arith, (n, ground arith))
Step-IsStuck (err_read a b) (h, (n, k)) = (ground arith, (n, ground arith))
Step-IsStuck (err_ended a b) (h, (n, k)) = (ground arith, (n, ground arith))
Step-IsStuck (err_send a b) (h, (n, k)) = (ground arith, (n, ground arith))
Step-IsStuck (err_report a b) (h, (n, k)) = (ground arith, (n, ground arith))
Step-IsStuck (timer_fire a) (h, (n, k)) = (ground arith, (n, ground arith))
Step-IsStuck (timer_code a) (h, (n, k)) = (ground arith, (n, ground arith))
Step-IsStuck (timer_sends a) (h, (n, k)) = (ground arith, (n, ground arith))
Step-IsStuck (timer_report a b) (h, (n, k)) = (ground arith, (n, ground arith))
Step-IsStuck (timer_kill a) (h, (n, k)) = (ground arith, (n, ground arith))
Step-IsStuck (wait_group a b c) (h, (n, k)) = (ground arith, (n, ground arith))
Step-IsStuck (wait_process a) (h, (n, k)) = (ground arith, (n, ground arith))
Step-IsStuck (wait_report a b) (h, (n, k)) = (ground arith, (n, ground arith))
Step-IsStuck (wait_hook a) (h, (n, k)) = (ground arith, (n, ground arith))
Step-IsStuck (wait_done a b c) (h, (n, k)) = (ground arith, (n, ground arith))
Step-IsStuck (stop_timer a b) (h, (n, k)) = (ground arith, (n, ground arith))
Step-IsStuck (stop_late a b) (h, (n, k)) = (ground arith, (n, ground arith))
Step-IsStuck (write_out a) (h, (n, k)) = (ground arith, (n, ground arith))
Step-IsStuck (write_err a) (h, (n, k)) = (ground arith, (n, ground arith))
Step-IsStuck (write_exec a) (h, (n, k)) = (ground arith, (n, ground arith))
Step-IsStuck (take_default a b c) (h, (n, k)) = (ground arith, (n, ground arith))
Step-IsStuck (answer a) (h, (n, k)) = (ground arith, (n, ground arith))

-- Further executions from a state.
pub data Later (p : Process) (s : System) : System → Type 0 where
  here : Later p s s
  later : {t u : System} → Later p s t → Step p t u → Later p s u

Later-IsStuck : {p : Process} {s t : System} → Later p s t → IsStuck s → IsStuck t
Later-IsStuck here h = h
Later-IsStuck (later l st) h = Step-IsStuck st (Later-IsStuck l h)

-- If the timer is still armed when the collector takes the `default` of its inner loop, which it can be
-- since it is stopped only after `done` is received, there is an execution in which the collector
-- returns -1 with the texts and the output that it has, and the timer's goroutine stays at its send in
-- every later state.
pub timer_too_late :
    {p : Process} {early : Bool} {n : ℕ} {s : System}
    → Run p early n s
    → s.collector ≡ answering
    → s.timer ≡ armed
    → (t : System) × Run p early (suc (suc (suc (suc n)))) t
      × (t.collector ≡ returned (negsuc 0))
      × (t.exec_error ≡ s.exec_error)
      × (t.stdout ≡ s.stdout)
      × ((u : System) → Later p t u → IsStuck u)
timer_too_late r k h = (
  _,
  next (next (next (next r (timer_fire h)) (timer_code refl)) (answer k)) (timer_sends refl),
  refl,
  refl,
  refl,
  λ u l. Later-IsStuck l (refl, (negsuc 0, refl)),
)
