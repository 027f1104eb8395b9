-- ===== src/Capture/Clock.antt =====
-- The exit code that the collector returns, and the texts that go with it.
use mathlib.Core.List.{Perm}
use mathlib.Core.List.Perm
use dify_sandbox.Base.{
  ℕ, ◌≡◌, refl, subst, ◌⊎◌, inl, ℤ, pos, negsuc, Bool, true, false, List, [], ◌++◌, append-nil,
  Bytes, concat, arith,
}
use dify_sandbox.Capture.Phases.{Phases}
use dify_sandbox.Capture.{
  Process, WaitResult, wait_failed, exited, TimerPc, stored, WaiterPc, waiting, reaping, stopping,
  finished, CollectorPc, returned, System, Step, out_read, out_ended, out_send, out_report,
  err_read, err_ended, err_send, err_report, timer_fire, timer_code, timer_sends, timer_report,
  timer_kill, wait_group, wait_process, wait_report, wait_hook, wait_done, stop_timer, stop_late,
  write_out, write_err, write_exec, take_default, answer, waiter_after, code_after,
}
use dify_sandbox.Capture.{Run, start, next}
use dify_sandbox.Capture.Outcome.{Run-Phases}
use dify_sandbox.Capture.Texts.{end_texts, wait_texts, told_texts, texts, Says, Step-Says}
use dify_sandbox.Capture.Report.{Delivered, Step-Delivered, Agrees, told_after}

-- The exit code that the result of the process stands for.
abbrev pub exit_of : WaitResult → ℤ
exit_of (wait_failed e) = negsuc 0
exit_of (exited c text) = c

-- An exit code that is `c`, or -1 where the timer has set it.
abbrev pub CodeFits : ℤ → Bool → ℤ → Type 0
CodeFits c timed code = (code ≡ c) ⊎ ((code ≡ negsuc 0) × (timed ≡ true))

-- Whether the timer has set the code: the timeout is told, or the timer is on its way to telling it.
abbrev pub coded : Bool → TimerPc → Bool
coded told stored = true
coded told TimerPc.reporting = true
coded told _ = told

abbrev reaped : WaitResult → WaiterPc → ℤ
reaped r waiting = pos 0
reaped r reaping = pos 0
reaped r _ = exit_of r

-- The stored exit code, or the one that was returned.
abbrev CodeAt : WaitResult → Bool → TimerPc → WaiterPc → ℤ → CollectorPc → Type 0
CodeAt r told timer waiter code (returned c) = CodeFits (exit_of r) (coded told timer) c
CodeAt r told timer waiter code _ = CodeFits (reaped r waiter) (coded told timer) code

record Clock (p : Process) (told : Bool) (s : System) : Type 0 where
  agrees : Agrees told s.timer s.collector
  code : CodeAt p.result told s.timer s.waiter s.exit_code s.collector

reaped-after : (r : WaitResult) → reaped r (waiter_after r) ≡ exit_of r
reaped-after (wait_failed t) = refl
reaped-after (exited c t) = ground arith

code_after-CodeFits :
    (r : WaitResult) (timed : Bool) (code : ℤ)
    → CodeFits (pos 0) timed code
    → CodeFits (exit_of r) timed (code_after code r)
code_after-CodeFits (wait_failed t) timed code h = ground arith
code_after-CodeFits (exited c t) timed code h = inl refl

Step-Clock :
    {p : Process} {told : Bool} {s t : System} (st : Step p s t)
    → Phases s
    → Clock p told s
    → Clock p (told_after st told) t
Step-Clock (out_read a b) f v = ground arith
Step-Clock (out_ended a b) f v = ground arith
Step-Clock (out_send a b) f v = ground arith
Step-Clock (out_report a b) f v = ground arith
Step-Clock (err_read a b) f v = ground arith
Step-Clock (err_ended a b) f v = ground arith
Step-Clock (err_send a b) f v = ground arith
Step-Clock (err_report a b) f v = ground arith
Step-Clock (timer_fire a) f v = ground arith
Step-Clock (timer_code a) f v = ground arith
Step-Clock (timer_sends a) f v = ground arith
Step-Clock (timer_report a b) f v = ground arith
Step-Clock (timer_kill a) f v = ground arith
Step-Clock (wait_group a b c) f v = ground arith
Step-Clock {p} {told} {s} (wait_process a) f v =
    ground
      (arith, reaped-after p.result, code_after-CodeFits p.result (coded told s.timer) s.exit_code)
Step-Clock (wait_report a b) f v = ground arith
Step-Clock (wait_hook a) f v = ground arith
Step-Clock (wait_done a b c) f v = ground arith
Step-Clock (stop_timer a b) f v = ground arith
Step-Clock (stop_late a b) f v = ground arith
Step-Clock (write_out a) f v = ground arith
Step-Clock (write_err a) f v = ground arith
Step-Clock (write_exec a) f v = ground arith
Step-Clock (take_default a b c) f v = ground arith
Step-Clock (answer a) f v = ground arith

module _ {p : Process} {early : Bool} where
  Run-Says : {n : ℕ} {s : System} → Run p early n s → Says p s
  Run-Says start = ground arith
  Run-Says (next r st) = Step-Says st (Run-Says r)

  Run-Clock :
      {n : ℕ} {s : System} → Run p early n s → (told : Bool) × Clock p told s × Delivered p told s
  Run-Clock start = (
    false,
    record { agrees = ground arith; code = inl refl },
    record { given = []; same = refl; perm = Perm.refl [] },
  )
  Run-Clock (next r st) =
      let (told, v, d) = Run-Clock r in
      (
        told_after st told,
        Step-Clock st (Run-Phases r) v,
        Step-Delivered st v.agrees (Run-Says r) d,
      )

-- What there is to report once the collector has returned.
all_texts :
    (p : Process) {s : System} (told : Bool) (c : ℤ)
    → Phases s
    → s.collector ≡ returned c
    → texts p told s
      ≡ told_texts told ++ (end_texts p.out_end ++ (end_texts p.err_end ++ wait_texts p.result))
all_texts p {s} told c v h = by_waiter s.waiter refl
  where
    done : s.drained ≡ true
    done = ground arith

    by_waiter :
        (w : WaiterPc)
        → s.waiter ≡ w
        → texts p told s
          ≡ told_texts told ++ (end_texts p.out_end ++ (end_texts p.err_end ++ wait_texts p.result))
    by_waiter stopping e = ground arith
    by_waiter finished e = ground arith
    by_waiter _ e = absurd (ground (arith, done))

module _ {p : Process} {early : Bool} {n : ℕ} {s : System} where
  -- However the goroutines interleave, the collector that returns has the error of each pipe that
  -- did not end with an end of file, and the report on the process, each once and in some order; and
  -- either the exit code is that of the process (-1 where the wait fails), or it is -1 and the timer
  -- has set it. Then the timeout is among the texts, once, or the timer set the code behind `done`,
  -- too late for its text to be received, and its goroutine is in front of its send or at it.
  pub exit_reported :
      (c : ℤ)
      → Run p early n s
      → s.collector ≡ returned c
      → (told : Bool) × (given : List Bytes) × (s.exec_error ≡ concat given)
        × Perm given (
            told_texts told
            ++ (end_texts p.out_end ++ (end_texts p.err_end ++ wait_texts p.result)))
        × CodeFits (exit_of p.result) (coded told s.timer) c
  exit_reported c r h =
      let (told, v, d) = Run-Clock r in
      (
        told,
        d.given,
        ground (arith, d.same, append-nil s.exec_error),
        subst (Perm d.given) (all_texts p told c (Run-Phases r) h) d.perm,
        ground (arith, v.code),
      )
