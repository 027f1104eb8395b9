-- ===== src/Capture/Texts.antt =====
-- The texts that the goroutines hand over on the error channel.

use dify_sandbox.Base.{◌≡◌, refl, Bool, true, false, List, [], ◌∷◌, ◌++◌, Bytes, arith}
use dify_sandbox.Capture.{
  Process, ReadEnd, eof, failed, WaitResult, wait_failed, exited, OutPc, ErrPc, WaiterPc, waiting,
  reaping, System, Step, out_read, out_ended, out_send, out_report, err_read, err_ended, err_send,
  err_report, timer_fire, timer_code, timer_sends, timer_report, timer_kill, wait_group,
  wait_process, wait_report, wait_hook, wait_done, stop_timer, stop_late, write_out, write_err,
  write_exec, take_default, answer, waiter_after, out_after, err_after, error_text, timeout_text,
}

-- What the end of a pipe, and the result of the process, have to report.
abbrev pub end_texts : ReadEnd → List Bytes
end_texts eof = []
end_texts (failed e) = error_text e ∷ []

abbrev pub pending : WaiterPc → List Bytes
pending (WaiterPc.reporting e) = e ∷ []
pending _ = []

abbrev pub wait_texts : WaitResult → List Bytes
wait_texts r = pending (waiter_after r)

-- What each goroutine has handed over.
abbrev pub out_texts : ReadEnd → OutPc → List Bytes
out_texts e OutPc.closed = end_texts e
out_texts e _ = []

abbrev pub err_texts : ReadEnd → ErrPc → List Bytes
err_texts e ErrPc.closed = end_texts e
err_texts e _ = []

abbrev pub waiter_texts : WaitResult → WaiterPc → List Bytes
waiter_texts r waiting = []
waiter_texts r reaping = []
waiter_texts r (WaiterPc.reporting e) = []
waiter_texts r _ = wait_texts r

abbrev pub told_texts : Bool → List Bytes
told_texts true = timeout_text ∷ []
told_texts false = []

abbrev pub texts : Process → Bool → System → List Bytes
texts p told s =
    told_texts told
    ++ (out_texts p.out_end s.out_pc
        ++ (err_texts p.err_end s.err_pc ++ waiter_texts p.result s.waiter))

-- A goroutine at a report has the text of its end.
abbrev pub OutSays : ReadEnd → OutPc → Type 0
OutSays e (OutPc.reporting t) = end_texts e ≡ t ∷ []
OutSays e _ = Unit

abbrev pub ErrSays : ReadEnd → ErrPc → Type 0
ErrSays e (ErrPc.reporting t) = end_texts e ≡ t ∷ []
ErrSays e _ = Unit

abbrev pub WaiterSays : WaitResult → WaiterPc → Type 0
WaiterSays r (WaiterPc.reporting t) = wait_texts r ≡ t ∷ []
WaiterSays r _ = Unit

pub record Says (p : Process) (s : System) : Type 0 where
  pub out_says : OutSays p.out_end s.out_pc
  pub err_says : ErrSays p.err_end s.err_pc
  pub waiter_says : WaiterSays p.result s.waiter

pub out_after-OutSays : (e : ReadEnd) → OutSays e (out_after e) × (out_texts e (out_after e) ≡ [])
out_after-OutSays eof = (tt, refl)
out_after-OutSays (failed t) = (refl, refl)

pub err_after-ErrSays : (e : ReadEnd) → ErrSays e (err_after e) × (err_texts e (err_after e) ≡ [])
err_after-ErrSays eof = (tt, refl)
err_after-ErrSays (failed t) = (refl, refl)

pub after-WaiterSays :
    (r : WaitResult) → WaiterSays r (waiter_after r) × (waiter_texts r (waiter_after r) ≡ [])
after-WaiterSays (wait_failed t) = (refl, refl)
after-WaiterSays (exited c t) = ground arith

pub Step-Says : {p : Process} {s t : System} → Step p s t → Says p s → Says p t
Step-Says (out_read a b) v = ground arith
Step-Says {p} (out_ended a b) v = ground (arith, out_after-OutSays p.out_end)
Step-Says (out_send a b) v = ground arith
Step-Says (out_report a b) v = ground arith
Step-Says (err_read a b) v = ground arith
Step-Says {p} (err_ended a b) v = ground (arith, err_after-ErrSays p.err_end)
Step-Says (err_send a b) v = ground arith
Step-Says (err_report a b) v = ground arith
Step-Says (timer_fire a) v = ground arith
Step-Says (timer_code a) v = ground arith
Step-Says (timer_sends a) v = ground arith
Step-Says (timer_report a b) v = ground arith
Step-Says (timer_kill a) v = ground arith
Step-Says (wait_group a b c) v = ground arith
Step-Says {p} (wait_process a) v = ground (arith, after-WaiterSays p.result)
Step-Says (wait_report a b) v = ground arith
Step-Says (wait_hook a) v = ground arith
Step-Says (wait_done a b c) v = ground arith
Step-Says (stop_timer a b) v = ground arith
Step-Says (stop_late a b) v = ground arith
Step-Says (write_out a) v = ground arith
Step-Says (write_err a) v = ground arith
Step-Says (write_exec a) v = ground arith
Step-Says (take_default a b c) v = ground arith
Step-Says (answer a) v = ground arith
