-- ===== src/Capture/Phases.antt =====
-- The order in which the goroutines end.
use dify_sandbox.Base.{ℕ, ◌≡◌, refl, Bool, true, false, List, [], Bytes, arith}
use dify_sandbox.Capture.{
  Process, ReadEnd, eof, failed, WaitResult, wait_failed, exited, OutPc, ErrPc, WaiterPc, waiting,
  reaping, signalling, stopping, finished, CollectorPc, answering, returned, System, Step, out_read,
  out_ended, out_send, out_report, err_read, err_ended, err_send, err_report, timer_fire,
  timer_code, timer_sends, timer_report, timer_kill, wait_group, wait_process, wait_report,
  wait_hook, wait_done, stop_timer, stop_late, write_out, write_err, write_exec, take_default,
  answer, waiter_after, out_after, err_after,
}

-- Behind the wait group both readers have ended.
abbrev pub Gate : WaiterPc → OutPc → ErrPc → Type 0
Gate waiting o e = Unit
Gate _ o e = (o ≡ OutPc.closed) × (e ≡ ErrPc.closed)

-- A reader that has seen the end of its pipe has read every chunk.
abbrev pub OutLeft : OutPc → List Bytes → Type 0
OutLeft (OutPc.reporting e) src = src ≡ []
OutLeft OutPc.closed src = src ≡ []
OutLeft _ src = Unit

abbrev pub ErrLeft : ErrPc → List Bytes → Type 0
ErrLeft (ErrPc.reporting e) src = src ≡ []
ErrLeft ErrPc.closed src = src ≡ []
ErrLeft _ src = Unit

abbrev pub hooks_of : WaiterPc → ℕ
hooks_of signalling = 1
hooks_of stopping = 1
hooks_of finished = 1
hooks_of _ = 0

abbrev pub signalled : WaiterPc → Bool
signalled stopping = true
signalled finished = true
signalled _ = false

abbrev pub Answered : CollectorPc → Bool → Type 0
Answered (returned c) d = d ≡ true
Answered answering d = d ≡ true
Answered _ d = Unit

pub record Phases (s : System) : Type 0 where
  pub gate : Gate s.waiter s.out_pc s.err_pc
  pub out_left : OutLeft s.out_pc s.out_src
  pub err_left : ErrLeft s.err_pc s.err_src
  pub hooked : s.hooks ≡ hooks_of s.waiter
  pub done_sent : s.drained ≡ signalled s.waiter
  pub answered : Answered s.collector s.drained

out_after-OutLeft : (e : ReadEnd) (src : List Bytes) → src ≡ [] → OutLeft (out_after e) src
out_after-OutLeft eof src h = h
out_after-OutLeft (failed t) src h = h

err_after-ErrLeft : (e : ReadEnd) (src : List Bytes) → src ≡ [] → ErrLeft (err_after e) src
err_after-ErrLeft eof src h = h
err_after-ErrLeft (failed t) src h = h

reap-Gate :
    (r : WaitResult) (o : OutPc) (e : ErrPc)
    → Gate reaping o e
    → Gate (waiter_after r) o e
      × (hooks_of (waiter_after r) ≡ 0)
      × (signalled (waiter_after r) ≡ false)
reap-Gate (wait_failed t) o e h = (h, refl, refl)
reap-Gate (exited c t) o e h = ground arith

-- Every step keeps the order.
pub Step-Phases : {p : Process} {s t : System} → Step p s t → Phases s → Phases t
Step-Phases (out_read a b) v = ground arith
Step-Phases {p} {s} (out_ended a b) v = ground (arith, out_after-OutLeft p.out_end s.out_src b)
Step-Phases (out_send a b) v = ground arith
Step-Phases (out_report a b) v = ground arith
Step-Phases (err_read a b) v = ground arith
Step-Phases {p} {s} (err_ended a b) v = ground (arith, err_after-ErrLeft p.err_end s.err_src b)
Step-Phases (err_send a b) v = ground arith
Step-Phases (err_report a b) v = ground arith
Step-Phases (timer_fire a) v = ground arith
Step-Phases (timer_code a) v = ground arith
Step-Phases (timer_sends a) v = ground arith
Step-Phases (timer_report a b) v = ground arith
Step-Phases (timer_kill a) v = ground arith
Step-Phases (wait_group a b c) v = ground arith
Step-Phases {p} {s} (wait_process a) v = ground (arith, reap-Gate p.result s.out_pc s.err_pc)
Step-Phases (wait_report a b) v = ground arith
Step-Phases (wait_hook a) v = ground arith
Step-Phases (wait_done a b c) v = ground arith
Step-Phases (stop_timer a b) v = ground arith
Step-Phases (stop_late a b) v = ground arith
Step-Phases (write_out a) v = ground arith
Step-Phases (write_err a) v = ground arith
Step-Phases (write_exec a) v = ground arith
Step-Phases (take_default a b c) v = ground arith
Step-Phases (answer a) v = ground arith
