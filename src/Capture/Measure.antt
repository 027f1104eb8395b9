-- ===== src/Capture/Measure.antt =====
-- Every step uses something up, so that no execution goes on for ever.
use dify_sandbox.Base.{ℕ, ◌+◌, ◌*◌, ◌≤◌, ◌<◌, length, arith}
use dify_sandbox.Capture.{
  Process, ReadEnd, eof, failed, WaitResult, wait_failed, exited, OutPc, ErrPc, TimerPc, armed,
  fired, stored, killing, ended, WaiterPc, waiting, reaping, hooking, signalling, stopping,
  finished, CollectorPc, selecting, answering, returned, System, Step, out_read, out_ended,
  out_send, out_report, err_read, err_ended, err_send, err_report, timer_fire, timer_code,
  timer_sends, timer_report, timer_kill, wait_group, wait_process, wait_report, wait_hook,
  wait_done, stop_timer, stop_late, write_out, write_err, write_exec, take_default, answer,
  waiter_after, out_after, err_after,
}

abbrev pub out_left : OutPc → ℕ
out_left (OutPc.sending c) = 5
out_left OutPc.reading = 3
out_left (OutPc.reporting e) = 2
out_left OutPc.closed = 0

abbrev pub err_left : ErrPc → ℕ
err_left (ErrPc.sending n) = 5
err_left ErrPc.reading = 3
err_left (ErrPc.reporting e) = 2
err_left ErrPc.closed = 0

abbrev pub timer_left : TimerPc → ℕ
timer_left armed = 6
timer_left fired = 5
timer_left stored = 4
timer_left TimerPc.reporting = 3
timer_left killing = 1
timer_left ended = 0

abbrev pub waiter_left : WaiterPc → ℕ
waiter_left waiting = 7
waiter_left reaping = 6
waiter_left (WaiterPc.reporting e) = 5
waiter_left hooking = 3
waiter_left signalling = 2
waiter_left stopping = 1
waiter_left finished = 0

abbrev pub collector_left : CollectorPc → ℕ
collector_left selecting = 2
collector_left answering = 1
collector_left (returned c) = 0
collector_left _ = 3

abbrev pub left : System → ℕ
left s =
    3 * length s.out_src
    + out_left s.out_pc
    + (3 * length s.err_src + err_left s.err_pc)
    + timer_left s.timer
    + waiter_left s.waiter
    + collector_left s.collector

out_left-after : (e : ReadEnd) → out_left (out_after e) ≤ 2
out_left-after eof = omega arith
out_left-after (failed t) = omega arith

err_left-after : (e : ReadEnd) → err_left (err_after e) ≤ 2
err_left-after eof = omega arith
err_left-after (failed t) = omega arith

waiter_left-after : (r : WaitResult) → waiter_left (waiter_after r) ≤ 5
waiter_left-after (wait_failed t) = omega arith
waiter_left-after (exited c t) = ground arith

-- Each step takes at least one from what is left.
pub left-Step : {p : Process} {s t : System} → Step p s t → left t < left s
left-Step {p} (out_ended a b) = ground (arith, out_left-after p.out_end)
left-Step {p} (err_ended a b) = ground (arith, err_left-after p.err_end)
left-Step {p} (wait_process a) = ground (arith, waiter_left-after p.result)
left-Step (out_read a b) = ground arith
left-Step (out_send a b) = ground arith
left-Step (out_report a b) = ground arith
left-Step (err_read a b) = ground arith
left-Step (err_send a b) = ground arith
left-Step (err_report a b) = ground arith
left-Step (timer_fire a) = ground arith
left-Step (timer_code a) = ground arith
left-Step (timer_sends a) = ground arith
left-Step (timer_report a b) = ground arith
left-Step (timer_kill a) = ground arith
left-Step (wait_group a b c) = ground arith
left-Step (wait_report a b) = ground arith
left-Step (wait_hook a) = ground arith
left-Step (wait_done a b c) = ground arith
left-Step (stop_timer a b) = ground arith
left-Step (stop_late a b) = ground arith
left-Step (write_out a) = ground arith
left-Step (write_err a) = ground arith
left-Step (write_exec a) = ground arith
left-Step (take_default a b c) = ground arith
left-Step (answer a) = ground arith
