-- ===== src/Capture/Stdout.antt =====
-- What the collector has of stdout: every byte that the reader read, in order.
use dify_sandbox.Base.{◌≡◌, refl, [], ◌++◌, append_assoc, Bytes, concat, arith}
use dify_sandbox.Capture.{
  Process, ReadEnd, eof, failed, OutPc, CollectorPc, copy_out, System, Step, out_read, out_ended,
  out_send, out_report, err_read, err_ended, err_send, err_report, timer_fire, timer_code,
  timer_sends, timer_report, timer_kill, wait_group, wait_process, wait_report, wait_hook,
  wait_done, stop_timer, stop_late, write_out, write_err, write_exec, take_default, answer,
  out_after,
}

-- The chunk that is at the send, and the one that is being copied.
abbrev pub at_send : OutPc → Bytes
at_send (OutPc.sending c) = c
at_send _ = []

abbrev pub at_copy : CollectorPc → Bytes
at_copy (copy_out c) = c
at_copy _ = []

-- All that the process wrote to stdout, from what is copied to what is unread.
abbrev pub stdout_trail : System → Bytes
stdout_trail s = s.stdout ++ (at_copy s.collector ++ (at_send s.out_pc ++ concat s.out_src))

at_send-out_after : (e : ReadEnd) → at_send (out_after e) ≡ []
at_send-out_after eof = refl
at_send-out_after (failed t) = refl

-- No step loses, repeats or reorders a byte of stdout.
pub Step-stdout_trail : {p : Process} {s t : System} → Step p s t → stdout_trail t ≡ stdout_trail s
Step-stdout_trail (out_read a b) = ground arith
Step-stdout_trail {p} (out_ended a b) = ground (arith, at_send-out_after p.out_end)
Step-stdout_trail (out_send a b) = ground arith
Step-stdout_trail (out_report a b) = ground arith
Step-stdout_trail (err_read a b) = ground arith
Step-stdout_trail (err_ended a b) = ground arith
Step-stdout_trail (err_send a b) = ground arith
Step-stdout_trail (err_report a b) = ground arith
Step-stdout_trail (timer_fire a) = ground arith
Step-stdout_trail (timer_code a) = ground arith
Step-stdout_trail (timer_sends a) = ground arith
Step-stdout_trail (timer_report a b) = ground arith
Step-stdout_trail (timer_kill a) = ground arith
Step-stdout_trail (wait_group a b c) = ground arith
Step-stdout_trail (wait_process a) = ground arith
Step-stdout_trail (wait_report a b) = ground arith
Step-stdout_trail (wait_hook a) = ground arith
Step-stdout_trail (wait_done a b c) = ground arith
Step-stdout_trail (stop_timer a b) = ground arith
Step-stdout_trail (stop_late a b) = ground arith
Step-stdout_trail {p} {s} (write_out {c = c} a) =
    ground (arith, append_assoc s.stdout c (at_send s.out_pc ++ concat s.out_src))
Step-stdout_trail (write_err a) = ground arith
Step-stdout_trail (write_exec a) = ground arith
Step-stdout_trail (take_default a b c) = ground arith
Step-stdout_trail (answer a) = ground arith
