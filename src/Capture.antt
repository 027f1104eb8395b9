-- ===== src/Capture.antt =====
-- internal/core/runner/output_capture.go from `cmd.Start` on, together with the loop that receives
-- from its channels, `collectRunCodeResponse` of internal/service/run_code.go.
--
-- Five goroutines share three unbuffered channels, an exit code and a wait group: the two readers,
-- the timer's function, the goroutine that waits for the process, and the collector. Each has a
-- program counter, and a step of the system is one step of one of them, or of a sender and the
-- collector where a value is handed over. What the operating system answers (the chunks that the
-- reads return, how they end, the result of `Process.Wait`) is the record `Process`.
mod Counters
pub use Counters.*
pub mod Phases
pub mod Stdout
pub mod Stderr
pub mod Measure
pub mod Progress
pub mod Outcome
pub mod Race
pub mod Texts
pub mod Report
pub mod Clock
use dify_sandbox.Base.{
  ℕ, zero, suc, ◌+◌, ◌≡◌, ◌≢◌, ℤ, pos, negsuc, eqb_ℤ, Bool, true, false, not, ◌&&◌, List, [], ◌∷◌,
  ◌++◌, Bytes, codes, length, take, drop, if◌then◌else◌,
}
use dify_sandbox.Text.Search.{contains}

pub record System : Type 0 where
  pub out_src : List Bytes
  pub out_pc : OutPc
  pub err_src : List Bytes
  pub err_pc : ErrPc
  pub err_buf : Bytes  -- the one buffer of the stderr reader
  pub timer : TimerPc
  pub waiter : WaiterPc
  pub exit_code : ℤ
  pub hooks : ℕ  -- how often `after_exit_hook` was called
  pub drained : Bool  -- `done` was received: the collector is in its inner loop
  pub collector : CollectorPc
  pub stdout : Bytes
  pub stderr : Bytes
  pub exec_error : Bytes

-- No goroutine is at a send on one of the three channels, so `default` is taken.
pub record NoSender (s : System) : Type 0 where
  pub no_out : (c : Bytes) → s.out_pc ≢ OutPc.sending c
  pub no_out_error : (e : Bytes) → s.out_pc ≢ OutPc.reporting e
  pub no_err : (n : ℕ) → s.err_pc ≢ ErrPc.sending n
  pub no_err_error : (e : Bytes) → s.err_pc ≢ ErrPc.reporting e
  pub no_timer : s.timer ≢ TimerPc.reporting
  pub no_waiter : (e : Bytes) → s.waiter ≢ WaiterPc.reporting e

-- One step of one goroutine, or of a sender and the collector.
pub data Step (p : Process) (s : System) : System → Type 0 where
  out_read :
      {c : Bytes} {cs : List Bytes}
      → s.out_pc ≡ OutPc.reading
      → s.out_src ≡ c ∷ cs
      → Step p s (record s { out_src = cs; out_pc = OutPc.sending c })
  out_ended :
      s.out_pc ≡ OutPc.reading
      → s.out_src ≡ []
      → Step p s (record s { out_pc = out_after p.out_end })
  out_send :
      {c : Bytes}
      → s.out_pc ≡ OutPc.sending c
      → s.collector ≡ selecting
      → Step p s (record s { out_pc = OutPc.reading; collector = copy_out c })
  out_report :
      {e : Bytes}
      → s.out_pc ≡ OutPc.reporting e
      → s.collector ≡ selecting
      → Step p s (record s { out_pc = OutPc.closed; collector = copy_exec e })
  err_read :
      {c : Bytes} {cs : List Bytes}
      → s.err_pc ≡ ErrPc.reading
      → s.err_src ≡ c ∷ cs
      → Step p s
          (record s { err_src = cs; err_pc = ErrPc.sending (length c); err_buf = fill c s.err_buf })
  err_ended :
      s.err_pc ≡ ErrPc.reading
      → s.err_src ≡ []
      → Step p s (record s { err_pc = err_after p.err_end })
  err_send :
      {n : ℕ}
      → s.err_pc ≡ ErrPc.sending n
      → s.collector ≡ selecting
      → Step p s (record s { err_pc = ErrPc.reading; collector = copy_err n })
  err_report :
      {e : Bytes}
      → s.err_pc ≡ ErrPc.reporting e
      → s.collector ≡ selecting
      → Step p s (record s { err_pc = ErrPc.closed; collector = copy_exec e })
  timer_fire : s.timer ≡ armed → Step p s (record s { timer = fired })
  timer_code : s.timer ≡ fired → Step p s (record s { timer = stored; exit_code = negsuc 0 })
  timer_sends : s.timer ≡ stored → Step p s (record s { timer = TimerPc.reporting })
  timer_report :
      s.timer ≡ TimerPc.reporting
      → s.collector ≡ selecting
      → Step p s (record s { timer = killing; collector = copy_exec timeout_text })
  timer_kill : s.timer ≡ killing → Step p s (record s { timer = ended })
  wait_group :
      s.waiter ≡ waiting
      → s.out_pc ≡ OutPc.closed
      → s.err_pc ≡ ErrPc.closed
      → Step p s (record s { waiter = reaping })
  wait_process :
      s.waiter ≡ reaping
      → Step p s
          (record s { waiter = waiter_after p.result; exit_code = code_after s.exit_code p.result })
  wait_report :
      {e : Bytes}
      → s.waiter ≡ WaiterPc.reporting e
      → s.collector ≡ selecting
      → Step p s (record s { waiter = hooking; collector = copy_exec e })
  wait_hook : s.waiter ≡ hooking → Step p s (record s { waiter = signalling; hooks = suc s.hooks })
  wait_done :
      s.waiter ≡ signalling
      → s.collector ≡ selecting
      → s.drained ≡ false
      → Step p s (record s { waiter = stopping; drained = true })
  stop_timer :
      s.waiter ≡ stopping
      → s.timer ≡ armed
      → Step p s (record s { waiter = finished; timer = ended })
  stop_late : s.waiter ≡ stopping → s.timer ≢ armed → Step p s (record s { waiter = finished })
  write_out :
      {c : Bytes}
      → s.collector ≡ copy_out c
      → Step p s (record s { collector = selecting; stdout = s.stdout ++ c })
  write_err :
      {n : ℕ}
      → s.collector ≡ copy_err n
      → Step p s (record s { collector = selecting; stderr = s.stderr ++ take n s.err_buf })
  write_exec :
      {e : Bytes}
      → s.collector ≡ copy_exec e
      → Step p s (record s { collector = selecting; exec_error = s.exec_error ++ e })
  take_default :
      s.collector ≡ selecting
      → s.drained ≡ true
      → NoSender s
      → Step p s (record s { collector = answering })
  answer : s.collector ≡ answering → Step p s (record s { collector = returned s.exit_code })

-- `buf := make([]byte, 1024)`
zeros : ℕ → Bytes
zeros zero = []
zeros (suc n) = 0 ∷ zeros n

pub empty_buf : Bytes
unfolding zeros
empty_buf = zeros buf_size

-- `CaptureOutput` has started the goroutines; `early` says that the timer fired before the process
-- was there, so that its function did nothing.
abbrev pub init : Process → Bool → System
init p early = record {
  out_src = p.out_chunks;
  out_pc = OutPc.reading;
  err_src = p.err_chunks;
  err_pc = ErrPc.reading;
  err_buf = empty_buf;
  timer = if early then ended else armed;
  waiter = waiting;
  exit_code = pos 0;
  hooks = 0;
  drained = false;
  collector = selecting;
  stdout = [];
  stderr = [];
  exec_error = [];
}

-- The states that `n` steps lead to.
pub data Run (p : Process) (early : Bool) : ℕ → System → Type 0 where
  start : Run p early 0 (init p early)
  next : {n : ℕ} {s t : System} → Run p early n s → Step p s t → Run p early (suc n) t
