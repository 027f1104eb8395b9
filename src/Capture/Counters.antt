-- ===== src/Capture/Counters.antt =====
-- The program counters of the goroutines of internal/core/runner/output_capture.go, what the system
-- answers them, and what they store and report.
use dify_sandbox.Base.{
  ℕ, ◌≤◌, All, ℤ, pos, negsuc, eqb_ℤ, not, ◌&&◌, List, ◌++◌, Bytes, codes, length, drop,
  if◌then◌else◌,
}
use dify_sandbox.Text.Search.{contains}

-- How a pipe ends: `io.EOF`, or an error whose text is kept.
pub data ReadEnd : Type 0 where
  eof : ReadEnd
  failed : Bytes → ReadEnd

-- What `cmd.Process.Wait` returns: an error, or a state with its `ExitCode` and its `String`.
pub data WaitResult : Type 0 where
  wait_failed : Bytes → WaitResult
  exited : ℤ → Bytes → WaitResult

-- `make([]byte, 1024)`
abbrev pub buf_size : ℕ
buf_size = 1024

-- What the system answers; a `Read` returns no more than its buffer takes.
pub record Process : Type 0 where
  pub out_chunks : List Bytes
  pub out_fits : All (λ c. length c ≤ buf_size) out_chunks
  pub out_end : ReadEnd
  pub err_chunks : List Bytes
  pub err_fits : All (λ c. length c ≤ buf_size) err_chunks
  pub err_end : ReadEnd
  pub result : WaitResult

-- The goroutine that reads stdout; it sends a slice of a buffer made anew in each round.
pub data OutPc : Type 0 where
  reading : OutPc
  sending : Bytes → OutPc
  reporting : Bytes → OutPc
  closed : OutPc

-- The goroutine that reads stderr; it sends `buf[:n]` of a buffer that it goes on to use.
pub data ErrPc : Type 0 where
  reading : ErrPc
  sending : ℕ → ErrPc
  reporting : Bytes → ErrPc
  closed : ErrPc

-- The function of `time.AfterFunc`: behind `SetExitCode(-1)` it has stored the code, and then it comes
-- to its send.
pub data TimerPc : Type 0 where
  armed fired stored reporting killing ended : TimerPc

-- The goroutine that waits for the readers and the process.
pub data WaiterPc : Type 0 where
  waiting reaping : WaiterPc
  reporting : Bytes → WaiterPc
  hooking signalling stopping finished : WaiterPc

-- `collectRunCodeResponse`: in a `select`, or between a receive and the end of the `Write` that
-- copies it, or behind the `default` of its inner loop, or returned with the exit code that it read.
pub data CollectorPc : Type 0 where
  selecting : CollectorPc
  copy_out : Bytes → CollectorPc
  copy_err : ℕ → CollectorPc
  copy_exec : Bytes → CollectorPc
  answering : CollectorPc
  returned : ℤ → CollectorPc

abbrev pub error_text : Bytes → Bytes
error_text e = codes "error: " ++ e ++ codes "\n"

abbrev pub timeout_text : Bytes
timeout_text = codes "error: timeout\n"

abbrev pub not_permitted_text : Bytes
not_permitted_text = codes "error: operation not permitted\n"

-- `Read(buf)` of a chunk: the front of the buffer is overwritten.
abbrev pub fill : Bytes → Bytes → Bytes
fill chunk buf = chunk ++ drop (length chunk) buf

-- What a reader does next once its pipe has ended.
abbrev pub out_after : ReadEnd → OutPc
out_after eof = OutPc.closed
out_after (failed e) = OutPc.reporting (error_text e)

abbrev pub err_after : ReadEnd → ErrPc
err_after eof = ErrPc.closed
err_after (failed e) = ErrPc.reporting (error_text e)

-- The branches behind `cmd.Process.Wait()`: the exit code that is stored, ...
abbrev pub code_after : ℤ → WaitResult → ℤ
code_after code (wait_failed e) = if eqb_ℤ code (pos 0) then negsuc 0 else code
code_after code (exited c text) = c

-- ... and whether something is reported.
abbrev pub waiter_after : WaitResult → WaiterPc
waiter_after (wait_failed e) = WaiterPc.reporting (error_text e)
waiter_after (exited c text) =
    if not (eqb_ℤ c (pos 0)) && contains text (codes "bad system call")
    then WaiterPc.reporting not_permitted_text
    else hooking
