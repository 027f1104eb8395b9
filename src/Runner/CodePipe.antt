-- ===== src/Runner/CodePipe.antt =====
-- The code on its way to the child: the pipe that `Run` of internal/core/runner/python/python.go and
-- of internal/core/runner/nodejs/nodejs.go makes, the goroutine that writes into it, and who closes
-- which end. The kernel keeps at most `room` bytes of the pipe. The child has the reading end as a
-- descriptor of its own and no writing end: `os.Pipe` marks both to be closed where a program starts.
pub mod Arrival
pub mod Closing
use dify_sandbox.Base.{
  ℕ, suc, ◌+◌, ◌≤◌, ◌<◌, ◌≡◌, Bool, true, false, ◌&&◌, ◌||◌, List, [], ◌++◌, Bytes, length,
}

-- The goroutine: in `io.WriteString`, at its `codeWriter.Close`, or over.
pub data WriterPc : Type 0 where
  writing closing ended : WriterPc

pub data ChildPc : Type 0 where
  waiting : ChildPc  -- before `cmd.Start`
  reading : ChildPc
  at_end : ChildPc  -- it has seen the end of the code
  gone : ChildPc  -- it has exited, or was not started

-- `Run`: in `CaptureOutput`, between the two calls of `Close` of the hook or of the error path, or
-- behind them.
pub data ParentPc : Type 0 where
  capturing between closed : ParentPc

pub record CodePipe : Type 0 where
  pub unsent : Bytes
  pub buffer : Bytes
  pub received : Bytes
  pub writer : WriterPc
  pub child : ChildPc
  pub parent : ParentPc

-- Whether the child runs.
abbrev pub runs : ChildPc → Bool
runs reading = true
runs at_end = true
runs _ = false

-- Whether an end is open anywhere.
abbrev pub has_reader : ChildPc → ParentPc → Bool
has_reader c capturing = true
has_reader c _ = runs c

abbrev pub has_writer : WriterPc → ParentPc → Bool
has_writer ended p = false
has_writer _ closed = false
has_writer _ _ = true

pub data Step (room : ℕ) (s : CodePipe) : CodePipe → Type 0 where
  writes :
      (chunk rest : Bytes)
      → s.writer ≡ writing
      → s.unsent ≡ chunk ++ rest
      → 0 < length chunk
      → length s.buffer + length chunk ≤ room
      → has_reader s.child s.parent && has_writer s.writer s.parent ≡ true
      → Step room s (record s { unsent = rest; buffer = s.buffer ++ chunk })
  written : s.writer ≡ writing → s.unsent ≡ [] → Step room s (record s { writer = closing })
  fails :  -- the error is dropped
      s.writer ≡ writing
      → has_reader s.child s.parent && has_writer s.writer s.parent ≡ false
      → Step room s (record s { writer = closing })
  ends : s.writer ≡ closing → Step room s (record s { writer = ended })
  starts : s.child ≡ waiting → Step room s (record s { child = reading })
  start_fails : s.child ≡ waiting → Step room s (record s { child = gone })
  reads :
      (chunk rest : Bytes)
      → s.child ≡ reading
      → s.buffer ≡ chunk ++ rest
      → 0 < length chunk
      → Step room s (record s { buffer = rest; received = s.received ++ chunk })
  sees_end :
      s.child ≡ reading
      → s.buffer ≡ []
      → has_writer s.writer s.parent ≡ false
      → Step room s (record s { child = at_end })
  exits : runs s.child ≡ true → Step room s (record s { child = gone })
  closes_reader :
      s.child ≡ gone → s.parent ≡ capturing → Step room s (record s { parent = between })
  closes_writer : s.parent ≡ between → Step room s (record s { parent = closed })

abbrev pub init : Bytes → CodePipe
init code = record {
  unsent = code;
  buffer = [];
  received = [];
  writer = writing;
  child = waiting;
  parent = capturing;
}

-- An execution of `n` steps.
pub data Transfer (room : ℕ) (code : Bytes) : ℕ → CodePipe → Type 0 where
  start : Transfer room code 0 (init code)
  next :
      {n : ℕ} {s t : CodePipe}
      → Transfer room code n s
      → Step room s t
      → Transfer room code (suc n) t
