-- ===== src/Capture/Outcome.antt =====
-- What an execution of the capture ends with.
use dify_sandbox.Base.{
  ℕ, ◌+◌, ◌*◌, ◌≤◌, ◌≡◌, ◌⊎◌, refl, sym, ◌∙◌, Bool, true, false, append-nil, length, concat, arith,
  ℤ,
}
use dify_sandbox.Capture.Phases.{Phases, Step-Phases}
use dify_sandbox.Capture.Stdout.{stdout_trail, Step-stdout_trail}
use dify_sandbox.Capture.Stderr.{Fits, Step-Fits, stderr_count, Step-stderr_count, stderr_trail}
use dify_sandbox.Capture.Measure.{left, left-Step}
use dify_sandbox.Capture.Progress.{Moves, returned_or_Moves}
use dify_sandbox.Capture.{
  Process, OutPc, ErrPc, WaiterPc, stopping, finished, returned, System, init, Run, start, next,
}

module _ {p : Process} {early : Bool} where
  pub Run-Phases : {n : ℕ} {s : System} → Run p early n s → Phases s
  Run-Phases start = ground arith
  Run-Phases (next r st) = Step-Phases st (Run-Phases r)

  Run-Fits : {n : ℕ} {s : System} → Run p early n s → Fits s
  Run-Fits start = omega arith
  Run-Fits (next r st) = Step-Fits st (Run-Fits r)

  Run-stdout_trail : {n : ℕ} {s : System} → Run p early n s → stdout_trail s ≡ concat p.out_chunks
  Run-stdout_trail start = refl
  Run-stdout_trail (next r st) = Step-stdout_trail st ∙ Run-stdout_trail r

  Run-stderr_count :
      {n : ℕ} {s : System} → Run p early n s → stderr_count s ≡ length (concat p.err_chunks)
  Run-stderr_count start = omega arith
  Run-stderr_count (next r st) = Step-stderr_count st (Run-Fits r) ∙ Run-stderr_count r

  Run-left : {n : ℕ} {s : System} → Run p early n s → n + left s ≤ left (init p early)
  Run-left start = omega arith
  Run-left (next r st) = omega (arith, left-Step st, Run-left r)

-- The readers have nothing left once the collector has returned.
pub ended_trails :
    {s : System} (c : ℤ)
    → Phases s
    → s.collector ≡ returned c
    → (stdout_trail s ≡ s.stdout)
      × (stderr_trail s ≡ s.stderr)
      × (stderr_count s ≡ length s.stderr)
      × (s.hooks ≡ 1)
ended_trails {s} c v h =
    ground (arith, out_closed s.waiter refl, append-nil s.stdout, append-nil s.stderr)
  where
    done : s.drained ≡ true
    done = ground arith

    out_closed :
        (w : WaiterPc)
        → s.waiter ≡ w
        → (s.out_pc ≡ OutPc.closed) × (s.err_pc ≡ ErrPc.closed) × (s.hooks ≡ 1)
    out_closed stopping e = ground arith
    out_closed finished e = ground arith
    out_closed _ e = absurd (ground (arith, done))

left-init :
    (p : Process) (early : Bool)
    → left (init p early) ≤ 3 * length p.out_chunks + 3 * length p.err_chunks + 21
left-init p true = omega arith
left-init p false = omega arith

module _ {p : Process} {early : Bool} {n : ℕ} {s : System} where
  -- However the goroutines interleave, when the collector returns it has all that was read from
  -- the stdout of the process, byte for byte and in order.
  pub stdout_exact :
      (c : ℤ) → Run p early n s → s.collector ≡ returned c → s.stdout ≡ concat p.out_chunks
  stdout_exact c r h = sym ((ended_trails c (Run-Phases r) h).0) ∙ Run-stdout_trail r

  -- However the goroutines interleave, the collector that returns has as many bytes of stderr as
  -- were read.
  pub stderr_length :
      (c : ℤ)
      → Run p early n s
      → s.collector ≡ returned c
      → length s.stderr ≡ length (concat p.err_chunks)
  stderr_length c r h = sym ((ended_trails c (Run-Phases r) h).2) ∙ Run-stderr_count r

  -- When the collector has returned, `after_exit_hook` was called exactly once.
  hook_once : (c : ℤ) → Run p early n s → s.collector ≡ returned c → s.hooks ≡ 1
  hook_once c r h = (ended_trails c (Run-Phases r) h).3

  -- No execution is longer than 3 steps for each chunk and 21 more, and until the collector has
  -- returned some goroutine can make a step: there is no deadlock.
  pub capture_answers :
      Run p early n s
      → (n ≤ 3 * length p.out_chunks + 3 * length p.err_chunks + 21)
        × (((c : ℤ) × (s.collector ≡ returned c)) ⊎ Moves p s)
  capture_answers r =
      (omega (arith, Run-left r, left-init p early), returned_or_Moves (Run-Phases r))
