-- ===== src/Service/Captured.antt =====
-- From a captured process to the answer of the run handlers.
use mathlib.Core.List.{Perm, mem-singleton, mem-cons_self, is_set}
use mathlib.Core.List.Perm
use native.Mathlib.Nat.{ℕ_set}
use dify_sandbox.Base.{
  ℕ, ◌≡◌, refl, ap, ◌∙◌, ◌⊎◌, inl, inr, ℤ, pos, negsuc, Bool, true, false, List, [], ◌∷◌, ◌++◌,
  none, Bytes, length-Perm, concat, length, append-nil, arith,
}
use dify_sandbox.Capture.{Process, eof, exited, System, Run, returned, timeout_text}
use dify_sandbox.Capture.Outcome.{stdout_exact, stderr_length}
use dify_sandbox.Capture.Texts.{end_texts, wait_texts, told_texts}
use dify_sandbox.Capture.Clock.{exit_of, CodeFits, coded, exit_reported}
use dify_sandbox.Service.{
  success_response, RunCodeResponse, build_execution_error, Collected, run_code_response, Settings,
  check_options, timeout_of, Runner, allowed_preload, collected, run_python3_code, run_nodejs_code,
}

Perm-nil : (xs : List Bytes) → Perm xs [] → xs ≡ []
Perm-nil [] h = refl
Perm-nil (x ∷ xs) h = absurd (omega (arith, length-Perm h))

Perm-singleton : (xs : List Bytes) (y : Bytes) → Perm xs (y ∷ []) → xs ≡ y ∷ []
Perm-singleton [] y h = absurd (omega (arith, length-Perm h))
Perm-singleton (x ∷ x' ∷ xs) y h = absurd (omega (arith, length-Perm h))
Perm-singleton (x ∷ []) y h =
    ap (λ z. z ∷ []) ((mem-singleton (is_set ℕ_set)).0 (Perm.subset h x mem-cons_self))

-- What `collectRunCodeResponse` has where it returns `c`.
abbrev pub collected_of : System → ℤ → Collected
collected_of s c = record {
  out = s.stdout;
  err = s.stderr;
  exec_error = s.exec_error;
  exit_code = c;
}

handlers_answer :
    (run : Runner) (settings : Settings) (code preload : Bytes) (net : Bool) (k : Collected)
    → check_options settings net ≡ none
    → run code (timeout_of settings) (allowed_preload settings preload) net ≡ collected k
    → (run_python3_code run settings code preload net ≡ success_response (run_code_response k))
      × (run_nodejs_code run settings code preload net ≡ success_response (run_code_response k))
unfolding run_python3_code run_nodejs_code
handlers_answer run settings code preload net k ok ran =
    (rw (run_python3_code, ok, ran) refl, rw (run_nodejs_code, ok, ran) refl)

-- What a process that exits with 0 is answered with: no error; the timeout; or a timer that came too
-- late to be reported.
abbrev pub CleanAnswer : System → RunCodeResponse → Type 0
CleanAnswer s body =
    ((body.error ≡ []) × (body.exit_code ≡ pos 0))
    ⊎ ((body.error ≡ build_execution_error body.exit_code body.stderr timeout_text)
        × ((body.exit_code ≡ pos 0) ⊎ (body.exit_code ≡ negsuc 0)))
    ⊎ ((body.error ≡ build_execution_error body.exit_code body.stderr [])
        × (body.exit_code ≡ negsuc 0)
        × (coded false s.timer ≡ true))

module _ {p : Process} {early : Bool} {n : ℕ} {s : System} where
  -- A process whose pipes end with an end of file and that exits with 0: nothing is reported but the
  -- timeout.
  clean_report :
      (c : ℤ) (text : Bytes)
      → Run p early n s
      → s.collector ≡ returned c
      → p.out_end ≡ eof
      → p.err_end ≡ eof
      → p.result ≡ exited (pos 0) text
      → ((s.exec_error ≡ []) × CodeFits (pos 0) (coded false s.timer) c)
        ⊎ ((s.exec_error ≡ timeout_text) × ((c ≡ pos 0) ⊎ (c ≡ negsuc 0)))
  clean_report c text r h ho he hr = by_told (exit_reported c r h)
    where
      by_told :
          ((told : Bool) × (given : List Bytes) × (s.exec_error ≡ concat given)
            × Perm given (
                told_texts told
                ++ (end_texts p.out_end ++ (end_texts p.err_end ++ wait_texts p.result)))
            × CodeFits (exit_of p.result) (coded told s.timer) c)
          → ((s.exec_error ≡ []) × CodeFits (pos 0) (coded false s.timer) c)
            ⊎ ((s.exec_error ≡ timeout_text) × ((c ≡ pos 0) ⊎ (c ≡ negsuc 0)))
      by_told (false, given, e, q, k) =
          inl (e ∙ ap concat (Perm-nil given (rw (ho, he, hr) at q)), (rw hr at k))
      by_told (true, given, e, q, k) = inr (
        e
            ∙ ap concat (Perm-singleton given timeout_text (rw (ho, he, hr) at q))
            ∙ append-nil timeout_text,
        ground (arith, (rw hr at k)),
      )

  -- A process exits with 0 and its pipes end with an end of file, and its runner hands the capture to
  -- the service: then both handlers answer with success, with all that was read from stdout, byte for
  -- byte, and with as many bytes of stderr as were read. Either the exit code is 0 and the error is
  -- empty; or the timeout is reported, the error is made of its text, and the exit code is 0 or -1; or
  -- the timer has set the exit code to -1 behind `done` and is in front of its send or at it, and the
  -- error is made of no text but that of stderr.
  pub clean_run_answered :
      (run : Runner) (settings : Settings) (code preload text : Bytes) (net : Bool) (c : ℤ)
      → Run p early n s
      → s.collector ≡ returned c
      → p.out_end ≡ eof
      → p.err_end ≡ eof
      → p.result ≡ exited (pos 0) text
      → check_options settings net ≡ none
      → run code (timeout_of settings) (allowed_preload settings preload) net
        ≡ collected (collected_of s c)
      → (body : RunCodeResponse) × (run_python3_code run settings code preload net
          ≡ success_response body)
        × (run_nodejs_code run settings code preload net ≡ success_response body)
        × (body.stdout ≡ concat p.out_chunks)
        × (length body.stderr ≡ length (concat p.err_chunks))
        × CleanAnswer s body
  unfolding run_code_response build_execution_error
  clean_run_answered run settings code preload text net c r h ho he hr ok ran = (
    run_code_response (collected_of s c),
    (handlers_answer run settings code preload net (collected_of s c) ok ran).0,
    (handlers_answer run settings code preload net (collected_of s c) ok ran).1,
    stdout_exact c r h,
    stderr_length c r h,
    by_report (clean_report c text r h ho he hr),
  )
    where
      by_report :
          ((s.exec_error ≡ []) × CodeFits (pos 0) (coded false s.timer) c)
            ⊎ ((s.exec_error ≡ timeout_text) × ((c ≡ pos 0) ⊎ (c ≡ negsuc 0)))
          → CleanAnswer s (run_code_response (collected_of s c))
      by_report (inl (e, inl z)) = inl (
        ap (build_execution_error c s.stderr) e ∙ ap (λ k. build_execution_error k s.stderr []) z,
        z,
      )
      by_report (inl (e, inr (z, late))) =
          inr (inr (ap (build_execution_error c s.stderr) e, z, late))
      by_report (inr (e, z)) = inr (inl (ap (build_execution_error c s.stderr) e, z))
