-- ===== src/Tests/Capture.antt =====
-- The capture of a process that writes `hi` to stdout and `e` to stderr and exits with 0.
use dify_sandbox.Base.{length, ◌≡◌, ◌≤◌, ◌⊎◌, refl, ℤ, pos, true, false, [], ◌∷◌, codes, arith}
use mathlib.Core.List.{Perm}
use dify_sandbox.Base.{negsuc, List, Bytes, Bool, ◌++◌, concat}
use dify_sandbox.Capture.Texts.{told_texts, end_texts, wait_texts}
use dify_sandbox.Capture.Clock.{CodeFits, coded, exit_reported}
use dify_sandbox.Service.{
  Settings, Runner, collected, check_options, RunCodeResponse, run_python3_code, run_nodejs_code,
  success_response,
}
use dify_sandbox.Service.Captured.{collected_of, CleanAnswer, clean_run_answered}
use dify_sandbox.Capture.{
  Process, eof, exited, System, Run, start, next, armed, answering, returned, out_read, out_send,
  write_out, err_read, err_send, write_err, out_ended, err_ended, wait_group, wait_process,
  wait_hook, wait_done, stop_late, take_default, answer,
}
use dify_sandbox.Capture.Progress.{Moves}
use dify_sandbox.Capture.Outcome.{stdout_exact, capture_answers}
use dify_sandbox.Capture.Race.{
  SettledRun, settled_start, settled_next, stderr_exact_if_settled, stderr_race, two_chunks,
  timer_too_late, Later, IsStuck,
}

abbrev greeting : Process
greeting = record {
  out_chunks = codes "hi" ∷ [];
  out_fits = (omega arith, tt);
  out_end = eof;
  err_chunks = codes "e" ∷ [];
  err_fits = (omega arith, tt);
  err_end = eof;
  result = exited (pos 0) [];
}

-- The timer has fired before the process was there.
abbrev greeted : (s : System) × SettledRun greeting true 15 s × (s.collector ≡ returned (pos 0))
greeted = (
  _,
  settled_next
      (settled_next
        (settled_next
          (settled_next
            (settled_next
              (settled_next
                (settled_next
                  (settled_next
                    (settled_next
                      (settled_next
                        (settled_next
                          (settled_next
                            (settled_next
                              (settled_next (settled_next settled_start (out_read refl refl) tt)
                                (out_send refl refl) tt)
                              (write_out refl) tt)
                            (err_read refl refl) (λ n e. cc))
                          (err_send refl refl) tt)
                        (write_err refl) tt)
                      (out_ended refl refl) tt)
                    (err_ended refl refl) tt)
                  (wait_group refl refl refl) tt)
                (wait_process refl) tt)
              (wait_hook refl) tt)
            (wait_done refl refl refl) tt)
          (stop_late refl (λ e. cc)) tt)
        (take_default refl refl (ground arith)) tt)
      (answer refl) tt,
  refl,
)

-- The timer is still armed when the collector is about to return.
abbrev almost_greeted :
    (s : System) × Run greeting false 13 s × (s.collector ≡ answering) × (s.timer ≡ armed)
almost_greeted = (
  _,
  next
      (next
        (next
          (next
            (next
              (next
                (next
                  (next
                    (next
                      (next
                        (next (next (next start (err_read refl refl)) (out_read refl refl))
                          (err_send refl refl))
                        (write_err refl))
                      (out_send refl refl))
                    (write_out refl))
                  (out_ended refl refl))
                (err_ended refl refl))
              (wait_group refl refl refl))
            (wait_process refl))
          (wait_hook refl))
        (wait_done refl refl refl))
      (take_default refl refl (ground arith)),
  refl,
  refl,
)

-- It is armed, too, when the collector returns.
abbrev greeted_early : (s : System) × Run greeting false 14 s × (s.collector ≡ returned (pos 0))
greeted_early = (_, next almost_greeted.1 (answer almost_greeted.2), refl)

timer_too_late_example :
    (t : System) × Run greeting false 17 t
    × (t.collector ≡ returned (negsuc 0))
    × (t.exec_error ≡ [])
    × (t.stdout ≡ codes "hi")
    × ((u : System) → Later greeting t u → IsStuck u)
timer_too_late_example = timer_too_late almost_greeted.1 almost_greeted.2 almost_greeted.3

stdout_exact_example : greeted_early.0.stdout ≡ codes "hi"
stdout_exact_example = stdout_exact (pos 0) greeted_early.1 greeted_early.2

capture_answers_example :
    (14 ≤ 27)
    × (((c : ℤ) × (greeted_early.0.collector ≡ returned c)) ⊎ Moves greeting greeted_early.0)
capture_answers_example = capture_answers greeted_early.1

stderr_exact_if_settled_example : greeted.0.stderr ≡ codes "e"
stderr_exact_if_settled_example = stderr_exact_if_settled (pos 0) greeted.1 greeted.2

stderr_race_example :
    (s : System) × Run (two_chunks (codes "ab") (codes "cd") (omega arith) (omega arith)) true 15 s
    × (s.collector ≡ returned (pos 0))
    × (s.stderr ≡ codes "cdcd")
stderr_race_example = stderr_race (codes "ab") (codes "cd") (omega arith) (omega arith) refl

exit_reported_example :
    (told : Bool) × (given : List Bytes) × (greeted_early.0.exec_error ≡ concat given)
    × Perm given
        (told_texts told ++ (end_texts eof ++ (end_texts eof ++ wait_texts (exited (pos 0) []))))
    × CodeFits (pos 0) (coded told armed) (pos 0)
exit_reported_example = exit_reported (pos 0) greeted_early.1 greeted_early.2

abbrev online : Settings
online = record { network_enabled = true; preload_enabled = true; worker_timeout = pos 5 }

-- A runner that hands over the capture of the greeting.
abbrev greets : Runner
greets code timeout preload net = collected (collected_of greeted_early.0 (pos 0))

clean_run_answered_example :
    (body : RunCodeResponse) × (run_python3_code greets online (codes "x") [] true
      ≡ success_response body)
    × (run_nodejs_code greets online (codes "x") [] true ≡ success_response body)
    × (body.stdout ≡ codes "hi")
    × (length body.stderr ≡ 1)
    × CleanAnswer greeted_early.0 body
unfolding check_options
clean_run_answered_example =
    clean_run_answered greets online (codes "x") [] [] true (pos 0) greeted_early.1 greeted_early.2
      refl refl refl refl refl
