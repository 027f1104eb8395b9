-- ===== src/Capture/Progress.antt =====
-- As long as the collector has not returned, some goroutine can go on.
use dify_sandbox.Base.{
  ◌≡◌, ◌≢◌, ◌⊎◌, inl, inr, refl, sym, true, false, List, [], ◌∷◌, Bytes, arith, Bool-cases, ◌∙◌, ℤ,
}
use dify_sandbox.Capture.Phases.{Phases, signalled}
use dify_sandbox.Capture.{
  Process, OutPc, ErrPc, TimerPc, WaiterPc, waiting, reaping, hooking, signalling, stopping,
  finished, CollectorPc, selecting, copy_out, copy_err, copy_exec, answering, returned, System,
  Step, out_read, out_ended, out_send, out_report, err_read, err_ended, err_send, err_report,
  timer_report, wait_group, wait_process, wait_report, wait_hook, wait_done, write_out, write_err,
  write_exec, take_default, answer, NoSender,
}

-- A step from `s`, to some state.
abbrev pub Moves : Process → System → Type 0
Moves p s = (t : System) × Step p s t

-- Once `done` is sent, the readers and the waiting goroutine send nothing more.
no_sender :
    {s : System} (w : WaiterPc)
    → Phases s
    → s.waiter ≡ w
    → signalled w ≡ true
    → s.timer ≢ TimerPc.reporting
    → NoSender s
no_sender stopping v hw sg nt = record {
  no_out = λ c e. ground arith;
  no_out_error = λ c e. ground arith;
  no_err = λ c e. ground arith;
  no_err_error = λ c e. ground arith;
  no_timer = nt;
  no_waiter = λ c e. ground arith;
}
no_sender finished v hw sg nt = record {
  no_out = λ c e. ground arith;
  no_out_error = λ c e. ground arith;
  no_err = λ c e. ground arith;
  no_err_error = λ c e. ground arith;
  no_timer = nt;
  no_waiter = λ c e. ground arith;
}
no_sender _ v hw sg nt = cc

module _ {p : Process} {s : System} where
  out-Moves :
      (src : List Bytes) (pc : OutPc)
      → s.out_src ≡ src
      → s.out_pc ≡ pc
      → s.collector ≡ selecting
      → (pc ≡ OutPc.closed) ⊎ Moves p s
  out-Moves [] OutPc.reading hs hp k = inr (_, out_ended hp hs)
  out-Moves (c ∷ cs) OutPc.reading hs hp k = inr (_, out_read hp hs)
  out-Moves src (OutPc.sending c) hs hp k = inr (_, out_send hp k)
  out-Moves src (OutPc.reporting e) hs hp k = inr (_, out_report hp k)
  out-Moves src OutPc.closed hs hp k = inl refl

  err-Moves :
      (src : List Bytes) (pc : ErrPc)
      → s.err_src ≡ src
      → s.err_pc ≡ pc
      → s.collector ≡ selecting
      → (pc ≡ ErrPc.closed) ⊎ Moves p s
  err-Moves [] ErrPc.reading hs hp k = inr (_, err_ended hp hs)
  err-Moves (c ∷ cs) ErrPc.reading hs hp k = inr (_, err_read hp hs)
  err-Moves src (ErrPc.sending n) hs hp k = inr (_, err_send hp k)
  err-Moves src (ErrPc.reporting e) hs hp k = inr (_, err_report hp k)
  err-Moves src ErrPc.closed hs hp k = inl refl

  -- The wait group: one of the readers goes on, or both have ended.
  group-Moves : s.waiter ≡ waiting → s.collector ≡ selecting → Moves p s
  group-Moves w k = elim (out-Moves s.out_src s.out_pc refl refl k) [
    | inr m ↦ m
    | inl o ↦ elim (err-Moves s.err_src s.err_pc refl refl k) [
      | inr m ↦ m
      | inl e ↦ (_, wait_group w o e)
    ]
  ]

  -- In the inner loop the timer's function is the one sender that can be left.
  inner-Moves :
      (t : TimerPc)
      → Phases s
      → s.timer ≡ t
      → signalled s.waiter ≡ true
      → s.collector ≡ selecting
      → s.drained ≡ true
      → Moves p s
  inner-Moves TimerPc.reporting v ht sg k d = (_, timer_report ht k)
  inner-Moves t v ht sg k d = (_, take_default k d (no_sender s.waiter v refl sg (λ e. cc)))

  outer-Moves :
      (w : WaiterPc)
      → Phases s
      → s.waiter ≡ w
      → s.collector ≡ selecting
      → s.drained ≡ false
      → Moves p s
  outer-Moves waiting v hw k d = group-Moves hw k
  outer-Moves reaping v hw k d = (_, wait_process hw)
  outer-Moves (WaiterPc.reporting e) v hw k d = (_, wait_report hw k)
  outer-Moves hooking v hw k d = (_, wait_hook hw)
  outer-Moves signalling v hw k d = (_, wait_done hw k d)
  outer-Moves stopping v hw k d = absurd (ground arith)
  outer-Moves finished v hw k d = absurd (ground arith)

  select-Moves : Phases s → s.collector ≡ selecting → Moves p s
  select-Moves v k = elim (Bool-cases s.drained) [
    | inl d ↦ inner-Moves s.timer v refl (sym v.done_sent ∙ d) k d
    | inr d ↦ outer-Moves s.waiter v refl k d
  ]

  Moves-at :
      (k : CollectorPc) → Phases s → s.collector ≡ k → ((c : ℤ) × (k ≡ returned c)) ⊎ Moves p s
  Moves-at selecting v h = inr (select-Moves v h)
  Moves-at (copy_out c) v h = inr (_, write_out h)
  Moves-at (copy_err n) v h = inr (_, write_err h)
  Moves-at (copy_exec e) v h = inr (_, write_exec h)
  Moves-at answering v h = inr (_, answer h)
  Moves-at (returned c) v h = inl (c, refl)

  pub returned_or_Moves : Phases s → ((c : ℤ) × (s.collector ≡ returned c)) ⊎ Moves p s
  returned_or_Moves v = Moves-at s.collector v refl
