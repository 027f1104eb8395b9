-- ===== src/Capture/Report.antt =====
-- What the collector has of the error channel.
use mathlib.Core.List.{Perm, perm_middle, perm_append_singleton}
use mathlib.Core.List.Perm
use dify_sandbox.Base.{
  ◌≡◌, sym, ap, ◌∙◌, subst, Bool, true, false, List, [], ◌∷◌, ◌++◌, append-nil, append_assoc, Bytes,
  concat, arith,
}
use dify_sandbox.Capture.{
  Process, TimerPc, armed, fired, stored, killing, ended, CollectorPc, copy_exec, returned, System,
  Step, out_read, out_ended, out_send, out_report, err_read, err_ended, err_send, err_report,
  timer_fire, timer_code, timer_sends, timer_report, timer_kill, wait_group, wait_process,
  wait_report, wait_hook, wait_done, stop_timer, stop_late, write_out, write_err, write_exec,
  take_default, answer, timeout_text,
}
use dify_sandbox.Capture.Texts.{
  out_texts, err_texts, waiter_texts, told_texts, texts, Says, out_after-OutSays, err_after-ErrSays,
  after-WaiterSays,
}

abbrev pub copying : CollectorPc → Bytes
copying (copy_exec e) = e
copying _ = []

abbrev pub exec_trail : System → Bytes
exec_trail s = s.exec_error ++ copying s.collector

-- The error channel has delivered these texts in some order, where `told` says that the timeout is
-- among them.
pub record Delivered (p : Process) (told : Bool) (s : System) : Type 0 where
  pub given : List Bytes
  pub same : exec_trail s ≡ concat given
  pub perm : Perm given (texts p told s)

module _ {p : Process} {s t : System} where
  kept :
      {told : Bool}
      → exec_trail t ≡ exec_trail s
      → texts p told t ≡ texts p told s
      → Delivered p told s
      → Delivered p told t
  kept {told} e f v = record {
    given = v.given;
    same = e ∙ v.same;
    perm = subst (Perm v.given) (sym f) v.perm;
  }

  grown :
      {told told' : Bool} (x : Bytes) (front back : List Bytes)
      → texts p told s ≡ front ++ back
      → texts p told' t ≡ front ++ (x ∷ back)
      → exec_trail t ≡ exec_trail s ++ x
      → Delivered p told s
      → Delivered p told' t
  grown x front back before after e v = record {
    given = v.given ++ (x ∷ []);
    same = e ∙ ap (λ bs. bs ++ x) v.same ∙ sym (concat-snoc v.given x);
    perm = subst (Perm (v.given ++ (x ∷ []))) (sym after) (
        Perm.trans (perm_append_singleton x v.given) (
          Perm.trans (Perm.cons x (subst (Perm v.given) before v.perm))
            (Perm.symm (perm_middle front back))));
  }
    where
      concat-snoc : (xs : List Bytes) (y : Bytes) → concat (xs ++ (y ∷ [])) ≡ concat xs ++ y
      concat-snoc [] y = append-nil y
      concat-snoc (z ∷ xs) y =
          ap (λ bs. z ++ bs) (concat-snoc xs y) ∙ sym (append_assoc z (concat xs) y)

-- Until the collector has returned, the timeout is told between the report of the timer and its end.
abbrev pub Agrees : Bool → TimerPc → CollectorPc → Type 0
Agrees told timer (returned c) = Unit
Agrees told armed _ = told ≡ false
Agrees told fired _ = told ≡ false
Agrees told stored _ = told ≡ false
Agrees told TimerPc.reporting _ = told ≡ false
Agrees told killing _ = told ≡ true
Agrees told ended _ = Unit

abbrev pub told_after : {p : Process} {s t : System} → Step p s t → Bool → Bool
told_after (timer_report a b) told = true
told_after _ told = told

pub Step-Delivered :
    {p : Process} {told : Bool} {s t : System} (st : Step p s t)
    → Agrees told s.timer s.collector
    → Says p s
    → Delivered p told s
    → Delivered p (told_after st told) t
Step-Delivered (out_read a b) n w v = kept (ground arith) (ground arith) v
Step-Delivered {p} (out_ended a b) n w v =
    kept (ground arith) (ground (arith, out_after-OutSays p.out_end)) v
Step-Delivered (out_send a b) n w v = kept (ground arith) (ground arith) v
Step-Delivered {p} {told} {s} (out_report {e = e} a b) n w v =
    grown e (told_texts told) (err_texts p.err_end s.err_pc ++ waiter_texts p.result s.waiter)
      (ground arith) (ground arith) (ground (arith, append-nil s.exec_error)) v
Step-Delivered (err_read a b) n w v = kept (ground arith) (ground arith) v
Step-Delivered {p} (err_ended a b) n w v =
    kept (ground arith) (ground (arith, err_after-ErrSays p.err_end)) v
Step-Delivered (err_send a b) n w v = kept (ground arith) (ground arith) v
Step-Delivered {p} {told} {s} (err_report {e = e} a b) n w v =
    let out = out_texts p.out_end s.out_pc in
    grown e (told_texts told ++ out) (waiter_texts p.result s.waiter)
      (ground (arith, append_assoc (told_texts told) out (waiter_texts p.result s.waiter)))
      (ground (arith, append_assoc (told_texts told) out (e ∷ waiter_texts p.result s.waiter)))
      (ground (arith, append-nil s.exec_error)) v
Step-Delivered (timer_fire a) n w v = kept (ground arith) (ground arith) v
Step-Delivered (timer_code a) n w v = kept (ground arith) (ground arith) v
Step-Delivered (timer_sends a) n w v = kept (ground arith) (ground arith) v
Step-Delivered {p} {told} {s} (timer_report a b) n w v =
    grown timeout_text []
      (out_texts p.out_end s.out_pc
        ++ (err_texts p.err_end s.err_pc ++ waiter_texts p.result s.waiter))
      (ground (arith, n)) (ground arith) (ground (arith, append-nil s.exec_error)) v
Step-Delivered (timer_kill a) n w v = kept (ground arith) (ground arith) v
Step-Delivered (wait_group a b c) n w v = kept (ground arith) (ground arith) v
Step-Delivered {p} (wait_process a) n w v =
    kept (ground arith) (ground (arith, after-WaiterSays p.result)) v
Step-Delivered {p} {told} {s} (wait_report {e = e} a b) n w v =
    let out = out_texts p.out_end s.out_pc in
    let err = err_texts p.err_end s.err_pc in
    grown e (told_texts told ++ (out ++ err)) []
      (ground (arith, append_assoc (told_texts told) (out ++ err) [], append_assoc out err []))
      (ground (
        arith,
        append_assoc (told_texts told) (out ++ err) (e ∷ []),
        append_assoc out err (e ∷ []),
      ))
      (ground (arith, append-nil s.exec_error)) v
Step-Delivered (wait_hook a) n w v = kept (ground arith) (ground arith) v
Step-Delivered (wait_done a b c) n w v = kept (ground arith) (ground arith) v
Step-Delivered (stop_timer a b) n w v = kept (ground arith) (ground arith) v
Step-Delivered (stop_late a b) n w v = kept (ground arith) (ground arith) v
Step-Delivered (write_out a) n w v = kept (ground arith) (ground arith) v
Step-Delivered (write_err a) n w v = kept (ground arith) (ground arith) v
Step-Delivered {s = s} (write_exec {e = e} a) n w v =
    kept (ground (arith, append-nil (s.exec_error ++ e))) (ground arith) v
Step-Delivered (take_default a b c) n w v = kept (ground arith) (ground arith) v
Step-Delivered (answer a) n w v = kept (ground arith) (ground arith) v
