-- ===== src/Service/ErrorText.antt =====
-- What the error of a response says.
use dify_sandbox.Base.{
  ◌≡◌, ◌≢◌, refl, sym, ap, ◌∙◌, ℤ, pos, eqb_ℤ, false, not, ◌&&◌, [], ◌∷◌, ◌++◌, append_assoc,
  append-nil, Bytes, codes, length, ltb, eqb, eqb-nil, arith, Bool-cases, inl, inr, ◌⊎◌,
}
use dify_sandbox.Text.Decimal.{itoa}
use dify_sandbox.Text.Search.{ends_with}
use dify_sandbox.Service.{append_detail, build_execution_error, Collected, run_code_response}

-- A detail is added whole, behind what was there and at most one newline.
append_detail_split :
    (b d : Bytes)
    → (sep : Bytes) × ((sep ≡ []) ⊎ (sep ≡ 10 ∷ [])) × (append_detail b d ≡ b ++ (sep ++ d))
unfolding append_detail
append_detail_split b [] = ([], inl refl, unfold eqb in sym (append-nil b))
append_detail_split b (c ∷ d) = elim (Bool-cases (ltb 0 (length b) && not (ends_with b 10))) [
  | inl e ↦ (10 ∷ [], inr refl, rw (eqb-nil (c ∷ d) (λ q. cc), e, append_assoc) refl)
  | inr e ↦ ([], inl refl, rw (eqb-nil (c ∷ d) (λ q. cc), e) refl)
]

abbrev pub exit_text : ℤ → Bytes
exit_text code = codes "process exited with code " ++ itoa code

build_parts :
    (code : ℤ) (stderr exec : Bytes)
    → eqb_ℤ code (pos 0) ≡ false
    → build_execution_error code stderr exec
      ≡ append_detail (append_detail (exit_text code) exec) stderr
unfolding build_execution_error
build_parts code stderr exec h = ground arith

error_of_failure :
    (c : Collected)
    → eqb_ℤ c.exit_code (pos 0) ≡ false
    → (s t : Bytes) × ((s ≡ []) ⊎ (s ≡ 10 ∷ []))
      × ((t ≡ []) ⊎ (t ≡ 10 ∷ []))
      × (build_execution_error c.exit_code c.err c.exec_error
          ≡ exit_text c.exit_code ++ (s ++ (c.exec_error ++ (t ++ c.err))))
error_of_failure c h =
    let (s, hs, es) = append_detail_split (exit_text c.exit_code) c.exec_error in
    let (t, ht, et) =
      append_detail_split (append_detail (exit_text c.exit_code) c.exec_error) c.err in
    (
      s,
      t,
      hs,
      ht,
      build_parts c.exit_code c.err c.exec_error h
          ∙ et
          ∙ ap (λ b. b ++ (t ++ c.err)) es
          ∙ append_assoc (exit_text c.exit_code) (s ++ c.exec_error) (t ++ c.err)
          ∙ ap (λ b. exit_text c.exit_code ++ b) (append_assoc s c.exec_error (t ++ c.err)),
    )

-- A process that exits with 0 has the execution error alone, whatever it wrote to stderr. Any
-- other exit code is named first, and behind it stand the whole execution error and the whole
-- stderr, in this order, each behind at most one newline.
run_code_response_lem :
    (c : Collected)
    → ((c.exit_code ≡ pos 0) × ((run_code_response c).error ≡ c.exec_error))
      ⊎ ((c.exit_code ≢ pos 0)
          × (s t : Bytes) × ((s ≡ []) ⊎ (s ≡ 10 ∷ []))
          × ((t ≡ []) ⊎ (t ≡ 10 ∷ []))
          × ((run_code_response c).error
              ≡ exit_text c.exit_code ++ (s ++ (c.exec_error ++ (t ++ c.err)))))
unfolding run_code_response
run_code_response_lem c = elim (Bool-cases (eqb_ℤ c.exit_code (pos 0))) [
  | inl e ↦ inl (ground arith, ground arith)
  | inr e ↦
      let (s, t, hs, ht, text) = error_of_failure c e in inr (ground arith, s, t, hs, ht, text)
]
