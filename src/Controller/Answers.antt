-- ===== src/Controller/Answers.antt =====
-- Which answers a client can get.
use dify_sandbox.Base.{
  ℤ, leb_ℤ, ◌≡◌, ◌≢◌, refl, ◌⊎◌, inl, inr, negsuc, true, false, none, some, Bytes, codes, eqb,
  eqb_iff, eqb→eq, arith, Bool-cases,
}
use dify_sandbox.Service.{Response, Settings, Runner}
use dify_sandbox.Service.Handlers.{IsAnswer}
use dify_sandbox.Controller.{RunRequest, Http, run_by_language}

-- An answer of a handler: a well-formed response with status 200, or -400 with status 400.
abbrev pub Handled : {D : Type 0} → Http D → Type 0
Handled {D = D} (n, body) =
    (r : Response D) × (body ≡ some r)
    × ((n ≡ 200) × IsAnswer r ⊎ (n ≡ 400) × (r.code ≡ negsuc 399))

-- What `MaxRequest` answers above its limit.
abbrev Turned : {D : Type 0} → Http D → Type 0
Turned {D = D} (n, body) = (n ≡ 503) × ((r : Response D) × (body ≡ some r) × (r.code ≡ negsuc 502))

-- An answer behind `Auth` and `MaxRequest`.
abbrev pub Admitted : {D : Type 0} → Bytes → Bytes → ℤ → ℤ → Http D → Type 0
Admitted key header max current answer =
    ((key ≢ header) × (answer ≡ (401, none)))
    ⊎ ((key ≡ header) × (leb_ℤ max current ≡ true) × Turned answer)
    ⊎ ((key ≡ header) × (leb_ℤ max current ≡ false) × Handled answer)

-- The language decides which runner is asked, and only that one: for a request that binds, with
-- the language python3 the answer is the same for all Node.js runners, with nodejs for all Python
-- runners, and with any other language for all of both.
run_asks_one :
    (p p' n n' : Runner) (s : Settings) (req : RunRequest)
    → ((req.language ≡ codes "python3") × (run_by_language p n s req ≡ run_by_language p n' s req))
      ⊎ ((req.language ≡ codes "nodejs") × (run_by_language p n s req ≡ run_by_language p' n s req))
      ⊎ ((req.language ≢ codes "python3")
          × (req.language ≢ codes "nodejs")
          × (run_by_language p n s req ≡ run_by_language p' n' s req))
unfolding run_by_language
run_asks_one p p' n n' s req = elim (Bool-cases (eqb req.language (codes "python3"))) [
  | inl e ↦ inl (eqb→eq req.language _ e, rw e refl)
  | inr e ↦ elim (Bool-cases (eqb req.language (codes "nodejs"))) [
    | inl k ↦ inr (inl (eqb→eq req.language _ k, rw (e, k) refl))
    | inr k ↦ inr (
        inr (
          λ q. ground (arith, e, eqb_iff req.language (codes "python3")),
          λ q. ground (arith, k, eqb_iff req.language (codes "nodejs")),
          rw (e, k) refl,
        ))
  ]
]
