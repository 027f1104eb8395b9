-- ===== src/Service/Handlers.antt =====
-- What the run handlers answer.
use dify_sandbox.Base.{
  ℕ, ◌≡◌, ◌≢◌, refl, pos, negsuc, Bool, true, false, Option, none, some, Bytes, arith, ◌⊎◌, inl,
  inr,
}
use dify_sandbox.Service.{
  Response, error_response, Settings, check_options, err_network_disabled, timeout_of, Ran, Runner,
  run_python3_code, run_nodejs_code, python_answer, nodejs_answer, allowed_preload, collected,
  pool_exhausted, failed,
}

-- A request for the network is refused with -400 where the network is disabled, whatever the
-- runner is.
network_refused :
    (r : Runner) (s : Settings) (code preload : Bytes)
    → s.network_enabled ≡ false
    → (run_python3_code r s code preload true ≡ error_response (negsuc 399) err_network_disabled)
      × (run_nodejs_code r s code preload true ≡ error_response (negsuc 399) err_network_disabled)
unfolding run_python3_code run_nodejs_code
network_refused r s code preload h = ground arith

-- Where preloading is disabled, the answers of both run handlers are the same for all preloads.
preload_ignored :
    (r : Runner) (s : Settings) (code p q : Bytes) (net : Bool)
    → s.preload_enabled ≡ false
    → (run_python3_code r s code p net ≡ run_python3_code r s code q net)
      × (run_nodejs_code r s code p net ≡ run_nodejs_code r s code q net)
unfolding run_python3_code run_nodejs_code
preload_ignored r s code p q net h = (ground arith, ground arith)

-- A response whose code is 0 has data and the message of success; any other has a negative code
-- and no data.
abbrev pub IsAnswer : {D : Type 0} → Response D → Type 0
IsAnswer r =
    ((r.code ≡ pos 0) × (r.body ≢ none)) ⊎ (((n : ℕ) × (r.code ≡ negsuc n)) × (r.body ≡ none))

-- Every answer of the two run handlers has the code 0 and data, or a negative code and no data.
pub run-IsAnswer :
    (r : Runner) (s : Settings) (code preload : Bytes) (net : Bool)
    → IsAnswer (run_python3_code r s code preload net)
      × IsAnswer (run_nodejs_code r s code preload net)
unfolding run_python3_code run_nodejs_code
run-IsAnswer r s code preload net =
    answers (check_options s net) (r code (timeout_of s) (allowed_preload s preload) net)
  where
    answers :
        (c : Option Bytes) (ran : Ran)
        → IsAnswer (elim c [ some e ↦ error_response (negsuc 399) e | none ↦ python_answer ran ])
          × IsAnswer (elim c [ some e ↦ error_response (negsuc 399) e | none ↦ nodejs_answer ran ])
    answers (some e) ran = (inr ((399, refl), refl), inr ((399, refl), refl))
    answers none (collected c) = (inl (refl, λ q. cc), inl (refl, λ q. cc))
    answers none (pool_exhausted e) = (inr ((428, refl), refl), inr ((499, refl), refl))
    answers none (failed e) = (inr ((499, refl), refl), inr ((499, refl), refl))

-- Where the options of a request are accepted and the runner reports that the pool is exhausted,
-- the answer has the code -429 for Python and -500 for Node.js.
exhausted_codes :
    (r : Runner) (s : Settings) (code preload e : Bytes) (net : Bool)
    → check_options s net ≡ none
    → r code (timeout_of s) (allowed_preload s preload) net ≡ pool_exhausted e
    → ((run_python3_code r s code preload net).code ≡ negsuc 428)
      × ((run_nodejs_code r s code preload net).code ≡ negsuc 499)
unfolding run_python3_code run_nodejs_code
exhausted_codes r s code preload e net h k = (ground arith, ground arith)
