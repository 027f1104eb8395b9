-- ===== src/Service/Timeouts.antt =====
-- How long a run may take.
use dify_sandbox.Base.{
  ℕ, ◌*◌, ◌%◌, ◌^◌, ◌≤◌, ◌<◌, ◌≡◌, ◌↔◌, pos, arith, refl, sym, ap, ◌∙◌, ◌⊎◌, inl, inr,
}
use dify_sandbox.Service.{Settings, signed, timeout_of, capture_timeout}

capture_signed :
    (r m : ℕ)
    → capture_timeout (signed r) ≡ pos m
    → ((r ≡ m) × (1 ≤ m) × (m < 2 ^ 63)) ⊎ ((m ≡ 5_000_000_000) × (r ≡ 0))
capture_signed r m h = ground arith

capture_small : (r m : ℕ) → 1 ≤ m → m < 2 ^ 63 → r ≡ m → capture_timeout (signed r) ≡ pos m
capture_small r m lo hi e = ground arith

timeout_product :
    (s : Settings) (t : ℕ)
    → s.worker_timeout ≡ pos t
    → t < 2 ^ 63
    → (r : ℕ) × (timeout_of s ≡ signed r) × (r ≡ t * 1_000_000_000 % 2 ^ 64)
unfolding timeout_of
timeout_product s t e h = (t % 2 ^ 64 * 1_000_000_000 % 2 ^ 64, rw e refl, omega arith)

-- Where `WorkerTimeout` is not negative, a run is given as many seconds as it says exactly if
-- these are at least 1 and at most 9223372036; 0 is no such number, and above, the product with
-- the length of a second does not fit an `int`.
pub timeout_exact :
    (s : Settings) (t : ℕ)
    → s.worker_timeout ≡ pos t
    → t < 2 ^ 63
    → (capture_timeout (timeout_of s) ≡ pos (t * 1_000_000_000)) ↔ ((1 ≤ t) × (t ≤ 9_223_372_036))
timeout_exact s t e h =
    let (r, er, product) = timeout_product s t e h in
    (
      λ given. elim (capture_signed r (t * 1_000_000_000) (sym (ap capture_timeout er) ∙ given)) [
        | inl (same, lo, hi) ↦ omega arith
        | inr (five, none_left) ↦ absurd (omega arith)
      ],
      λ bounds.
          ap capture_timeout er
          ∙ capture_small r (t * 1_000_000_000) (omega (arith, bounds)) (omega (arith, bounds))
              (omega (arith, bounds, product)),
    )
