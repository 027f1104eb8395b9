-- ===== src/Middleware/Limits.antt =====
-- The limits on requests and workers hold for every interleaving.
use dify_sandbox.Base.{
  ℕ, ◌+◌, ◌≤◌, ◌≡◌, refl, ap, ℤ, pos, pos_part, true, false, List, [], ◌∷◌, ◌++◌, arith,
}
use dify_sandbox.Middleware.{
  try_acquire, release, Pc, arriving, admitted, running, leaving, answered, refused, System, Step,
  arrive, refuse, admit, work, finish, leave,
}

-- Between `tryAcquire` and `release`.
abbrev pub in_flight : Pc → ℕ
in_flight admitted = 1
in_flight running = 1
in_flight leaving = 1
in_flight _ = 0

abbrev pub at_work : Pc → ℕ
at_work running = 1
at_work _ = 0

unfoldable pub total : (Pc → ℕ) → List Pc → ℕ
total w [] = 0
total w (x ∷ xs) = w x + total w xs

pub total-middle :
    (w : Pc → ℕ) (before after : List Pc) (x : Pc)
    → total w (before ++ (x ∷ after)) ≡ w x + total w (before ++ after)
unfolding total
total-middle w [] after x = refl
total-middle w (y ∷ before) after x = omega (arith, total-middle w before after x)

pub record Inv (s : System) : Type 0 where
  pub counted : s.current ≡ pos (total in_flight s.requests)
  pub within : total in_flight s.requests ≤ pos_part s.max_requests
  pub occupied : s.sem ≡ total at_work s.requests
  pub workers : s.sem ≤ s.max_workers

-- What a step does to the totals: one request moves from `x` to `y`.
moved :
    (w : Pc → ℕ) (s : System) (before after : List Pc) (x y : Pc)
    → s.requests ≡ before ++ (x ∷ after)
    → total w (before ++ (y ∷ after)) + w x ≡ total w s.requests + w y
moved w s before after x y h =
    omega (arith, ap (total w) h, total-middle w before after x, total-middle w before after y)

module _ {s : System} (v : Inv s) where
  refuse-Inv :
      {current : ℤ} (before after : List Pc)
      → s.requests ≡ before ++ (arriving ∷ after)
      → try_acquire s.max_requests s.current ≡ (false, current)
      → Inv (record s { current = current; requests = before ++ (refused ∷ after) })
  unfolding try_acquire
  refuse-Inv before after h e = ground (
    arith,
    moved in_flight s before after arriving refused h,
    moved at_work s before after arriving refused h,
  )

  admit-Inv :
      {current : ℤ} (before after : List Pc)
      → s.requests ≡ before ++ (arriving ∷ after)
      → try_acquire s.max_requests s.current ≡ (true, current)
      → Inv (record s { current = current; requests = before ++ (admitted ∷ after) })
  unfolding try_acquire
  admit-Inv before after h e = ground (
    arith,
    moved in_flight s before after arriving admitted h,
    moved at_work s before after arriving admitted h,
  )

-- Every step of every request keeps the counters and the limits.
pub Step-Inv : {s t : System} → Step s t → Inv s → Inv t
Step-Inv {s} arrive v = unfold total in ground arith
Step-Inv (refuse before after h e) v = refuse-Inv v before after h e
Step-Inv (admit before after h e) v = admit-Inv v before after h e
Step-Inv {s} (work before after h e) v = ground (
  arith,
  moved in_flight s before after admitted running h,
  moved at_work s before after admitted running h,
)
Step-Inv {s} (finish before after h e) v = ground (
  arith,
  moved in_flight s before after running leaving h,
  moved at_work s before after running leaving h,
)
Step-Inv {s} (leave before after h) v =
    unfold release in
    ground (
      arith,
      moved in_flight s before after leaving answered h,
      moved at_work s before after leaving answered h,
    )
