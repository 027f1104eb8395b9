-- ===== src/Serving/Workers.antt =====
-- The workers and the identifiers of the pool.
use mathlib.Core.List.{Mem}
use mathlib.Core.List.Perm
use dify_sandbox.Base.{
  ℕ, ◌-◌, ◌≤◌, ◌<◌, ◌≡◌, refl, ap, ℤ, Bool, false, List, [], ◌∷◌, ◌++◌, ◌+◌, length, length-append,
  length-Perm, map, arith,
}
use dify_sandbox.Middleware.Limits.{at_work, total}
use dify_sandbox.Middleware.Requests as Requests
use dify_sandbox.UidPool.{UidPool, uid, waits, acquire, len}
use dify_sandbox.UidPool.Ownership as Ownership
use dify_sandbox.Serving.{
  Job, starting, using, executing, exited, Service, Reach, pc_of, held, taken,
}
use dify_sandbox.Serving.Holders.{Reach-Holders}
use dify_sandbox.Serving.Parts.{Reach-limits}

-- A request that holds an identifier runs.
held-le-at_work : (js : List Job) → length (held js) ≤ total at_work (map pc_of js)
unfolding total
held-le-at_work [] = omega arith
held-le-at_work (using u ∷ js) = omega (arith, held-le-at_work js)
held-le-at_work (executing u ∷ js) = omega (arith, held-le-at_work js)
held-le-at_work (exited u ∷ js) = omega (arith, held-le-at_work js)
held-le-at_work (j ∷ js) = omega (arith, held-le-at_work js)

-- One that is about to acquire runs, and holds none.
starts :
    (before after : List Job)
    → length (held (before ++ (starting ∷ after)))
      < total at_work (map pc_of (before ++ (starting ∷ after)))
unfolding total
starts [] after = omega (arith, held-le-at_work after)
starts (using u ∷ js) after = omega (arith, starts js after)
starts (executing u ∷ js) after = omega (arith, starts js after)
starts (exited u ∷ js) after = omega (arith, starts js after)
starts (j ∷ js) after = omega (arith, starts js after)

free_at :
    (choice : Bool) (p : UidPool) (us : List ℕ)
    → p.pool ≡ us
    → 0 < length us
    → (u : ℕ) × (q : UidPool) × (acquire false choice p ≡ (uid u, q))
unfolding acquire
free_at choice p [] e h = absurd (omega arith)
free_at choice p (u ∷ us) e h = (u, record p { pool = us }, ground arith)

module _ {r : ℤ} {w min max : ℕ} {s : Service} (reach : Reach r w min max s)
    (few : w + length s.lost ≤ max - min) where
  -- The pool is not empty where a request is about to acquire.
  some_free :
      (before after : List Job) → s.jobs ≡ before ++ (starting ∷ after) → 0 < length s.pool.pool
  unfolding len
  some_free before after e =
      let h = Reach-Holders reach in
      let (_, limit, _) = Requests.limits_hold (Reach-limits reach) in
      omega (
        arith,
        Ownership.len-held h.reach,
        length-Perm h.same,
        length-append (held s.jobs) s.lost,
        ap (λ js. length (held js)) e,
        ap (λ js. total at_work (map pc_of js)) e,
        starts before after,
      )

  -- However the requests interleave, and whichever runs panic, as long as the workers are no more
  -- than the identifiers that no panic has lost, a request that comes to `AcquireUID` with a context
  -- that is not cancelled never waits there: it gets an identifier of the range that no other
  -- request holds and no panic has lost.
  pub uid_for_each_worker :
      (choice : Bool) (before after : List Job)
      → s.jobs ≡ before ++ (starting ∷ after)
      → (u : ℕ) × (p : UidPool) × (acquire false choice s.pool ≡ (uid u, p))
        × (min ≤ u)
        × (u < max)
        × (¬ Mem u (taken s))
  uid_for_each_worker choice before after e =
      let (u, p, a) = free_at choice s.pool s.pool.pool refl (some_free before after e) in
      let h = Reach-Holders reach in
      let (lo, hi, new) = Ownership.acquire_exclusive h.reach u p false choice a in
      (u, p, a, lo, hi, λ m. new (Perm.subset (Perm.symm h.same) u m))

waits_at :
    (choice : Bool) (p : UidPool) (us : List ℕ)
    → p.pool ≡ us
    → length us ≡ 0
    → acquire false choice p ≡ (waits, p)
unfolding acquire
waits_at choice p [] e h = ground arith
waits_at choice p (u ∷ us) e h = absurd (omega arith)

-- Once panics have lost as many identifiers as the range has, each request that comes to `AcquireUID`
-- with a context that is not cancelled waits there.
all_lost_waits :
    {r : ℤ} {w min max : ℕ} {s : Service} (choice : Bool)
    → Reach r w min max s
    → max - min ≤ length s.lost
    → acquire false choice s.pool ≡ (waits, s.pool)
unfolding len
all_lost_waits {s = s} choice reach all =
    let h = Reach-Holders reach in
    waits_at choice s.pool s.pool.pool refl (
      omega
        (arith, Ownership.len-held h.reach, length-Perm h.same, length-append (held s.jobs) s.lost))
