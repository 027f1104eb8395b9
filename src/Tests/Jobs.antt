-- ===== src/Tests/Jobs.antt =====
-- Two requests on their way, with two workers and the identifiers 7, 8 and 9.
use mathlib.Core.List.{Mem, Perm, Nodup}
use dify_sandbox.Base.{
  ◌-◌, ◌*◌, ℕ, ◌≡◌, ◌≤◌, ◌<◌, refl, true, false, List, [], ◌∷◌, range_from, pos, arith,
}
use dify_sandbox.Middleware.{try_acquire}
use dify_sandbox.UidPool.{UidPool, uid, new_uid_pool, acquire}
use dify_sandbox.Serving.{
  executing, starts_child, init, starting, using, Service, arrive, admit, work, acquires, Reach,
  start, next,
}
use dify_sandbox.Serving.Workers.{uid_for_each_worker}
use dify_sandbox.Serving.Progress.{Served}
use dify_sandbox.Serving.Isolation.{owned, children_apart}
use dify_sandbox.Serving.Ending.{steps, arrivals, requests_end}

abbrev free : List ℕ → UidPool
free us = record { pool = us; min = 7; max = 10 }

-- The first request has acquired 7, and the second is about to acquire.
abbrev two_at_work : Service
two_at_work = record {
  max_requests = pos 5;
  max_workers = 2;
  current = pos 2;
  sem = 2;
  pool = free (8 ∷ 9 ∷ []);
  lost = [];
  jobs = starting ∷ using 7 ∷ [];
}

two_at_work-Reach : Reach (pos 5) 2 7 10 two_at_work
unfolding new_uid_pool acquire range_from try_acquire
two_at_work-Reach =
    let r0 : Reach (pos 5) 2 7 10 (init (pos 5) 2 (free (7 ∷ 8 ∷ 9 ∷ []))) = start refl in
    let r1 = next (next r0 arrive) (admit {current = pos 1} [] [] refl refl) in
    let r2 = next r1 (work [] [] refl (omega arith)) in
    let r3 = next r2 (acquires {u = 7} {p = free (8 ∷ 9 ∷ [])} false false [] [] refl refl) in
    let r4 = next (next r3 arrive) (admit {current = pos 2} [] (using 7 ∷ []) refl refl) in
    next r4 (work [] (using 7 ∷ []) refl (omega arith))

uid_for_each_worker_example :
    (u : ℕ) × (p : UidPool) × (acquire false true (free (8 ∷ 9 ∷ [])) ≡ (uid u, p))
    × (7 ≤ u)
    × (u < 10)
    × (¬ Mem u (7 ∷ []))
uid_for_each_worker_example =
    uid_for_each_worker two_at_work-Reach (omega arith) true [] (using 7 ∷ []) refl

requests_end_example :
    (steps two_at_work-Reach ≤ 9 * arrivals two_at_work-Reach) × Served two_at_work
requests_end_example =
    requests_end two_at_work-Reach (using 7) (starting ∷ []) [] (omega arith) (omega arith) refl
      (λ h. h)

-- The first request has started its child.
abbrev with_child : Service
with_child = record two_at_work { jobs = starting ∷ executing 7 ∷ [] }

children_apart_example : Perm (owned with_child) (range_from 7 (10 - 7)) × Nodup (owned with_child)
children_apart_example =
    children_apart (next two_at_work-Reach (starts_child 7 (starting ∷ []) [] refl))
