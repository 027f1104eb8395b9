-- ===== src/Serving/Progress.antt =====
-- The next step of a request, past the limits and the pool.
use dify_sandbox.Base.{
  ℕ, ◌+◌, length, ◌-◌, ◌≤◌, ◌<◌, ◌≡◌, refl, ap, ℤ, false, Bool-cases, inl, inr, ltb, List, [], ◌∷◌,
  ◌++◌, map, arith,
}
use dify_sandbox.Middleware.{try_acquire, running}
use dify_sandbox.Middleware.Limits.{Inv, at_work, total, total-middle}
use dify_sandbox.Middleware.Requests as Requests
use dify_sandbox.UidPool.Ownership as Ownership
use dify_sandbox.Serving.{
  Job, arriving, admitted, starting, using, executing, exited, collecting, leaving, answered,
  refused, Service, Step, arrive, refuse, admit, work, acquires, starts_child, exits, hook_releases,
  finish, leave, Reach, pc_of, limits,
}
use dify_sandbox.Serving.Holders.{where_held, taken_one, Reach-Holders}
use dify_sandbox.Serving.Parts.{map_split, Reach-limits}
use dify_sandbox.Serving.Workers.{uid_for_each_worker}

-- In `c.Next()` of `MaxWorker`.
abbrev IsWorking : Job → Type 0
IsWorking starting = Unit
IsWorking (using u) = Unit
IsWorking (executing u) = Unit
IsWorking (exited u) = Unit
IsWorking collecting = Unit
IsWorking _ = ⊥

worker_at :
    (js : List Job)
    → 0 < total at_work (map pc_of js)
    → (before after : List Job) × (j : Job) × (js ≡ before ++ (j ∷ after)) × IsWorking j
unfolding total
worker_at [] h = elim h [ ]
worker_at (starting ∷ js) h = ([], js, starting, refl, tt)
worker_at (using u ∷ js) h = ([], js, using u, refl, tt)
worker_at (executing u ∷ js) h = ([], js, executing u, refl, tt)
worker_at (exited u ∷ js) h = ([], js, exited u, refl, tt)
worker_at (collecting ∷ js) h = ([], js, collecting, refl, tt)
worker_at (i ∷ js) h =
    let (b, a, j, e, k) = worker_at js (omega arith) in (i ∷ b, a, j, ap (λ t. i ∷ t) e, k)

-- A step that is not the arrival of another request.
abbrev pub Serves : {s t : Service} → Step s t → Type 0
Serves arrive = ⊥
Serves _ = Unit

abbrev pub Served : Service → Type 0
Served s = (t : Service) × (st : Step s t) × Serves st

module _ {r : ℤ} {w min max : ℕ} {s : Service} (reach : Reach r w min max s) where
  limits-Inv : Inv (limits s)
  limits-Inv = Requests.Reach-Inv (Reach-limits reach)

  -- A worker goes on to its end.
  works_on :
      (j : Job) (before after : List Job)
      → w + length s.lost ≤ max - min
      → s.jobs ≡ before ++ (j ∷ after)
      → IsWorking j
      → Served s
  works_on starting before after few e k =
      let (u, p, a, _, _, _) = uid_for_each_worker reach few false before after e in
      (_, acquires false false before after e a, tt)
  works_on (using u) before after few e k = (_, starts_child u before after e, tt)
  works_on (executing u) before after few e k = (_, exits u before after e, tt)
  works_on (exited u) before after few e k =
      let h = Reach-Holders reach in
      let (b, a, at) = where_held h u (taken_one s before after (exited u) u e refl) in
      let (p, released, _) = Ownership.release_never_blocks h.reach u b a at in
      (_, hook_releases u before after e released, tt)
  works_on collecting before after few e k =
      let v = limits-Inv in
      (
        _,
        finish {n = s.sem - 1} before after e (
            omega (
              arith,
              v.occupied,
              ap (λ js. total at_work (map pc_of js)) e,
              ap (total at_work) (map_split before after collecting),
              total-middle at_work (map pc_of before) (map pc_of after) running,
            )),
        tt,
      )
  works_on arriving before after few e k = absurd k
  works_on admitted before after few e k = absurd k
  works_on leaving before after few e k = absurd k
  works_on answered before after few e k = absurd k
  works_on refused before after few e k = absurd k

  some_worker : w + length s.lost ≤ max - min → 0 < s.sem → Served s
  some_worker few h =
      let v = limits-Inv in
      let (before, after, j, e, k) = worker_at s.jobs (omega (arith, v.occupied)) in
      works_on j before after few e k

  -- With at least one worker, and no more than the pool has identifiers that no panic has lost, the
  -- requests never block one another, neither at the limits nor at the pool: as long as one of them is not over, some
  -- request can go on without a new one arriving.
  pub service_progress :
      (j : Job) (before after : List Job)
      → 0 < w
      → w + length s.lost ≤ max - min
      → s.jobs ≡ before ++ (j ∷ after)
      → ¬ Requests.IsOver (pc_of j)
      → Served s
  service_progress arriving before after lots few e u =
      elim (Bool-cases (try_acquire s.max_requests s.current).0) [
        | inl free ↦ (_, admit before after e (Requests.with_result _ free), tt)
        | inr taken ↦ (_, refuse before after e (Requests.with_result _ taken), tt)
      ]
  service_progress admitted before after lots few e u =
      elim (Bool-cases (ltb s.sem s.max_workers)) [
        | inl room ↦ (_, work before after e (ground arith), tt)
        | inr full ↦
            let (_, same) = Requests.Reach-limits (Reach-limits reach) in
            some_worker few (ground arith)
      ]
  service_progress leaving before after lots few e u = (_, leave before after e, tt)
  service_progress answered before after lots few e u = absurd (u tt)
  service_progress refused before after lots few e u = absurd (u tt)
  service_progress starting before after lots few e u = works_on starting before after few e tt
  service_progress (using v) before after lots few e u = works_on (using v) before after few e tt
  service_progress (executing v) before after lots few e u =
      works_on (executing v) before after few e tt
  service_progress (exited v) before after lots few e u = works_on (exited v) before after few e tt
  service_progress collecting before after lots few e u = works_on collecting before after few e tt
