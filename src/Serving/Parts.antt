-- ===== src/Serving/Parts.antt =====
-- What the middleware sees of the requests, as its module has it.
use dify_sandbox.Base.{ℕ, ◌+◌, ◌≡◌, refl, sym, ap, ◌∙◌, subst, ℤ, List, [], ◌∷◌, ◌++◌, map}
use dify_sandbox.Middleware.{Pc, running}
use dify_sandbox.Middleware as Middleware
use dify_sandbox.UidPool.{UidPool}
use dify_sandbox.Serving.{
  Job, arriving, admitted, starting, using, executing, exited, collecting, leaving, answered,
  refused, Service, arrive, refuse, admit, work, acquires, answers, gives_up, releases,
  starts_child, exits, hook_releases, panics, finish, leave, Reach, start, next, pc_of, limits,
}

pub map_split :
    (before after : List Job) (j : Job)
    → map pc_of (before ++ (j ∷ after)) ≡ map pc_of before ++ (pc_of j ∷ map pc_of after)
map_split [] after j = refl
map_split (i ∷ before) after j = ap (λ ps. pc_of i ∷ ps) (map_split before after j)

was :
    (s : Service) (before after : List Job) (j : Job)
    → s.jobs ≡ before ++ (j ∷ after)
    → (limits s).requests ≡ map pc_of before ++ (pc_of j ∷ map pc_of after)
was s before after j e = ap (map pc_of) e ∙ map_split before after j

module _ {r : ℤ} {w : ℕ} where
  -- The limits after a request has moved to `j`.
  settled :
      (s : Service) (current : ℤ) (sem : ℕ) (before after : List Job) (j : Job)
      → Middleware.Reach r w (record (limits s) {
        current = current;
        sem = sem;
        requests = map pc_of before ++ (pc_of j ∷ map pc_of after);
      })
      → Middleware.Reach r w
          (limits (record s { current = current; sem = sem; jobs = before ++ (j ∷ after) }))
  settled s current sem before after j m =
      subst
        (λ ps.
          Middleware.Reach r w (record (limits s) { current = current; sem = sem; requests = ps }))
        (sym (map_split before after j)) m

  -- A step between `AcquireUID` and the end of a run is none of the middleware.
  unseen :
      (s : Service) (p : UidPool) (us : List ℕ) (before after : List Job) (i j : Job)
      → Middleware.Reach r w (limits s)
      → s.jobs ≡ before ++ (i ∷ after)
      → pc_of i ≡ pc_of j
      → Middleware.Reach r w
          (limits (record s { pool = p; lost = us; jobs = before ++ (j ∷ after) }))
  unseen s p us before after i j m e same =
      subst (λ ps. Middleware.Reach r w (record (limits s) { requests = ps }))
        (was s before after i e
          ∙ ap (λ pc. map pc_of before ++ (pc ∷ map pc_of after)) same
          ∙ sym (map_split before after j))
        m

  -- What the middleware sees of the requests is a run of the middleware.
  pub Reach-limits :
      {min max : ℕ} {s : Service} → Reach r w min max s → Middleware.Reach r w (limits s)
  Reach-limits (start h) = Middleware.start
  Reach-limits (next r1 arrive) = Middleware.next (Reach-limits r1) Middleware.arrive
  Reach-limits (next {s = s} r1 (refuse {current = current} before after e h)) =
      settled s current s.sem before after refused (
        Middleware.next (Reach-limits r1) (Middleware.refuse _ _ (was s before after arriving e) h))
  Reach-limits (next {s = s} r1 (admit {current = current} before after e h)) =
      settled s current s.sem before after admitted
        (Middleware.next (Reach-limits r1) (Middleware.admit _ _ (was s before after arriving e) h))
  Reach-limits (next {s = s} r1 (work before after e h)) =
      settled s s.current (s.sem + 1) before after starting
        (Middleware.next (Reach-limits r1) (Middleware.work _ _ (was s before after admitted e) h))
  Reach-limits (next {s = s} r1 (acquires {u = u} {p = p} done choice before after e h)) =
      unseen s p s.lost before after starting (using u) (Reach-limits r1) e refl
  Reach-limits (next {s = s} r1 (answers before after e)) =
      unseen s s.pool s.lost before after starting collecting (Reach-limits r1) e refl
  Reach-limits (next {s = s} r1 (gives_up {p = p} done choice before after e h)) =
      unseen s p s.lost before after starting collecting (Reach-limits r1) e refl
  Reach-limits (next {s = s} r1 (releases u {p = p} before after e h)) =
      unseen s p s.lost before after (using u) collecting (Reach-limits r1) e refl
  Reach-limits (next {s = s} r1 (starts_child u before after e)) =
      unseen s s.pool s.lost before after (using u) (executing u) (Reach-limits r1) e refl
  Reach-limits (next {s = s} r1 (exits u before after e)) =
      unseen s s.pool s.lost before after (executing u) (exited u) (Reach-limits r1) e refl
  Reach-limits (next {s = s} r1 (hook_releases u {p = p} before after e h)) =
      unseen s p s.lost before after (exited u) collecting (Reach-limits r1) e refl
  Reach-limits (next {s = s} r1 (panics u before after e)) =
      unseen s s.pool (u ∷ s.lost) before after (using u) collecting (Reach-limits r1) e refl
  Reach-limits (next {s = s} r1 (finish {n = n} before after e h)) =
      settled s s.current n before after leaving (
        Middleware.next (Reach-limits r1)
          (Middleware.finish _ _ (was s before after collecting e) h))
  Reach-limits (next {s = s} r1 (leave before after e)) =
      settled s (Middleware.release s.current) s.sem before after answered
        (Middleware.next (Reach-limits r1) (Middleware.leave _ _ (was s before after leaving e)))
