-- ===== src/Serving/Isolation.antt =====
-- Under which identifiers the children run.
use mathlib.Core.List.{Perm, Nodup, perm_middle}
use mathlib.Core.List.Perm
use dify_sandbox.Base.{
  ℕ, ◌-◌, ◌≡◌, ◌∙◌, subst, ℤ, List, [], ◌∷◌, ◌++◌, append_assoc, range_from, Nodup-range_from,
}
use dify_sandbox.UidPool.Ownership as Ownership
use dify_sandbox.Serving.{Job, using, executing, exited, Service, Reach, held}
use dify_sandbox.Serving.Holders.{Reach-Holders}

-- The identifiers of the children that run, and those of requests without a child.
unfoldable pub children : List Job → List ℕ
children [] = []
children (executing u ∷ js) = u ∷ children js
children (_ ∷ js) = children js

unfoldable pub childless : List Job → List ℕ
childless [] = []
childless (using u ∷ js) = u ∷ childless js
childless (exited u ∷ js) = u ∷ childless js
childless (_ ∷ js) = childless js

held-perm : (js : List Job) → Perm (held js) (children js ++ childless js)
unfolding children childless
held-perm [] = Perm.refl []
held-perm (executing u ∷ js) = Perm.cons u (held-perm js)
held-perm (using u ∷ js) =
    Perm.trans (Perm.cons u (held-perm js)) (Perm.symm (perm_middle (children js) (childless js)))
held-perm (exited u ∷ js) =
    Perm.trans (Perm.cons u (held-perm js)) (Perm.symm (perm_middle (children js) (childless js)))
held-perm (j ∷ js) = held-perm js

-- Each identifier with its owner: a child, a request without one, a panic, or the pool.
abbrev pub owned : Service → List ℕ
owned s = children s.jobs ++ (childless s.jobs ++ (s.lost ++ s.pool.pool))

regroup : (a b c d : List ℕ) → ((a ++ b) ++ c) ++ d ≡ a ++ (b ++ (c ++ d))
regroup a b c d = append_assoc (a ++ b) c d ∙ append_assoc a b (c ++ d)

-- However the requests interleave, and whichever runs panic, each identifier of the range has at each
-- time exactly one owner: a child that runs under it, a request that has not started its child or
-- whose child has exited, a run that panicked, or the pool. So no two children that run at the same
-- time have the same identifier, and the pool never hands out that of a child.
pub children_apart :
    {r : ℤ} {w min max : ℕ} {s : Service}
    → Reach r w min max s
    → Perm (owned s) (range_from min (max - min)) × Nodup (owned s)
children_apart {min = min} {max = max} {s = s} reach =
    let h = Reach-Holders reach in
    let all = (Ownership.Reach-Owned h.reach).all in
    let split = Perm.trans h.same (Perm.append_right s.lost (held-perm s.jobs)) in
    let whole =
      subst (λ us. Perm us (range_from min (max - min)))
        (regroup (children s.jobs) (childless s.jobs) s.lost s.pool.pool)
        (Perm.trans (Perm.append_right s.pool.pool (Perm.symm split)) all) in
    (whole, Perm.nodup (Perm.symm whole) (Nodup-range_from min (max - min)))
