-- ===== src/UidPool/Refinement.antt =====
-- The pool against what it promises: two bags of identifiers, free and held. The bags forget in
-- which order the channel keeps its entries.
use mathlib.Core.List.{perm_middle, perm_append_singleton, Mem, not-mem-nil, mem_of_ne_of_mem}
use mathlib.Core.Quot.{sound}
use mathlib.Mathlib.Data.Multiset.Defs.{Multiset, of_list}
use mathlib.Mathlib.Data.Multiset.ZeroCons.{cons, cons_inj_right}
use mathlib.Mathlib.Data.Multiset.ZeroCons as Bag
use mathlib.Mathlib.Data.Multiset.Defs as Multiset
use dify_sandbox.Base.{
  ◌==◌, ◌≢◌, Bool-cases, inl, inr, List, ◌∷◌, ℕ, ◌-◌, ◌≡◌, sym, ap, ◌∙◌, subst, [], ◌++◌, some,
  range_from, arith,
}
use dify_sandbox.UidPool.{UidPool, new_uid_pool}
use dify_sandbox.UidPool.Ownership.{
  State, Step, takes, gives_up, returns, Reach, fresh, step, Owned, acquire_cases,
  acquire_exhausted, release_cases, held_in_range, Reach-Owned, release_never_blocks,
}

-- What a user of the pool sees.
pub record View : Type 0 where
  pub free : Multiset ℕ
  pub held : Multiset ℕ

-- Any free identifier may be handed out, a request may be refused, and any held one comes back.
pub data Allowed (a : View) : View → Type 0 where
  hand_out :
      (u : ℕ) (rest : Multiset ℕ)
      → a.free ≡ cons u rest
      → Allowed a (record { free = rest; held = cons u a.held })
  refuse : Allowed a a
  take_back :
      (u : ℕ) (rest : Multiset ℕ)
      → a.held ≡ cons u rest
      → Allowed a (record { free = cons u a.free; held = rest })

-- From a full pool, by what is allowed.
pub data Possible (min max : ℕ) : View → Type 0 where
  full :
      Possible min max (record { free = of_list (range_from min (max - min)); held = of_list [] })
  next : {a b : View} → Possible min max a → Allowed a b → Possible min max b

abbrev pub view : State → View
view s = record { free = of_list s.pool.pool; held = of_list s.held }

Step-Allowed : {min max : ℕ} {s t : State} → Owned min max s → Step s t → Allowed (view s) (view t)
Step-Allowed {s = s} v (takes {u = u} {p = p} done choice h) =
    let (e, _, _) = acquire_cases done choice s.pool p u h in
    hand_out u (of_list p.pool) (ap of_list e)
Step-Allowed {s = s} v (gives_up {p = p} done choice h) =
    subst
      (λ (q : UidPool). Allowed (view s) (record { free = of_list q.pool; held = of_list s.held }))
      (sym (acquire_exhausted done choice s.pool p h)) refuse
Step-Allowed {s = s} v (returns u {p = p} before after hh hr) =
    let (lo, hi) = held_in_range u before after v hh in
    let (e, _, _) = release_cases u s.pool p (omega (arith, v.low)) (omega (arith, v.high)) hr in
    subst (λ f. Allowed (view s) (record { free = f; held = of_list (before ++ after) }))
      (sym (ap of_list e ∙ sound (perm_append_singleton u s.pool.pool)))
      (take_back u (of_list (before ++ after)) (ap of_list hh ∙ sound (perm_middle before after)))

new_pool :
    (min max : ℕ) (p : UidPool)
    → new_uid_pool min max ≡ some p
    → p.pool ≡ range_from min (max - min)
unfolding new_uid_pool
new_pool min max p h = ground arith

-- Whatever runs do with the channel, a user who sees only which identifiers are free and which are
-- held sees a full pool from which free identifiers are handed out, each only while it is free, and
-- held ones come back: each reachable state of the pool is a possible view.
pub Reach-Possible : {min max : ℕ} {s : State} → Reach min max s → Possible min max (view s)
Reach-Possible {min} {max} (fresh {p = p} h) =
    subst (λ xs. Possible min max (record { free = of_list xs; held = of_list [] }))
      (sym (new_pool min max p h)) full
Reach-Possible (step r st) = next (Reach-Possible r) (Step-Allowed (Reach-Owned r) st)

-- Where a held identifier stands.
pub place :
    (u : ℕ) (xs : List ℕ)
    → Mem u xs
    → (before : List ℕ) × (after : List ℕ) × (xs ≡ before ++ (u ∷ after))
place u [] m = absurd (not-mem-nil m)
place u (x ∷ xs) m = elim (Bool-cases (x == u)) [
  | inl e ↦ ([], xs, ap (λ y. y ∷ xs) (ground arith))
  | inr e ↦
      let away : u ≢ x = λ q. ground arith in
      let (before, after, h) = place u xs (mem_of_ne_of_mem away m) in
      (x ∷ before, after, ap (λ ys. x ∷ ys) h)
]

-- In each reachable state, for each identifier that the bag of the held ones has, the channel can take
-- it back: there is a step after which the bag of the free ones has it in addition, and the bag of the
-- held ones is the rest.
take_back_possible :
    {min max : ℕ} {s : State} (r : Reach min max s) (u : ℕ) (rest : Multiset ℕ)
    → (view s).held ≡ cons u rest
    → (t : State) × Step s t × (view t ≡ record { free = cons u (view s).free; held = rest })
take_back_possible {s = s} r u rest e =
    let m : Mem u s.held =
      subst (λ (b : Multiset ℕ). Multiset.Mem b u) (sym e) (Bag.mem-cons_self u rest) in
    let (before, after, h) = place u s.held m in
    let (p, released, same) = release_never_blocks r u before after h in
    let held_rest =
      (cons_inj_right u (of_list (before ++ after)) rest).0
        (sym (ap of_list h ∙ sound (perm_middle before after)) ∙ e) in
    let freed = ap of_list same ∙ sound (perm_append_singleton u s.pool.pool) in
    (
      record { pool = p; held = before ++ after },
      returns u before after h released,
      λ i. record { free = freed i; held = held_rest i },
    )
