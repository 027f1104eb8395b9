-- ===== src/UidPool/Ownership.antt =====
-- Who owns an identifier: the pool, or one of the runs that acquired it.
use mathlib.Core.List.{
  Perm, Nodup, Mem, perm_middle, perm_append_singleton, mem-append_left, mem-cons_self,
  mem-append_right, Nodup-cons, Nodup-append,
}
use mathlib.Core.List.Perm
use dify_sandbox.Base.{
  ℕ, ◌+◌, ◌-◌, ◌≤◌, ◌<◌, ◌≡◌, refl, sym, ap, ◌∙◌, Bool, List, [], ◌∷◌, ◌++◌, append_assoc, some,
  length, length-append, leb, ltb, arith, range_from, length-Perm, length-range_from,
  mem-range_from, Nodup-range_from, subst, inl, inr, Bool-cases, ◌&&◌,
}
use dify_sandbox.UidPool.{UidPool, new_uid_pool, uid, exhausted, acquire, release, len}

-- The pool, and the identifiers that runs hold.
pub record State : Type 0 where
  pub pool : UidPool
  pub held : List ℕ

-- Runs acquire, cancelled or not, and give back what they hold, in any order.
pub data Step (s : State) : State → Type 0 where
  takes :
      {u : ℕ} {p : UidPool} (done choice : Bool)
      → acquire done choice s.pool ≡ (uid u, p)
      → Step s (record { pool = p; held = u ∷ s.held })
  gives_up :
      {p : UidPool} (done choice : Bool)
      → acquire done choice s.pool ≡ (exhausted, p)
      → Step s (record { pool = p; held = s.held })
  returns :
      (u : ℕ) {p : UidPool} (before after : List ℕ)
      → s.held ≡ before ++ (u ∷ after)
      → release u s.pool ≡ some p
      → Step s (record { pool = p; held = before ++ after })

pub data Reach (min max : ℕ) : State → Type 0 where
  fresh :
      {p : UidPool} → new_uid_pool min max ≡ some p → Reach min max (record { pool = p; held = [] })
  step : {s t : State} → Reach min max s → Step s t → Reach min max t

-- Held and free identifiers are together those of the range, each once.
pub record Owned (min max : ℕ) (s : State) : Type 0 where
  pub low : s.pool.min ≡ min
  pub high : s.pool.max ≡ max
  pub ordered : min ≤ max
  pub all : Perm (s.held ++ s.pool.pool) (range_from min (max - min))

pub acquire_cases :
    (done choice : Bool) (p q : UidPool) (u : ℕ)
    → acquire done choice p ≡ (uid u, q)
    → (p.pool ≡ u ∷ q.pool) × (q.min ≡ p.min) × (q.max ≡ p.max)
unfolding acquire
acquire_cases done choice p q u h = ground arith

pub acquire_exhausted :
    (done choice : Bool) (p q : UidPool) → acquire done choice p ≡ (exhausted, q) → q ≡ p
unfolding acquire
acquire_exhausted done choice p q h = ground arith

pub release_cases :
    (u : ℕ) (p q : UidPool)
    → p.min ≤ u
    → u < p.max
    → release u p ≡ some q
    → (q.pool ≡ p.pool ++ (u ∷ [])) × (q.min ≡ p.min) × (q.max ≡ p.max)
unfolding release
release_cases u p q lo hi h = ground arith

release_room :
    (u : ℕ) (p : UidPool) → length p.pool < p.max - p.min → (q : UidPool) × (release u p ≡ some q)
unfolding release
release_room u p h = elim (Bool-cases (leb p.min u && ltb u p.max)) [
  | inl e ↦ (record p { pool = p.pool ++ (u ∷ []) }, ground arith)
  | inr e ↦ (p, ground arith)
]

new-Owned :
    (min max : ℕ) {p : UidPool}
    → new_uid_pool min max ≡ some p
    → Owned min max (record { pool = p; held = [] })
unfolding new_uid_pool
new-Owned min max {p} h = record {
  low = ground arith;
  high = ground arith;
  ordered = ground arith;
  all = subst (λ xs. Perm xs (range_from min (max - min))) filled (Perm.refl _);
}
  where
    filled : range_from min (max - min) ≡ p.pool
    filled = ground arith

-- An identifier that a run holds lies in the range of the pool.
pub held_in_range :
    {min max : ℕ} {s : State} (u : ℕ) (before after : List ℕ)
    → Owned min max s
    → s.held ≡ before ++ (u ∷ after)
    → (min ≤ u) × (u < max)
held_in_range {min} {max} {s} u before after v h =
    let (a, b) = mem-range_from min (max - min) u (Perm.subset v.all u held) in omega arith
  where
    held : Mem u (s.held ++ s.pool.pool)
    held = rw h (mem-append_left s.pool.pool (mem-append_right before mem-cons_self))

give_back :
    (u : ℕ) (before after pool pool' : List ℕ)
    → pool' ≡ pool ++ (u ∷ [])
    → Perm ((before ++ after) ++ pool') ((before ++ (u ∷ after)) ++ pool)
give_back u before after pool pool' e =
    rw (e, ← append_assoc (before ++ after) pool (u ∷ []))
      (Perm.trans (perm_append_singleton u ((before ++ after) ++ pool))
        (Perm.append_right pool (Perm.symm (perm_middle before after))))

pub Step-Owned : {min max : ℕ} {s t : State} → Step s t → Owned min max s → Owned min max t
Step-Owned {s = s} (takes {u = u} {p = p} done choice h) v =
    let (e, lo, hi) = acquire_cases done choice s.pool p u h in
    record {
      low = lo ∙ v.low;
      high = hi ∙ v.high;
      ordered = v.ordered;
      all = Perm.trans (Perm.symm (perm_middle s.held p.pool)) (rw e at v.all);
    }
Step-Owned {min} {max} {s} (gives_up {p = p} done choice h) v =
    let e = acquire_exhausted done choice s.pool p h in
    record {
      low = ap (λ (q : UidPool). q.min) e ∙ v.low;
      high = ap (λ (q : UidPool). q.max) e ∙ v.high;
      ordered = v.ordered;
      all =
          subst (λ (q : UidPool). Perm (s.held ++ q.pool) (range_from min (max - min))) (sym e)
            v.all;
    }
Step-Owned {min} {max} {s} (returns u {p = p} before after hh hr) v =
    let (a, b) = held_in_range u before after v hh in
    let (e, lo, hi) = release_cases u s.pool p (omega (arith, v.low)) (omega (arith, v.high)) hr in
    record {
      low = lo ∙ v.low;
      high = hi ∙ v.high;
      ordered = v.ordered;
      all = Perm.trans (give_back u before after s.pool.pool p.pool e) (rw hh at v.all);
    }

pub Reach-Owned : {min max : ℕ} {s : State} → Reach min max s → Owned min max s
Reach-Owned {min} {max} (fresh h) = new-Owned min max h
Reach-Owned (step r st) = Step-Owned st (Reach-Owned r)

module _ {min max : ℕ} {s : State} (r : Reach min max s) where
  -- However runs acquired and released before, an identifier that `Acquire` returns lies in the
  -- range, and no run holds it.
  pub acquire_exclusive :
      (u : ℕ) (p : UidPool) (done choice : Bool)
      → acquire done choice s.pool ≡ (uid u, p)
      → (min ≤ u) × (u < max) × (¬ Mem u s.held)
  acquire_exclusive u p done choice h =
      let v = Step-Owned (takes done choice h) (Reach-Owned r) in
      let (lo, hi) = held_in_range u [] s.held v refl in
      let distinct = Perm.nodup (Perm.symm v.all) (Nodup-range_from min (max - min)) in
      (lo, hi, λ m. (Nodup-cons.0 distinct).0 (mem-append_left p.pool m))

  -- However runs acquire and release, no identifier is held by two of them.
  held-Nodup : Nodup s.held
  held-Nodup =
      (Nodup-append.0
        (Perm.nodup (Perm.symm (Reach-Owned r).all) (Nodup-range_from min (max - min)))).0

  -- However runs acquire and release, what the pool and the runs hold adds up to the size of the
  -- range.
  pub len-held : len s.pool + length s.held ≡ max - min
  unfolding len
  len-held = omega (
    arith,
    length-append s.held s.pool.pool,
    length-Perm (Reach-Owned r).all,
    length-range_from min (max - min),
  )

  -- A run that gives back an identifier that it holds never blocks: there is room in the channel,
  -- and the identifier goes to its end.
  pub release_never_blocks :
      (u : ℕ) (before after : List ℕ)
      → s.held ≡ before ++ (u ∷ after)
      → (p : UidPool) × (release u s.pool ≡ some p) × (p.pool ≡ s.pool.pool ++ (u ∷ []))
  unfolding len
  release_never_blocks u before after h =
      let v = Reach-Owned r in
      let (a, b) = held_in_range u before after v h in
      let (p, e) =
        release_room u s.pool
          (omega (arith, len-held, v.low, v.high, ap length h, length-append before (u ∷ after))) in
      (p, e, (release_cases u s.pool p (omega (arith, v.low)) (omega (arith, v.high)) e).0)
