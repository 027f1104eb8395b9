-- ===== src/Serving/Holders.antt =====
-- Which identifiers the requests hold, as the module of the pool has it.
use mathlib.Core.List.{Perm, perm_middle, mem-cons_self}
use mathlib.Core.List.Perm
use dify_sandbox.Base.{
  ℕ, ◌≡◌, refl, sym, ap, ◌∙◌, subst, ℤ, Bool, List, [], ◌∷◌, ◌++◌, append_assoc, some,
}
use dify_sandbox.UidPool.{UidPool, uid, exhausted, acquire}
use dify_sandbox.UidPool as UidPool
use dify_sandbox.UidPool.Ownership as Ownership
use dify_sandbox.UidPool.Refinement.{place}
use dify_sandbox.Serving.{
  Job, arriving, admitted, starting, using, executing, exited, collecting, leaving, answered,
  refused, Service, Step, arrive, refuse, admit, work, acquires, answers, gives_up, releases,
  starts_child, exits, hook_releases, panics, finish, leave, Reach, start, next, uid_of, held,
  taken,
}

held-append : (xs ys : List Job) → held (xs ++ ys) ≡ held xs ++ held ys
held-append [] ys = refl
held-append (x ∷ xs) ys =
    ap (λ us. uid_of x ++ us) (held-append xs ys)
    ∙ sym (append_assoc (uid_of x) (held xs) (held ys))

-- A request without an identifier can stand anywhere.
held_none :
    (before after : List Job) (j : Job)
    → uid_of j ≡ []
    → held (before ++ (j ∷ after)) ≡ held (before ++ after)
held_none before after j e =
    held-append before (j ∷ after)
    ∙ ap (λ us. held before ++ (us ++ held after)) e
    ∙ sym (held-append before after)

-- The one of a request that holds `u`, before the others.
held_one :
    {js : List Job} (before after : List Job) (j : Job) (u : ℕ)
    → js ≡ before ++ (j ∷ after)
    → uid_of j ≡ u ∷ []
    → Perm (held js) (u ∷ held (before ++ after))
held_one before after j u e hj =
    subst (λ us. Perm us (u ∷ held (before ++ after)))
      (sym (
        ap held e
        ∙ held-append before (j ∷ after)
        ∙ ap (λ us. held before ++ (us ++ held after)) hj))
      (subst (λ us. Perm (held before ++ (u ∷ held after)) (u ∷ us))
        (sym (held-append before after)) (perm_middle (held before) (held after)))

pub taken_one :
    (s : Service) (before after : List Job) (j : Job) (u : ℕ)
    → s.jobs ≡ before ++ (j ∷ after)
    → uid_of j ≡ u ∷ []
    → Perm (taken s) (u ∷ (held (before ++ after) ++ s.lost))
taken_one s before after j u e hj = Perm.append_right s.lost (held_one before after j u e hj)

-- A request moves from `i` to `j`, and keeps what it holds.
held_moved :
    (s : Service) (before after : List Job) (i j : Job)
    → s.jobs ≡ before ++ (i ∷ after)
    → uid_of i ≡ uid_of j
    → taken s ≡ held (before ++ (j ∷ after)) ++ s.lost
held_moved s before after i j e same =
    ap (λ us. us ++ s.lost)
      (ap held e
        ∙ held-append before (i ∷ after)
        ∙ ap (λ us. held before ++ (us ++ held after)) same
        ∙ sym (held-append before (j ∷ after)))

-- The pool in the hands of runs that hold what the requests hold.
pub record Holders (min max : ℕ) (p : UidPool) (us : List ℕ) : Type 0 where
  pub uids : List ℕ
  pub reach : Ownership.Reach min max (record { pool = p; held = uids })
  pub same : Perm uids us

module _ {min max : ℕ} {p : UidPool} {us : List ℕ} (h : Holders min max p us) where
  reorder : {vs : List ℕ} → Perm us vs → Holders min max p vs
  reorder e = record { uids = h.uids; reach = h.reach; same = Perm.trans h.same e }

  rename : {vs : List ℕ} → us ≡ vs → Holders min max p vs
  rename e = record { uids = h.uids; reach = h.reach; same = subst (λ ws. Perm h.uids ws) e h.same }

  pub where_held :
      (u : ℕ) {vs : List ℕ}
      → Perm us (u ∷ vs)
      → (before after : List ℕ) × (h.uids ≡ before ++ (u ∷ after))
  where_held u e = place u h.uids (Perm.subset (Perm.symm (Perm.trans h.same e)) u mem-cons_self)

  -- One of them gives back `u`.
  give :
      (u : ℕ) {q : UidPool} {vs : List ℕ}
      → Perm us (u ∷ vs)
      → UidPool.release u p ≡ some q
      → Holders min max q vs
  give u e r =
      let (before, after, at) = where_held u e in
      record {
        uids = before ++ after;
        reach = Ownership.step h.reach (Ownership.returns u before after at r);
        same = Perm.cons_inv (
            Perm.trans (Perm.symm (perm_middle before after))
              (subst (λ ws. Perm ws (u ∷ _)) at (Perm.trans h.same e)));
      }

  -- One of them takes `u`.
  take_up :
      (u : ℕ) {q : UidPool} {vs : List ℕ} (done choice : Bool)
      → Perm (u ∷ us) vs
      → acquire done choice p ≡ (uid u, q)
      → Holders min max q vs
  take_up u done choice e a = record {
    uids = u ∷ h.uids;
    reach = Ownership.step h.reach (Ownership.takes done choice a);
    same = Perm.trans (Perm.cons u h.same) e;
  }

  -- One of them asks in vain.
  ask_in_vain :
      {q : UidPool} {vs : List ℕ} (done choice : Bool)
      → us ≡ vs
      → acquire done choice p ≡ (exhausted, q)
      → Holders min max q vs
  unfolding rename
  ask_in_vain done choice e a =
      let k = rename e in
      record {
        uids = k.uids;
        reach = Ownership.step h.reach (Ownership.gives_up done choice a);
        same = k.same;
      }

Step-Holders :
    {min max : ℕ} {s t : Service}
    → Step s t
    → Holders min max s.pool (taken s)
    → Holders min max t.pool (taken t)
Step-Holders arrive h = h
Step-Holders {s = s} (refuse before after e _) h =
    rename h (held_moved s before after arriving refused e refl)
Step-Holders {s = s} (admit before after e _) h =
    rename h (held_moved s before after arriving admitted e refl)
Step-Holders {s = s} (work before after e _) h =
    rename h (held_moved s before after admitted starting e refl)
Step-Holders {s = s} (acquires {u = u} done choice before after e a) h =
    take_up h u done choice
      (subst (λ us. Perm (u ∷ us) (held (before ++ (using u ∷ after)) ++ s.lost))
        (sym (
          ap (λ js. held js ++ s.lost) e
          ∙ ap (λ us. us ++ s.lost) (held_none before after starting refl)))
        (Perm.append_right s.lost (Perm.symm (held_one before after (using u) u refl refl))))
      a
Step-Holders {s = s} (answers before after e) h =
    rename h (held_moved s before after starting collecting e refl)
Step-Holders {s = s} (gives_up done choice before after e a) h =
    ask_in_vain h done choice (held_moved s before after starting collecting e refl) a
Step-Holders {s = s} (releases u before after e r) h =
    give h u
      (subst (λ us. Perm (taken s) (u ∷ (us ++ s.lost)))
        (sym (held_none before after collecting refl))
        (taken_one s before after (using u) u e refl))
      r
Step-Holders {s = s} (starts_child u before after e) h =
    rename h (held_moved s before after (using u) (executing u) e refl)
Step-Holders {s = s} (exits u before after e) h =
    rename h (held_moved s before after (executing u) (exited u) e refl)
Step-Holders {s = s} (hook_releases u before after e r) h =
    give h u
      (subst (λ us. Perm (taken s) (u ∷ (us ++ s.lost)))
        (sym (held_none before after collecting refl))
        (taken_one s before after (exited u) u e refl))
      r
Step-Holders {s = s} (panics u before after e) h = reorder h (
    subst (λ us. Perm (taken s) (us ++ (u ∷ s.lost))) (sym (held_none before after collecting refl))
      (Perm.trans (taken_one s before after (using u) u e refl)
        (Perm.symm (perm_middle (held (before ++ after)) s.lost))))
Step-Holders {s = s} (finish before after e _) h =
    rename h (held_moved s before after collecting leaving e refl)
Step-Holders {s = s} (leave before after e) h =
    rename h (held_moved s before after leaving answered e refl)

pub Reach-Holders :
    {r : ℤ} {w min max : ℕ} {s : Service} → Reach r w min max s → Holders min max s.pool (taken s)
Reach-Holders (start h) = record { uids = []; reach = Ownership.fresh h; same = Perm.refl [] }
Reach-Holders (next r st) = Step-Holders st (Reach-Holders r)
