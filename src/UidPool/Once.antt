-- ===== src/UidPool/Once.antt =====
-- What the first call of the package decides: both `globalPoolOnce.Do` share one `sync.Once`.
use dify_sandbox.Base.{
  ℕ, ◌≡◌, refl, sym, ap, ◌∙◌, Bool, List, [], ◌∷◌, Option, none, some, Bytes, arith, range_from,
  Option-cases, inl, inr,
}
use dify_sandbox.UidPool.{
  UidPool, Acquired, acquire, release, ensure_passwd_entries, Global, once_acquire, once_release,
  acquire_in, acquire_uid, release_in, release_uid,
}

pub data Call : Type 0 where
  acquires : (opens done choice : Bool) → Call
  releases : ℕ → Call

-- The state after a call; `none` is a call that blocks.
unfoldable pub after_call : Call → Global → Option Global
after_call (acquires opens done choice) g = elim (acquire_uid opens done choice g) [
  | none ↦ none
  | some (a, g') ↦ some g'
]
after_call (releases u) g = release_uid u g

unfoldable pub after_calls : List Call → Global → Option Global
after_calls [] g = some g
after_calls (c ∷ cs) g = elim (after_call c g) [ none ↦ none | some g' ↦ after_calls cs g' ]

-- The package before its first call.
abbrev pub untouched : List Bytes → Global
untouched file = record { global_pool = none; passwd = file }

-- What /etc/passwd holds once `c` was the first call.
abbrev pub passwd_after_first : Call → List Bytes → List Bytes
passwd_after_first (acquires opens done choice) file = ensure_passwd_entries opens 10000 11000 file
passwd_after_first (releases u) file = file

-- A call on a pool that is there leaves a pool there, and /etc/passwd as it is.
record Keeps (g g' : Global) : Type 0 where
  pool : UidPool
  there : g'.global_pool ≡ some pool
  same : g'.passwd ≡ g.passwd

acquire_in-Keeps :
    (done choice : Bool) (g : Global) (p : UidPool) (a : Acquired) {g' : Global}
    → g.global_pool ≡ some p
    → acquire_in done choice g ≡ some (a, g')
    → Keeps g g'
unfolding acquire_in
acquire_in-Keeps done choice g p a h e = record {
  pool = (acquire done choice p).1;
  there = ground arith;
  same = ground arith;
}

release_in-Keeps :
    (u : ℕ) (g : Global) (p : UidPool) {g' : Global}
    → g.global_pool ≡ some p
    → release_in u g ≡ some g'
    → Keeps g g'
unfolding release_in
release_in-Keeps u g p h e = elim (Option-cases (release u p)) [
  | inl n ↦ absurd (ground arith)
  | inr (q, n) ↦ record { pool = q; there = ground arith; same = ground arith }
]

acquire_uid-steps :
    (opens done choice : Bool) (g g' : Global)
    → once_acquire opens g ≡ g'
    → acquire_uid opens done choice g ≡ acquire_in done choice g'
unfolding acquire_uid
acquire_uid-steps opens done choice g g' e = ap (acquire_in done choice) e

release_uid-steps :
    (u : ℕ) (g g' : Global) → once_release g ≡ g' → release_uid u g ≡ release_in u g'
unfolding release_uid
release_uid-steps u g g' e = ap (release_in u) e

once_acquire-again :
    (opens : Bool) (g : Global) (p : UidPool) → g.global_pool ≡ some p → once_acquire opens g ≡ g
unfolding once_acquire
once_acquire-again opens g p h = ground arith

once_release-again : (g : Global) (p : UidPool) → g.global_pool ≡ some p → once_release g ≡ g
unfolding once_release
once_release-again g p h = ground arith

drop_result :
    (m : Option (Acquired × Global)) {g' : Global}
    → elim m [ none ↦ none | some (a, g) ↦ some g ] ≡ some g'
    → (a : Acquired) × (m ≡ some (a, g'))
drop_result none h = cc
drop_result (some (a, g)) h = (a, ground arith)

after_call-Keeps :
    (c : Call) (g : Global) (p : UidPool) {g' : Global}
    → g.global_pool ≡ some p
    → after_call c g ≡ some g'
    → Keeps g g'
unfolding after_call
after_call-Keeps (acquires opens done choice) g p h e =
    let (a, m) = drop_result (acquire_uid opens done choice g) e in
    acquire_in-Keeps done choice g p a h
      (sym (acquire_uid-steps opens done choice g g (once_acquire-again opens g p h)) ∙ m)
after_call-Keeps (releases u) g p h e =
    release_in-Keeps u g p h (sym (release_uid-steps u g g (once_release-again g p h)) ∙ e)

rest_runs :
    (rest : Global → Option Global) {m : Option Global} {g1 g' : Global}
    → m ≡ some g1
    → elim m [ none ↦ none | some g ↦ rest g ] ≡ some g'
    → rest g1 ≡ some g'
rest_runs rest {m = none} n e = cc
rest_runs rest {m = some g} n e = cc

after_calls-passwd :
    (cs : List Call) (g : Global) (p : UidPool) {g' : Global}
    → g.global_pool ≡ some p
    → after_calls cs g ≡ some g'
    → g'.passwd ≡ g.passwd
unfolding after_calls
after_calls-passwd [] g p h e = ground arith
after_calls-passwd (c ∷ cs) g p h e = elim (Option-cases (after_call c g)) [
  | inl n ↦ absurd (ground arith)
  | inr (g1, n) ↦
      let k = after_call-Keeps c g p h n in
      after_calls-passwd cs g1 k.pool k.there (rest_runs (after_calls cs) n e) ∙ k.same
]

abbrev first_pool : UidPool
first_pool = record { pool = range_from 10000 1000; min = 10000; max = 11000 }

abbrev first_state : Call → List Bytes → Global
first_state c file = record { global_pool = some first_pool; passwd = passwd_after_first c file }

once_acquire-first :
    (opens done choice : Bool) (file : List Bytes)
    → once_acquire opens (untouched file) ≡ first_state (acquires opens done choice) file
unfolding once_acquire
once_acquire-first opens done choice file = refl

once_release-first :
    (u : ℕ) (file : List Bytes) → once_release (untouched file) ≡ first_state (releases u) file
unfolding once_release
once_release-first u file = refl

first_call-Keeps :
    (c : Call) (file : List Bytes) {g : Global}
    → after_call c (untouched file) ≡ some g
    → Keeps (first_state c file) g
unfolding after_call
first_call-Keeps (acquires opens done choice) file e =
    let (a, m) = drop_result (acquire_uid opens done choice (untouched file)) e in
    let first = once_acquire-first opens done choice file in
    acquire_in-Keeps done choice (first_state (acquires opens done choice) file) first_pool a refl
      (sym (acquire_uid-steps opens done choice (untouched file) _ first) ∙ m)
first_call-Keeps (releases u) file e =
    release_in-Keeps u (first_state (releases u) file) first_pool refl
      (sym (release_uid-steps u (untouched file) _ (once_release-first u file)) ∙ e)

-- If the calls of the package return, /etc/passwd is what the first call makes of it: the entries
-- are appended once if that is `AcquireUID`, and never if it is `ReleaseUID`.
pub first_call_decides :
    (c : Call) (cs : List Call) (file : List Bytes) {g : Global}
    → after_calls (c ∷ cs) (untouched file) ≡ some g
    → g.passwd ≡ passwd_after_first c file
unfolding after_calls
first_call_decides c cs file e = elim (Option-cases (after_call c (untouched file))) [
  | inl n ↦ absurd (ground arith)
  | inr (g1, n) ↦
      let k = first_call-Keeps c file n in
      after_calls-passwd cs g1 k.pool k.there (rest_runs (after_calls cs) n e) ∙ k.same
]
