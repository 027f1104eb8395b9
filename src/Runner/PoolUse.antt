-- ===== src/Runner/PoolUse.antt =====
-- What a run does to the pool of identifiers by the time its process has exited.
use dify_sandbox.Base.{ℕ, ◌≡◌, refl, List, [], ◌∷◌, ◌++◌, Option, none, some, Bytes, arith}
use dify_sandbox.UidPool.{UidPool, release}
use dify_sandbox.UidPool.Ownership.{State, Reach, release_never_blocks}
use dify_sandbox.Runner.Resources.{
  uid, Effect, took, gave, Ran, StartCalls, ScriptCalls, TempCalls, after_exit, python_hook,
  nodejs_hook, run_python, run_nodejs,
}
use dify_sandbox.Runner.Release.{given}

-- All that a run does: with an error, until it returns; without one, until its process has exited.
abbrev pub whole : List Effect → Ran → List Effect
whole hook (t, some e) = t
whole hook (t, none) = t ++ after_exit hook

-- Each release of the identifier `u` on the pool; `none` is a release that blocks.
unfoldable pub releases_of : ℕ → List Effect → UidPool → Option UidPool
releases_of u [] p = some p
releases_of u (gave uid ∷ t) p = elim (release u p) [ none ↦ none | some q ↦ releases_of u t q ]
releases_of u (_ ∷ t) p = releases_of u t p

no_release : (u : ℕ) (t : List Effect) (p : UidPool) → given uid t ≡ 0 → releases_of u t p ≡ some p
unfolding releases_of given
no_release u [] p h = refl
no_release u (took r ∷ t) p h = no_release u t p h
no_release u (gave uid ∷ t) p h = absurd (omega arith)
no_release u (gave _ ∷ t) p h = no_release u t p h

one_release :
    (u : ℕ) (t : List Effect) (p q : UidPool)
    → given uid t ≡ 1
    → release u p ≡ some q
    → releases_of u t p ≡ some q
unfolding releases_of given
one_release u [] p q h e = absurd (omega arith)
one_release u (took r ∷ t) p q h e = one_release u t p q h e
one_release u (gave uid ∷ t) p q h e = rw (releases_of, e) (no_release u t q (omega arith))
one_release u (gave _ ∷ t) p q h e = one_release u t p q h e

python_releases :
    (sc : ScriptCalls) (os_pipe : Option Bytes) (st : StartCalls)
    → given uid (whole python_hook (run_python none sc os_pipe st)) ≡ 1
unfolding run_python after_exit given
python_releases sc os_pipe st = ground arith

nodejs_releases :
    (temp : TempCalls) (paths : List Bytes) (init os_pipe : Option Bytes) (st : StartCalls)
    → given uid (whole nodejs_hook (run_nodejs none temp paths init os_pipe st)) ≡ 1
unfolding run_nodejs after_exit given
nodejs_releases temp paths init os_pipe st = ground arith

module _ {min max : ℕ} {s : State} (r : Reach min max s) where
  -- Whatever call fails in a run that has acquired an identifier and does not panic, and whatever
  -- other runs do until then, the run releases it exactly once until it is over (with its error, or
  -- with the exit of its process): the release does not block, and puts the identifier behind the
  -- others in the pool, for Python and for Node.js.
  pub runs_return_uid :
      (u : ℕ) (before after : List ℕ) (sc : ScriptCalls) (temp : TempCalls) (paths : List Bytes)
      (init os_pipe : Option Bytes) (st : StartCalls)
      → s.held ≡ before ++ (u ∷ after)
      → (p : UidPool) × (p.pool ≡ s.pool.pool ++ (u ∷ []))
        × (releases_of u (whole python_hook (run_python none sc os_pipe st)) s.pool ≡ some p)
        × (releases_of u (whole nodejs_hook (run_nodejs none temp paths init os_pipe st)) s.pool
            ≡ some p)
  runs_return_uid u before after sc temp paths init os_pipe st h =
      let (p, e, same) = release_never_blocks r u before after h in
      (
        p,
        same,
        one_release u (whole python_hook (run_python none sc os_pipe st)) s.pool p
            (python_releases sc os_pipe st) e,
        one_release u (whole nodejs_hook (run_nodejs none temp paths init os_pipe st)) s.pool p
            (nodejs_releases temp paths init os_pipe st) e,
      )
