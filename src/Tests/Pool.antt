-- ===== src/Tests/Pool.antt =====
-- The pool of the identifiers 7, 8 and 9, and the package's pool.
use mathlib.Core.List.{Mem}
use dify_sandbox.Base.{ℕ, ◌≡◌, ◌≤◌, ◌<◌, refl, true, false, List, [], ◌∷◌, some, codes, range_from}
use dify_sandbox.UidPool.{UidPool, new_uid_pool, acquire, release, acquire_uid, release_uid}
use dify_sandbox.UidPool.Ownership.{State, Reach, fresh, step, takes, acquire_exclusive}
use dify_sandbox.UidPool.Refinement.{Possible, view, Reach-Possible}
use dify_sandbox.Base.{none}
use dify_sandbox.Runner.Resources.{python_hook, nodejs_hook, run_python, run_nodejs}
use dify_sandbox.Runner.PoolUse.{whole, releases_of, runs_return_uid}
use dify_sandbox.Tests.Runs.{script_written, no_copy, no_start}
use dify_sandbox.UidPool.Once.{acquires, releases, after_call, after_calls, first_call_decides}

abbrev free : List ℕ → UidPool
free us = record { pool = us; min = 7; max = 10 }

-- One run has acquired 7.
abbrev one_held : State
one_held = record { pool = free (8 ∷ 9 ∷ []); held = 7 ∷ [] }

one_held-Reach : Reach 7 10 one_held
unfolding new_uid_pool acquire range_from
one_held-Reach = step (fresh {p = free (7 ∷ 8 ∷ 9 ∷ [])} refl) (takes false false refl)

acquire_exclusive_example : (7 ≤ 8) × (8 < 10) × (¬ Mem {A = ℕ} 8 (7 ∷ []))
unfolding acquire
acquire_exclusive_example = acquire_exclusive one_held-Reach 8 (free (9 ∷ [])) false false refl

Reach-Possible_example : Possible 7 10 (view one_held)
Reach-Possible_example = Reach-Possible one_held-Reach

-- The run cannot start its process, and the disk is full for the one of Node.js.
runs_return_uid_example :
    (p : UidPool) × (p.pool ≡ 8 ∷ 9 ∷ 7 ∷ [])
    × (releases_of 7
          (whole python_hook (run_python none script_written none no_start))
          (free (8 ∷ 9 ∷ []))
        ≡ some p)
    × (releases_of 7
          (whole nodejs_hook (run_nodejs none no_copy [] none none no_start))
          (free (8 ∷ 9 ∷ []))
        ≡ some p)
runs_return_uid_example =
    runs_return_uid one_held-Reach 7 [] [] script_written no_copy [] none none no_start refl

abbrev package_pool : UidPool
package_pool = record { pool = range_from 10000 1000; min = 10000; max = 11000 }

-- A release of an identifier that is out of range comes first, and then an acquisition.
first_call_decides_example : codes "root" ∷ [] ≡ codes "root" ∷ []
unfolding after_call after_calls release_uid acquire_uid release acquire range_from
first_call_decides_example =
    first_call_decides (releases 1) (acquires true true true ∷ []) (codes "root" ∷ [])
      {g = record { global_pool = some package_pool; passwd = codes "root" ∷ [] }} refl
