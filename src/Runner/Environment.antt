-- ===== src/Runner/Environment.antt =====
-- internal/core/runner/python/env.go: the libraries of Python are put under the sandbox root.
use mathlib.Core.List.{append_assoc}
use dify_sandbox.Base.{
  ◌≡◌, refl, ◌∙◌, ◌⊎◌, inl, inr, Bool, List, [], ◌∷◌, ◌++◌, append-nil, sym, Bool-cases,
  Option-cases, Option, none, some, Bytes, if◌then◌else◌,
}
use dify_sandbox.Runner.Resources.{root, took, gave, Ran, TempCalls, or_else, with_temp_dir}

-- The write of `env.sh`, whether a library path is there, and the error of the script on it.
pub record EnvCalls : Type 0 where
  pub write_script : Option Bytes
  pub stat : Bytes → Bool
  pub run : Bytes → Option Bytes

-- The paths that the script put under the root, and the error.
abbrev pub Synced : Type 0
Synced = List Bytes × Option Bytes

-- The loop over the library paths.
unfoldable pub sync_paths : EnvCalls → List Bytes → List Bytes → Synced
sync_paths calls [] synced = (synced, none)
sync_paths calls (p ∷ ps) synced =
    let next = sync_paths calls ps (synced ++ (p ∷ [])) in
    let passed_over = sync_paths calls ps synced in
    if calls.stat p
    then elim (calls.run p) [ some e ↦ (synced, some e) | none ↦ next ]
    else passed_over

unfoldable pub sync_all : EnvCalls → List Bytes → Synced
unfolding sync_paths
sync_all calls paths = elim calls.write_script [
  | some e ↦ ([], some e)
  | none ↦ sync_paths calls paths []
]

-- The end of the function that is handed to `WithTempDir`: only without an error the directory is
-- removed.
abbrev pub env_closure : Option Bytes → Ran
env_closure (some e) = ([], some e)
env_closure none = (gave root ∷ [], none)

-- `PreparePythonDependenciesEnv`: what it took and gave back, with its error, and the paths.
unfoldable pub prepare_python_dependencies_env :
    TempCalls → EnvCalls → List Bytes → Ran × List Bytes
unfolding with_temp_dir sync_all
prepare_python_dependencies_env temp calls paths =
    let (synced, e) = sync_all calls paths in
    let made = or_else (or_else temp.new_random temp.mkdir) temp.chdir in
    (with_temp_dir temp [] (env_closure e), elim made [ some e' ↦ [] | none ↦ synced ])

-- The paths that are there.
abbrev pub present : EnvCalls → List Bytes → List Bytes
present calls [] = []
present calls (p ∷ ps) = if calls.stat p then p ∷ present calls ps else present calls ps

-- How the loop may end: with all paths that are there, or with those before one on which the script
-- fails.
abbrev pub Ended : EnvCalls → List Bytes → Synced → Type 0
Ended calls all (synced, none) = synced ≡ all
Ended calls all (synced, some e) =
    (p : Bytes) × (after : List Bytes) × (all ≡ synced ++ (p ∷ after)) × (calls.run p ≡ some e)

sync_paths-Ended :
    (calls : EnvCalls) (all paths before : List Bytes)
    → all ≡ before ++ present calls paths
    → Ended calls all (sync_paths calls paths before)
unfolding sync_paths
sync_paths-Ended calls all [] before h = sym (h ∙ append-nil before)
sync_paths-Ended calls all (p ∷ ps) before h = elim (Bool-cases (calls.stat p)) [
  | inl there ↦ elim (Option-cases (calls.run p)) [
    | inl fine ↦
        let h' = (rw there at h) ∙ sym (append_assoc before (p ∷ []) (present calls ps)) in
        rw (there, fine) (sync_paths-Ended calls all ps (before ++ (p ∷ [])) h')
    | inr (e, fails) ↦ rw (there, fails) (p, present calls ps, rw there at h, fails)
  ]
  | inr away ↦ rw away (sync_paths-Ended calls all ps before (rw away at h))
]

abbrev IsFront : List Bytes → Synced → Type 0
IsFront all (synced, none) = synced ≡ all
IsFront all (synced, some e) = (after : List Bytes) × (all ≡ synced ++ after)

Ended-IsFront :
    (calls : EnvCalls) (all : List Bytes) (r : Synced) → Ended calls all r → IsFront all r
Ended-IsFront calls all (synced, none) h = h
Ended-IsFront calls all (synced, some e) (p, after, h, _) = (p ∷ after, h)

sync_all-IsFront :
    (calls : EnvCalls) (paths : List Bytes) → IsFront (present calls paths) (sync_all calls paths)
unfolding sync_all
sync_all-IsFront calls paths = elim (Option-cases calls.write_script) [
  | inl fine ↦ rw fine (
      Ended-IsFront calls (present calls paths) (sync_paths calls paths [])
        (sync_paths-Ended calls (present calls paths) paths [] refl))
  | inr (e, fails) ↦ rw fails (present calls paths, refl)
]

-- The outcome of the preparation.
abbrev pub Prepared : TempCalls → EnvCalls → List Bytes → Ran × List Bytes → Type 0
Prepared temp calls paths ((t, none), synced) =
    (t ≡ took root ∷ gave root ∷ []) × (synced ≡ present calls paths)
Prepared temp calls paths ((t, some e), synced) =
    (t ≡ []) × (synced ≡ [])
    ⊎ (t ≡ took root ∷ []) × ((after : List Bytes) × (present calls paths ≡ synced ++ after))

-- Where `PreparePythonDependenciesEnv` returns no error, the script ran on every library path that is
-- there, and the temporary directory is removed. Where it returns an error, either no directory was
-- made and the script did not run, or the script ran on a front of these paths, and the directory
-- stays.
pub prepare-Prepared :
    (temp : TempCalls) (calls : EnvCalls) (paths : List Bytes)
    → Prepared temp calls paths (prepare_python_dependencies_env temp calls paths)
unfolding prepare_python_dependencies_env
prepare-Prepared temp calls paths =
    outcome (or_else temp.new_random temp.mkdir) temp.chdir (sync_all calls paths)
      (sync_all-IsFront calls paths)
  where
    outcome :
        (made chdir : Option Bytes) (r : Synced)
        → IsFront (present calls paths) r
        → Prepared temp calls paths (
          elim made as (λ x. Ran) [
            | some e ↦ ([], some e)
            | none ↦ elim chdir as (λ x. Ran) [
              | some e ↦ (took root ∷ [], some e)
              | none ↦ (took root ∷ (env_closure r.1).0, (env_closure r.1).1)
            ]
          ],
          elim (or_else made chdir) as (λ x. List Bytes) [ some e ↦ [] | none ↦ r.0 ],
        )
    outcome (some e) chdir r f = inl (refl, refl)
    outcome none (some e) r f = inr (refl, (present calls paths, refl))
    outcome none none (synced, none) f = (refl, f)
    outcome none none (synced, some e) f = inr (refl, f)
