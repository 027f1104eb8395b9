-- ===== src/Discovery/Paths.antt =====
-- Which paths reach the sandbox.
use dify_sandbox.Base.{
  ◌≡◌, ◌≢◌, refl, sym, ap, ◌∙◌, Bool, true, false, List, [], ◌∷◌, ◌++◌, Bytes, Option, some,
  if◌then◌else◌, arith, All-append, Bool-cases, Option-cases, inl, inr, ◌⊎◌, subst,
}
use dify_sandbox.Discovery.{
  contains_path, dedupe_paths, Files, DiscoveryResult, normalize_existing, normalized,
  allowed_json_roots, candidates, checked_paths, build_python_lib_paths, Built, ok, err, no_stdlib,
  no_json_root, foreign_json, uncanonical_json, missing_stdlib, missing_json,
  is_canonical_json_relative_path,
}
use dify_sandbox.Discovery.Dedupe.{contains-append, Distinct, dedupe_paths_lem}
use dify_sandbox.Discovery.Members.{
  IsThere, normalize-IsThere, normalized-All, contains-normalized, All-contains, dedupe-contains,
  contains_head, contains_tail, contains_left, contains_right, normalized-append,
}

module _ (fs : Files) (r : DiscoveryResult) (system_paths : List Bytes) (stdlib json : Bytes) where
  stdlib_candidate : contains_path (candidates fs r system_paths stdlib json) stdlib ≡ true
  stdlib_candidate =
      contains_left (allowed_json_roots fs r stdlib) _ stdlib
        (dedupe-contains _ stdlib ∙ contains_head stdlib _)

  json_candidate : contains_path (candidates fs r system_paths stdlib json) json ≡ true
  json_candidate = contains_right (allowed_json_roots fs r stdlib) _ json (contains_head json _)

  candidates-All :
      IsThere fs stdlib
      → IsThere fs json
      → (y : Bytes) → contains_path (candidates fs r system_paths stdlib json) y ≡ true
      → IsThere fs y
  candidates-All hs hj y c = elim (Bool-cases (contains_path (allowed_json_roots fs r stdlib) y)) [
    | inl e ↦
        All-contains (IsThere fs) _ y
          (
            hs,
            All-append (IsThere fs) (normalized f (r.platstdlib ∷ [])) _
                (normalized-All fs (r.platstdlib ∷ [])) (normalized-All fs r.stdlib_zip_paths),
          )
          (sym (dedupe-contains _ y) ∙ e)
    | inr e ↦
        All-contains (IsThere fs) _ y
          (
            hj,
            All-append (IsThere fs) (normalized f r.paths) _ (normalized-All fs r.paths)
                (normalized-All fs system_paths),
          )
          (behind e (sym (contains-append (allowed_json_roots fs r stdlib) _ y) ∙ c))
  ]
    where
      f : Bytes → Option Bytes
      f = normalize_existing fs

      behind : {a b : Bool} → a ≡ false → (if a then true else b) ≡ true → b ≡ true
      behind p q = ground arith

  -- The two checks at the end never fail.
  checked_paths_lem :
      (contains_path (dedupe_paths (candidates fs r system_paths stdlib json)) stdlib ≡ true)
      × (contains_path (dedupe_paths (candidates fs r system_paths stdlib json)) json ≡ true)
  checked_paths_lem =
      (dedupe-contains _ stdlib ∙ stdlib_candidate, dedupe-contains _ json ∙ json_candidate)

-- What is in the result of the discovery, and that it is there.
pub record Complete (fs : Files) (r : DiscoveryResult) (system_paths paths : List Bytes)
    : Type 0 where
  pub distinct : Distinct paths
  pub there : (y : Bytes) → contains_path paths y ≡ true → IsThere fs y
  pub reported :
      (x y : Bytes)
      → contains_path (r.paths ++ system_paths) x ≡ true
      → normalize_existing fs x ≡ some y
      → contains_path paths y ≡ true

abbrev Refusal : Built → Type 0
Refusal b =
    (b ≡ err no_stdlib)
    ⊎ ((b ≡ err no_json_root) ⊎ ((b ≡ err foreign_json) ⊎ (b ≡ err uncanonical_json)))

checked_cases :
    (fs : Files) (r : DiscoveryResult) (system_paths : List Bytes) (stdlib json : Bytes)
    → Refusal (checked_paths fs r system_paths stdlib json)
      ⊎ ((checked_paths fs r system_paths stdlib json
            ≡ ok (dedupe_paths (candidates fs r system_paths stdlib json)))
          × (contains_path (allowed_json_roots fs r stdlib) json ≡ true)
          × (is_canonical_json_relative_path r.json_relative_path ≡ true))
unfolding checked_paths
checked_cases fs r system_paths stdlib json =
    elim (Bool-cases (contains_path (allowed_json_roots fs r stdlib) json)) [
      | inr foreign ↦ inl (inr (inr (inl (ground arith))))
      | inl known ↦ elim (Bool-cases (is_canonical_json_relative_path r.json_relative_path)) [
        | inr odd ↦ inl (inr (inr (inr (ground arith))))
        | inl canonical ↦
            inr (ground (arith, checked_paths_lem fs r system_paths stdlib json), known, canonical)
      ]
    ]

-- The roots that a successful discovery found.
pub record Roots (fs : Files) (r : DiscoveryResult) (system_paths paths : List Bytes) : Type 0 where
  pub stdlib : Bytes
  pub json : Bytes
  pub stdlib_found : normalize_existing fs r.stdlib ≡ some stdlib
  pub json_found : normalize_existing fs r.json_root ≡ some json
  pub json_known : contains_path (allowed_json_roots fs r stdlib) json ≡ true
  pub json_canonical : is_canonical_json_relative_path r.json_relative_path ≡ true
  pub result : paths ≡ dedupe_paths (candidates fs r system_paths stdlib json)

build_at :
    (fs : Files) (r : DiscoveryResult) (system_paths : List Bytes) (stdlib json : Bytes)
    → normalize_existing fs r.stdlib ≡ some stdlib
    → normalize_existing fs r.json_root ≡ some json
    → build_python_lib_paths fs r system_paths ≡ checked_paths fs r system_paths stdlib json
unfolding build_python_lib_paths
build_at fs r system_paths stdlib json hs hj = ground arith

build_cases :
    (fs : Files) (r : DiscoveryResult) (system_paths : List Bytes)
    → Refusal (build_python_lib_paths fs r system_paths)
      ⊎ ((paths : List Bytes) × (build_python_lib_paths fs r system_paths ≡ ok paths)
          × Roots fs r system_paths paths)
unfolding build_python_lib_paths
build_cases fs r system_paths = elim (Option-cases (normalize_existing fs r.stdlib)) [
  | inl n ↦ inl (inl (ground arith))
  | inr (stdlib, hs) ↦ elim (Option-cases (normalize_existing fs r.json_root)) [
    | inl n ↦ inl (inr (inl (ground arith)))
    | inr (json, hj) ↦ elim (checked_cases fs r system_paths stdlib json) [
      | inl refusal ↦
          inl (subst Refusal (sym (build_at fs r system_paths stdlib json hs hj)) refusal)
      | inr (e, known, canonical) ↦ inr (
        dedupe_paths (candidates fs r system_paths stdlib json),
        build_at fs r system_paths stdlib json hs hj ∙ e,
        record {
          stdlib = stdlib;
          json = json;
          stdlib_found = hs;
          json_found = hj;
          json_known = known;
          json_canonical = canonical;
          result = refl;
        },
      )
    ]
  ]
]

-- `buildPythonLibPaths` fails for one of its first four reasons only; its last two checks never do.
build-ne-missing :
    (fs : Files) (r : DiscoveryResult) (system_paths : List Bytes)
    → (build_python_lib_paths fs r system_paths ≢ err missing_stdlib)
      × (build_python_lib_paths fs r system_paths ≢ err missing_json)
build-ne-missing fs r system_paths = (
  λ h. ground (arith, build_cases fs r system_paths),
  λ h. ground (arith, build_cases fs r system_paths),
)

build-Roots :
    (fs : Files) (r : DiscoveryResult) (system_paths paths : List Bytes)
    → build_python_lib_paths fs r system_paths ≡ ok paths
    → Roots fs r system_paths paths
build-Roots fs r system_paths paths h = elim (build_cases fs r system_paths) [
  | inl refusal ↦ absurd (ground arith)
  | inr (found, e, roots) ↦ subst (Roots fs r system_paths) (ground arith) roots
]

-- When `buildPythonLibPaths` succeeds, no path stands twice in its result, every path there is
-- absolute and exists, and every path that the interpreter reports or the system needs is there
-- if it exists.
pub build-Complete :
    (fs : Files) (r : DiscoveryResult) (system_paths paths : List Bytes)
    → build_python_lib_paths fs r system_paths ≡ ok paths
    → Complete fs r system_paths paths
build-Complete fs r system_paths paths h =
    let v = build-Roots fs r system_paths paths h in
    let all = candidates fs r system_paths v.stdlib v.json in
    record {
      distinct = subst Distinct (sym v.result) ((dedupe_paths_lem all).1);
      there = λ y c.
          candidates-All fs r system_paths v.stdlib v.json
            (normalize-IsThere fs r.stdlib v.stdlib v.stdlib_found)
            (normalize-IsThere fs r.json_root v.json v.json_found) y
            (sym (dedupe-contains all y) ∙ ap (λ t. contains_path t y) (sym v.result) ∙ c);
      reported = λ x y c e.
          ap (λ t. contains_path t y) v.result
          ∙ dedupe-contains all y
          ∙ contains_right (allowed_json_roots fs r v.stdlib) _ y (
              contains_tail v.json y _ (
                subst (λ t. contains_path t y ≡ true)
                  (normalized-append (normalize_existing fs) r.paths system_paths)
                  (contains-normalized (normalize_existing fs) (r.paths ++ system_paths) x y c e)));
    }
