-- ===== src/Discovery/Environment.antt =====
-- `pythonDiscoveryEnv` of internal/static/python_lib_discovery.go: the environment in which the
-- discovery script runs. `getenv` is `os.Getenv`.
use dify_sandbox.Base.{
  ◌≡◌, refl, ◌⊎◌, inl, inr, Bool, true, false, not, List, [], ◌∷◌, ◌++◌, Bytes, codes, eqb,
  has_prefix, All, All-append, append_assoc, sym, ap, ◌∙◌, if◌then◌else◌,
}
use dify_sandbox.Text.Search.{ends_with}

-- `if v := os.Getenv(name); v != "" { env = append(env, name + "=" + v) }`
unfoldable pub passed_on : (Bytes → Bytes) → Bytes → List Bytes
passed_on getenv name =
    if not (eqb (getenv name) []) then (name ++ (codes "=" ++ getenv name)) ∷ [] else []

-- The overrides of Python that are set to the empty text.
abbrev pub cleared : List Bytes
cleared =
    codes "PYTHONHOME="
    ∷ codes "PYTHONPATH="
    ∷ codes "PYTHONUSERBASE="
    ∷ codes "PYTHONSTARTUP="
    ∷ codes "PYTHONPLATLIBDIR="
    ∷ codes "PYTHONPYCACHEPREFIX="
    ∷ codes "PYTHONNOUSERSITE="
    ∷ codes "PYTHONWARNINGS="
    ∷ codes "PYTHONCASEOK="
    ∷ codes "PYTHONUTF8="
    ∷ []

-- `pythonDiscoveryEnv`
unfoldable pub python_discovery_env : (Bytes → Bytes) → List Bytes
unfolding passed_on
python_discovery_env getenv =
    passed_on getenv (codes "PATH")
    ++ (passed_on getenv (codes "LANG")
        ++ (passed_on getenv (codes "LC_ALL")
            ++ (passed_on getenv (codes "LC_CTYPE")
                ++ (passed_on getenv (codes "TMPDIR") ++ cleared))))

-- An entry that sets no variable of Python, or sets one to the empty text.
abbrev pub Harmless : Bytes → Type 0
Harmless entry = (has_prefix entry (codes "PYTHON") ≡ false) ⊎ (ends_with entry b'=' ≡ true)

passed_on-Harmless :
    (getenv : Bytes → Bytes) (name : Bytes)
    → ((v : Bytes) → has_prefix (name ++ (codes "=" ++ v)) (codes "PYTHON") ≡ false)
    → All Harmless (passed_on getenv name)
unfolding passed_on
passed_on-Harmless getenv name h = chosen (not (eqb (getenv name) []))
  where
    chosen : (b : Bool) → All Harmless (if b then (name ++ (codes "=" ++ getenv name)) ∷ [] else [])
    chosen true = (inl (h (getenv name)), tt)
    chosen false = tt

cleared-Harmless : All Harmless cleared
unfolding ends_with
cleared-Harmless = (
  inr refl,
  (
    inr refl,
    (
      inr refl,
      (inr refl, (inr refl, (inr refl, (inr refl, (inr refl, (inr refl, (inr refl, tt))))))),
    ),
  ),
)

five :
    (a b c d e f : List Bytes)
    → a ++ (b ++ (c ++ (d ++ (e ++ f)))) ≡ a ++ (b ++ (c ++ (d ++ e))) ++ f
five a b c d e f = sym (
    append_assoc a (b ++ (c ++ (d ++ e))) f
    ∙ ap (λ t. a ++ t)
        (append_assoc b (c ++ (d ++ e)) f
          ∙ ap (λ t. b ++ t) (append_assoc c (d ++ e) f ∙ ap (λ t. c ++ t) (append_assoc d e f))))

-- Whatever the environment of the server is, the discovery script runs with no variable of Python
-- that is not empty, and with every one of the ten overrides set to the empty text at the end.
python_discovery_env-Harmless :
    (getenv : Bytes → Bytes)
    → All Harmless (python_discovery_env getenv)
      × ((front : List Bytes) × (python_discovery_env getenv ≡ front ++ cleared))
unfolding python_discovery_env has_prefix
python_discovery_env-Harmless getenv = (
  All-append Harmless (passed_on getenv (codes "PATH")) _
      (passed_on-Harmless getenv (codes "PATH") (λ v. refl))
      (All-append Harmless (passed_on getenv (codes "LANG")) _
        (passed_on-Harmless getenv (codes "LANG") (λ v. refl))
        (All-append Harmless (passed_on getenv (codes "LC_ALL")) _
          (passed_on-Harmless getenv (codes "LC_ALL") (λ v. refl))
          (All-append Harmless (passed_on getenv (codes "LC_CTYPE")) _
            (passed_on-Harmless getenv (codes "LC_CTYPE") (λ v. refl))
            (All-append Harmless (passed_on getenv (codes "TMPDIR")) cleared
              (passed_on-Harmless getenv (codes "TMPDIR") (λ v. refl)) cleared-Harmless)))),
  (
    passed_on getenv (codes "PATH")
        ++ (passed_on getenv (codes "LANG")
            ++ (passed_on getenv (codes "LC_ALL")
                ++ (passed_on getenv (codes "LC_CTYPE") ++ passed_on getenv (codes "TMPDIR")))),
    five (passed_on getenv (codes "PATH")) (passed_on getenv (codes "LANG"))
        (passed_on getenv (codes "LC_ALL")) (passed_on getenv (codes "LC_CTYPE"))
        (passed_on getenv (codes "TMPDIR")) cleared,
  ),
)
