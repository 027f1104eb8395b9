-- ===== src/Server/Updates.antt =====
-- What the periodic updates do to the listed packages.
use mathlib.Core.Option.{some_inj}
use dify_sandbox.Base.{
  ◌≡◌, ◌≢◌, refl, sym, ap, ◌∙◌, ◌⊎◌, inl, inr, ℤ, Bool, true, false, ◌||◌, List, [], ◌∷◌, Option,
  none, some, Bytes, eqb, if◌then◌else◌, arith, Bool-cases, Option-cases,
}
use dify_sandbox.Config.{Configuration}
use dify_sandbox.Dependencies.{
  ScriptMap, Pip, unwritten, fails, installed, get_dependency, install_dependencies,
  requirement_lines, extract_oneline_depency,
}
use dify_sandbox.Dependencies.Listing.{from_line, listed, install_dependencies_lists}
use dify_sandbox.Server.{
  UpdateCalls, Ticker, update_python_dependencies, ticks, no_updates, ticker_panics, every,
  update_ticker, init_dependencies,
}

-- A function on versions leaves each as it is, or has one result.
abbrev Settled : (Bytes → Bytes) → Type 0
Settled f = ((old : Bytes) → f old ≡ old) ⊎ ((v : Bytes) × ((old : Bytes) → f old ≡ v))

from_line-Settled : (n : Bytes) (nv : Bytes × Bytes) → Settled (from_line n nv)
from_line-Settled n (name, version) = elim (Bool-cases (eqb name [])) [
  | inl e ↦ inl (λ old. rw e refl)
  | inr e ↦ elim (Bool-cases (eqb name n)) [
    | inl e' ↦ inr (version, λ old. rw (e, e') refl)
    | inr e' ↦ inl (λ old. rw (e, e') refl)
  ]
]

listed-Settled : (n : Bytes) (ls : List Bytes) → Settled (listed n ls)
unfolding listed
listed-Settled n [] = inl (λ old. refl)
listed-Settled n (l ∷ ls) = elim (listed-Settled n ls) [
  | inr (v, same) ↦ inr (v, λ old. same (from_line n (extract_oneline_depency l) old))
  | inl keeps ↦ elim (from_line-Settled n (extract_oneline_depency l)) [
    | inl kept ↦ inl (λ old. keeps (from_line n (extract_oneline_depency l) old) ∙ kept old)
    | inr (v, same) ↦ inr (v, λ old. keeps (from_line n (extract_oneline_depency l) old) ∙ same old)
  ]
]

-- The lines give a package the same version when they are read again.
listed_again :
    (n : Bytes) (ls : List Bytes) (old : Bytes) → listed n ls (listed n ls old) ≡ listed n ls old
listed_again n ls old = elim (listed-Settled n ls) [
  | inl keeps ↦ keeps (listed n ls old)
  | inr (v, same) ↦ same (listed n ls old) ∙ sym (same old)
]

-- Whether pip installs, in one update and in any of several.
abbrev installs : Pip → Bool
installs unwritten = false
installs (fails e) = false
installs installed = true

abbrev pub any_installs : List UpdateCalls → Bool
any_installs [] = false
any_installs (calls ∷ later) = installs calls.pip || any_installs later

-- A version after updates: that of the lines if any of them installs.
abbrev pub after_updates : Bool → Bytes → List Bytes → Bytes → Bytes
after_updates some_install n ls old = if some_install then listed n ls old else old

-- The updates that are performed: those of the ticks only if there is a ticker.
abbrev pub performed : Ticker → UpdateCalls → List UpdateCalls → List UpdateCalls
performed no_updates first later = first ∷ []
performed ticker_panics first later = first ∷ []
performed (every d) first later = first ∷ later

module _ (requirements : Bytes) (n : Bytes) (filled : requirements ≢ []) where
  install-after :
      (pip : Pip) (m : ScriptMap)
      → get_dependency n (install_dependencies pip requirements m).0
        ≡ after_updates (installs pip) n (requirement_lines requirements) (get_dependency n m)
  install-after unwritten m =
      ap (λ r. get_dependency n r.0) ((install_dependencies_lists requirements [] m n filled).1)
  install-after (fails e) m =
      ap (λ r. get_dependency n r.0) ((install_dependencies_lists requirements e m n filled).2)
  install-after installed m = (install_dependencies_lists requirements [] m n filled).0

  update-after :
      (lib_paths : List Bytes) (calls : UpdateCalls) (m : ScriptMap)
      → get_dependency n (update_python_dependencies lib_paths requirements calls m).0
        ≡ after_updates (installs calls.pip) n (requirement_lines requirements) (get_dependency n m)
  unfolding update_python_dependencies
  update-after lib_paths calls m = install-after calls.pip m

  after_both :
      (first later : Bool) (old : Bytes)
      → after_updates later n
          (requirement_lines requirements)
          (after_updates first n (requirement_lines requirements) old)
        ≡ after_updates (first || later) n (requirement_lines requirements) old
  after_both true true old = listed_again n (requirement_lines requirements) old
  after_both true false old = refl
  after_both false later old = refl

  ticks-after :
      (lib_paths : List Bytes) (later : List UpdateCalls) (m : ScriptMap)
      → get_dependency n (ticks lib_paths requirements later m)
        ≡ after_updates (any_installs later) n (requirement_lines requirements) (get_dependency n m)
  unfolding ticks
  ticks-after lib_paths [] m = refl
  ticks-after lib_paths (calls ∷ later) m =
      ticks-after lib_paths later ((update_python_dependencies lib_paths requirements calls m).0)
      ∙ ap (after_updates (any_installs later) n (requirement_lines requirements))
          (update-after lib_paths calls m)
      ∙ after_both (installs calls.pip) (any_installs later) (get_dependency n m)

  -- Of requirements that are not empty, however many updates follow and whether they fail or not, a
  -- package is listed with the version of the last line that names it, or that from before if none
  -- does, as soon as pip has installed once, and with the one from before until then: an update
  -- reads the same lines again and changes no version. The updates of the ticks count only where the
  -- interval can be parsed; the statement is on a start that does not panic.
  pub updates_settle :
      (parse_duration : Bytes → Option ℤ) (c : Configuration) (first : UpdateCalls)
      (later : List UpdateCalls) (m m' : ScriptMap)
      → init_dependencies parse_duration c requirements first later m ≡ some m'
      → get_dependency n m'
        ≡ after_updates
            (any_installs (performed (update_ticker parse_duration c) first later))
            n
            (requirement_lines requirements)
            (get_dependency n m)
  unfolding init_dependencies
  updates_settle parse_duration c first later m m' h =
      elim (Option-cases (update_python_dependencies c.python_lib_paths requirements first m).1) [
        | inr (t, e) ↦ absurd (ground (arith, h, e))
        | inl e ↦ by_ticker (update_ticker parse_duration c) (rw (init_dependencies, e) at h)
      ]
    where
      by_ticker :
          (t : Ticker)
          → elim t as (λ x. Option ScriptMap) [
            | no_updates ↦
                some (update_python_dependencies c.python_lib_paths requirements first m).0
            | ticker_panics ↦ none
            | every d ↦ some (
                ticks c.python_lib_paths requirements later
                  ((update_python_dependencies c.python_lib_paths requirements first m).0))
          ]
            ≡ some m'
          → get_dependency n m'
            ≡ after_updates
                (any_installs (performed t first later))
                n
                (requirement_lines requirements)
                (get_dependency n m)
      by_ticker no_updates q =
          ap (get_dependency n) (sym (some_inj.0 q)) ∙ ticks-after c.python_lib_paths (first ∷ []) m
      by_ticker ticker_panics q = absurd (ground (arith, q))
      by_ticker (every d) q =
          ap (get_dependency n) (sym (some_inj.0 q))
          ∙ ticks-after c.python_lib_paths (first ∷ later) m
