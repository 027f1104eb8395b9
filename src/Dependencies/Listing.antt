-- ===== src/Dependencies/Listing.antt =====
-- Which version a package is listed with.
use dify_sandbox.Base.{
  ◌≡◌, ◌≢◌, ◌∙◌, refl, ap, Bool, true, false, List, [], ◌∷◌, Bytes, eqb, eqb_refl, eqb→eq, eqb-nil,
  arith, if◌then◌else◌, none, some,
}
use dify_sandbox.Dependencies.{
  extract_oneline_depency, ScriptMap, setup_dependency, get_dependency, add_line, setup_lines,
  unwritten, fails, installed, install_dependencies, requirement_lines,
}

get-setup :
    (n name version : Bytes) (m : ScriptMap)
    → get_dependency n (setup_dependency name version m)
      ≡ (if eqb name n then version else get_dependency n m)
unfolding setup_dependency get_dependency
get-setup n name version [] = ground arith
get-setup n name version ((k, v) ∷ m) = replaced (get-setup n name version m) (eqb k name) refl
  where
    replaced :
        get_dependency n (setup_dependency name version m)
          ≡ (if eqb name n then version else get_dependency n m)
        → (b : Bool) → eqb k name ≡ b
        → get_dependency n
            (if b then (name, version) ∷ m else (k, v) ∷ setup_dependency name version m)
          ≡ (if eqb name n then version else if eqb k n then v else get_dependency n m)
    replaced ih true e = rw (eqb→eq k name e) (ground arith)
    replaced ih false e = ground (arith, ih, eqb→eq k n, eqb→eq name n, eqb_refl n, e)

-- The version that a line gives a package, or the one before.
abbrev pub from_line : Bytes → Bytes × Bytes → Bytes → Bytes
from_line n (name, version) old = if eqb name [] then old else if eqb name n then version else old

-- The version after all lines: the last line that names the package decides.
unfoldable pub listed : Bytes → List Bytes → Bytes → Bytes
unfolding extract_oneline_depency eqb
listed n [] old = old
listed n (l ∷ ls) old = listed n ls (from_line n (extract_oneline_depency l) old)

get-add :
    (n : Bytes) (nv : Bytes × Bytes) (m : ScriptMap)
    → get_dependency n (add_line nv m) ≡ from_line n nv (get_dependency n m)
get-add n (name, version) m = ground (arith, get-setup n name version m)

get-setup_lines :
    (n : Bytes) (ls : List Bytes) (m : ScriptMap)
    → get_dependency n (setup_lines ls m) ≡ listed n ls (get_dependency n m)
unfolding setup_lines listed
get-setup_lines n [] m = refl
get-setup_lines n (l ∷ ls) m =
    get-setup_lines n ls (add_line (extract_oneline_depency l) m)
    ∙ ap (listed n ls) (get-add n (extract_oneline_depency l) m)

-- Of requirements that are not empty, an installation by pip gives each package the version of the
-- last line that names it, or leaves it what it was if none does; where the requirements cannot be
-- written nothing changes and there is no error, and where pip fails nothing changes and its error
-- is returned.
pub install_dependencies_lists :
    (requirements e : Bytes) (m : ScriptMap) (n : Bytes)
    → requirements ≢ []
    → (get_dependency n (install_dependencies installed requirements m).0
        ≡ listed n (requirement_lines requirements) (get_dependency n m))
      × (install_dependencies unwritten requirements m ≡ (m, none))
      × (install_dependencies (fails e) requirements m ≡ (m, some e))
unfolding install_dependencies
install_dependencies_lists requirements e m n ne = (
  rw (eqb-nil requirements ne) (get-setup_lines n (requirement_lines requirements) m),
  rw (eqb-nil requirements ne),
  rw (eqb-nil requirements ne),
)
