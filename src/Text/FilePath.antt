-- ===== src/Text/FilePath.antt =====
-- `path/filepath` on Linux: `Clean` by its rules on path elements, `IsAbs`, and `Join`.
use dify_sandbox.Base.{
  ◌≡◌, refl, Bool, true, false, ◌||◌, List, [], ◌∷◌, ◌++◌, Bytes, codes, eqb, has_prefix,
  if◌then◌else◌,
}
use dify_sandbox.Text.Split.{split, join}

-- `filepath.IsAbs`
unfoldable pub is_abs : Bytes → Bool
unfolding has_prefix
is_abs path = has_prefix path (codes "/")

-- `..` takes the element before it away; at the root it is dropped.
abbrev pub go_up : Bool → List Bytes → List Bytes
go_up true [] = []
go_up false [] = codes ".." ∷ []
go_up rooted (top ∷ rest) = if eqb top (codes "..") then codes ".." ∷ top ∷ rest else rest

-- The elements that are kept, the last one first.
unfoldable pub elements : Bool → List Bytes → List Bytes → List Bytes
elements rooted [] kept = kept
elements rooted (e ∷ es) kept = elements rooted es (
    if eqb e [] || eqb e (codes ".")
    then kept
    else if eqb e (codes "..")
    then go_up rooted kept
    else e ∷ kept)

abbrev pub reversed : List Bytes → List Bytes → List Bytes
reversed [] out = out
reversed (x ∷ xs) out = reversed xs (x ∷ out)

abbrev pub spelled : Bool → List Bytes → Bytes
spelled true es = codes "/" ++ join (codes "/") es
spelled false [] = codes "."
spelled false (e ∷ es) = join (codes "/") (e ∷ es)

-- `filepath.Clean`
unfoldable pub clean : Bytes → Bytes
unfolding is_abs elements split join eqb
clean path =
    let rooted = is_abs path in spelled rooted (reversed (elements rooted (split b'/' path) []) [])

clean_dots : clean (codes "/usr//lib/./x/../python3/") ≡ codes "/usr/lib/python3"
unfolding clean
clean_dots = refl

clean_relative : clean (codes "json/../../a") ≡ codes "../a"
unfolding clean
clean_relative = refl

clean_root : (clean (codes "/..") ≡ codes "/") × (clean [] ≡ codes ".")
unfolding clean
clean_root = (refl, refl)
