-- ===== src/Tests/Files.antt =====
-- The directory of a script of Node.js, on a small disk.
use dify_sandbox.Base.{◌≡◌, ◌⊎◌, inl, inr, refl, List, [], ◌∷◌, ◌++◌, none, some, Bytes, codes, eqb}
use dify_sandbox.Runner.{nodejs_bootstrap}
use dify_sandbox.Runner.NodeRoot.{
  Place, Node, directory, regular, Files, strip, FileCalls, lib_place, place_nodejs, put, put_dirs,
  graft, Documented,
}
use dify_sandbox.Runner.NodeRoot.Project.{modules, Released}
use dify_sandbox.Runner.NodeRoot.Nested.{Furnished, place_nodejs-Furnished}

-- The last name of a path.
unfoldable base : Place → Bytes
base [] = []
base (a ∷ []) = a
base (a ∷ (b ∷ p)) = base (b ∷ p)

base_append : (p : Place) (name : Bytes) → base (p ++ (name ∷ [])) ≡ name
unfolding base
base_append [] name = refl
base_append (a ∷ []) name = refl
base_append (a ∷ (b ∷ p)) name = base_append (b ∷ p) name

copied_to : Place → Place → Files → Bytes ⊎ Files
copied_to src dst fs = elim (fs src) [
  | none ↦ inl (codes "no such file")
  | some (regular content) ↦ inr (put dst (regular content) fs)
  | some directory ↦ elim (fs dst) [
    | some directory ↦ inr (graft src (dst ++ (base src ∷ [])) fs)
    | some (regular content) ↦ inl (codes "not a directory")
    | none ↦ inr (graft src dst fs)
  ]
]

abbrev disk : FileCalls
disk = record {
  mkdir = λ p fs. inr (put p directory fs);
  mkdir_all = λ p fs. inr (put_dirs p fs);
  cp = copied_to;
  write_file = λ p content fs. inr (put p (regular content) fs);
}

disk-Documented : Documented disk
unfolding copied_to
disk-Documented = record {
  mkdir = λ p fs h k. refl;
  mkdir_all = λ p fs h. refl;
  cp_file = λ src dst content fs h k l. rw (h, copied_to) refl;
  cp_dir = λ above name dst fs h k l. rw (h, k, base_append above name, copied_to) refl;
  write_file = λ p content fs h k. refl;
}

-- A table of what is where.
unfoldable at : List (Place × Node) → Files
unfolding strip
at [] q = none
at ((p, n) ∷ rest) q = put p n (at rest) q

abbrev released : Files
released = at (
    ([], directory)
    ∷ (codes "tmp" ∷ [], directory)
    ∷ (modules, directory)
    ∷ (modules ++ (codes "test.js" ∷ []), regular (codes "old"))
    ∷ (lib_place, regular (codes "ELF"))
    ∷ (codes "etc" ∷ codes "hosts" ∷ [], regular (codes "localhost"))
    ∷ [])

released-Released : Released (codes "ELF") (codes "1-2") released
unfolding at put strip eqb
released-Released = record {
  top = refl;
  tmp = refl;
  project = refl;
  test = tt;
  library = refl;
  files = (
    inr (codes "ELF", refl),
    (inl refl, (inl refl, (inl refl, (inl refl, (inr (codes "localhost", refl), tt))))),
  );
  new = λ rest. refl;
}

place_nodejs-Furnished_example :
    (after : Files) × (place_nodejs disk
        (λ fs. inl (codes "panic"))
        (codes "script")
        (codes "pre")
        (codes "1-2")
        released
      ≡ inr after)
    × Furnished (nodejs_bootstrap (codes "script") (codes "pre")) (codes "1-2") released after
place_nodejs-Furnished_example =
    place_nodejs-Furnished disk disk-Documented (λ fs. inl (codes "panic")) (codes "ELF")
      (codes "script") (codes "pre") (codes "1-2") released released-Released
