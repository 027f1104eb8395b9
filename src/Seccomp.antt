-- ===== src/Seccomp.antt =====
-- internal/core/lib: the library that the interpreters load to lock themselves in. `InitSeccomp` of
-- python/add_seccomp.go and of nodejs/add_seccomp.go, and what they ask of the system, in order.
-- `lib.Seccomp` is one operation here: what libseccomp and the kernel make of the two lists is
-- theirs, and so is whether each operation fails.
pub mod Tables
pub mod TablesArm64
pub mod Order
pub mod Policy
pub mod Program
pub mod Loading
pub mod Locked
use dify_sandbox.Base.{
  ℕ, ◌≡◌, ℤ, pos, Bool, true, false, not, List, [], ◌∷◌, ◌++◌, map, Option, none, some, Bytes, eqb,
  if◌then◌else◌,
}
use dify_sandbox.Text.Split.{split}
use dify_sandbox.Text.Decimal.{atoi, Parsed, ParseError}
use Tables.{Arch, python_tables, nodejs_tables, setgroups_number}

-- What the library asks of the system.
pub data Op : Type 0 where
  chroot_here chdir_root no_new_privs : Op
  load_filter : (allowed errno : List ℤ) → Op
  no_groups : Op
  setgid setuid : ℕ → Op

-- The body of the loop over the parts of ALLOWED_SYSCALLS: what `Atoi` refuses is passed over.
abbrev pub add_parsed : Parsed ℤ → List ℤ → List ℤ
add_parsed (n, none) ns = n ∷ ns
add_parsed (n, some e) ns = ns

unfoldable pub parse_syscalls : List Bytes → List ℤ
parse_syscalls [] = []
parse_syscalls (p ∷ ps) = add_parsed (atoi p) (parse_syscalls ps)

abbrev pub sys_setgroups : Arch → ℤ
sys_setgroups arch = pos (setgroups_number arch)

abbrev pub ints : List ℕ → List ℤ
ints = map pos

-- The two lists of a library: the calls that are allowed, and those that fail with an error.
pub record Lists : Type 0 where
  pub allowed : List ℤ
  pub errno : List ℤ

abbrev pub overridden : Arch → Bytes → List ℤ
overridden arch env = parse_syscalls (split b',' env) ++ (sys_setgroups arch ∷ [])

-- The lists of the Python library, from ALLOWED_SYSCALLS and `enable_network`.
unfoldable pub python_lists : Arch → Bytes → Bool → Lists
unfolding parse_syscalls split eqb
python_lists arch env enable_network =
    let t = python_tables arch in
    if not (eqb env [])
    then record { allowed = overridden arch env; errno = ints t.error }
    else record {
      allowed = ints t.allow ++ (if enable_network then ints t.network else []);
      errno = ints t.error;
    }

-- The lists of the Node.js library; its error list is empty where ALLOWED_SYSCALLS is set.
unfoldable pub nodejs_lists : Arch → Bytes → Bool → Lists
unfolding parse_syscalls split eqb
nodejs_lists arch env enable_network =
    let t = nodejs_tables arch in
    if not (eqb env []) then record { allowed = overridden arch env; errno = [] } else record {
      allowed = ints t.allow ++ (if enable_network then ints t.network else []);
      errno = ints t.error;
    }

-- Operations one after the other, up to the first that fails: what was asked, and the error.
unfoldable pub attempt : (Op → Option Bytes) → List Op → List Op × Option Bytes
attempt fails [] = ([], none)
attempt fails (o ∷ os) = elim (fails o) [
  | some e ↦ (o ∷ [], some e)
  | none ↦ let (asked, e) = attempt fails os in (o ∷ asked, e)
]

abbrev pub lock_in :
    (Op → Option Bytes) → List Op × Option Bytes → Lists → ℕ → ℕ → List Op × Option Bytes
lock_in fails (asked, some e) ls uid gid = (asked, some e)
lock_in fails (asked, none) ls uid gid =
    let (more, e) =
      attempt fails (load_filter ls.allowed ls.errno ∷ no_groups ∷ setgid gid ∷ setuid uid ∷ []) in
    (asked ++ (no_new_privs ∷ more), e)

-- `InitSeccomp` with the lists of its language. The error of `SetNoNewPrivs` is not looked at.
unfoldable pub init_seccomp : (Op → Option Bytes) → Lists → ℕ → ℕ → List Op × Option Bytes
unfolding attempt
init_seccomp fails ls uid gid =
    lock_in fails (attempt fails (chroot_here ∷ chdir_root ∷ [])) ls uid gid
