-- ===== src/Seccomp/Order.antt =====
-- In which order the library gives its rights up.
use dify_sandbox.Base.{
  ℕ, ◌≡◌, refl, List, [], ◌∷◌, ◌++◌, append_assoc, append-nil, sym, ◌∙◌, Option, none, some, Bytes,
  arith, ap, ◌↔◌,
}
use dify_sandbox.Seccomp.{
  Op, chroot_here, chdir_root, no_new_privs, load_filter, no_groups, setgid, setuid, Lists, attempt,
  lock_in, init_seccomp,
}

-- What has to succeed.
pub record AllSucceed (fails : Op → Option Bytes) (ls : Lists) (uid gid : ℕ) : Type 0 where
  pub root : fails chroot_here ≡ none
  pub dir : fails chdir_root ≡ none
  pub filter : fails (load_filter ls.allowed ls.errno) ≡ none
  pub groups : fails no_groups ≡ none
  pub group : fails (setgid gid) ≡ none
  pub user : fails (setuid uid) ≡ none

-- The whole sequence.
abbrev pub sequence : Lists → ℕ → ℕ → List Op
sequence ls uid gid =
    chroot_here
    ∷ chdir_root
    ∷ no_new_privs
    ∷ load_filter ls.allowed ls.errno
    ∷ no_groups
    ∷ setgid gid
    ∷ setuid uid
    ∷ []

-- `InitSeccomp` returns no error exactly if each operation but the setting of no_new_privs succeeds
-- and it has asked for all seven in order, the filter before the group and the user.
init_seccomp_succeeds :
    (fails : Op → Option Bytes) (ls : Lists) (uid gid : ℕ)
    → (init_seccomp fails ls uid gid).1 ≡ none
      ↔ AllSucceed fails ls uid gid × ((init_seccomp fails ls uid gid).0 ≡ sequence ls uid gid)
unfolding init_seccomp
init_seccomp_succeeds fails ls uid gid = (λ h. ground arith, λ h. ground arith)

abbrev Front : List Op → List Op × Option Bytes → Type 0
Front os (asked, e) = (rest : List Op) × (os ≡ asked ++ rest) × (e ≡ none → rest ≡ [])

-- A list of operations is what was asked for and a rest, which is empty where no error came.
attempt-Front : (fails : Op → Option Bytes) (os : List Op) → Front os (attempt fails os)
unfolding attempt
attempt-Front fails [] = ([], refl, λ h. refl)
attempt-Front fails (o ∷ os) = step (fails o) (attempt fails os) (attempt-Front fails os)
  where
    step :
        (r : Option Bytes) (a : List Op × Option Bytes)
        → Front os a
        → Front (o ∷ os) (elim r [ some e ↦ (o ∷ [], some e) | none ↦ (o ∷ a.0, a.1) ])
    step none (asked, e) (rest, eq, ne) = (rest, ap (λ l. o ∷ l) eq, ne)
    step (some e) a h = (os, refl, λ h. ground arith)

abbrev tail : Lists → ℕ → ℕ → List Op
tail ls uid gid = load_filter ls.allowed ls.errno ∷ no_groups ∷ setgid gid ∷ setuid uid ∷ []

joined :
    (fails : Op → Option Bytes) (ls : Lists) (uid gid : ℕ) (a : List Op × Option Bytes)
    → Front (chroot_here ∷ chdir_root ∷ []) a
    → (rest : List Op) × (sequence ls uid gid ≡ (lock_in fails a ls uid gid).0 ++ rest)
joined fails ls uid gid (asked, some e) (rest, eq, ne) = (
  rest ++ (no_new_privs ∷ tail ls uid gid),
  ap (λ l. l ++ (no_new_privs ∷ tail ls uid gid)) eq ∙ append_assoc asked rest _,
)
joined fails ls uid gid (asked, none) (rest, eq, ne) =
    let (more, rest_eq, none_left) = attempt-Front fails (tail ls uid gid) in
    (
      more,
      ap (λ l. l ++ (no_new_privs ∷ tail ls uid gid))
            (eq ∙ ap (λ r. asked ++ r) (ne refl) ∙ append-nil asked)
          ∙ ap (λ l. asked ++ (no_new_privs ∷ l)) rest_eq
          ∙ sym (append_assoc asked (no_new_privs ∷ (attempt fails (tail ls uid gid)).0) more),
    )

-- Whatever fails, what was asked for is the front of the sequence: no order is changed, and
-- behind the operation whose error is returned nothing is tried.
init_seccomp_stops :
    (fails : Op → Option Bytes) (ls : Lists) (uid gid : ℕ)
    → (rest : List Op) × (sequence ls uid gid ≡ (init_seccomp fails ls uid gid).0 ++ rest)
unfolding init_seccomp
init_seccomp_stops fails ls uid gid =
    joined fails ls uid gid _ (attempt-Front fails (chroot_here ∷ chdir_root ∷ []))
