-- ===== src/Seccomp/Locked.antt =====
-- `InitSeccomp` together with the filter program that `lib.Seccomp` loads for it.
use dify_sandbox.Base.{
  ℕ, Bool, ◌≡◌, sym, subst, inl, inr, ◌↔◌, List, [], ◌∷◌, Option, none, some, Bytes, length, take,
  All, arith,
}
use dify_sandbox.Seccomp.{
  Op, chroot_here, chdir_root, load_filter, no_groups, setgid, setuid, Lists, attempt, init_seccomp,
  python_lists, nodejs_lists,
}
use dify_sandbox.Seccomp.Tables.{Arch}
use dify_sandbox.Seccomp.Order.{sequence}
use dify_sandbox.Seccomp.Program.{
  SockFilter, Calls, Outcome, failed, panics, waits, handed_over, seccomp,
}
use dify_sandbox.Seccomp.Loading.{IsFilter, Exports, Loads, seccomp-take}

-- How `InitSeccomp` ends: what it asked for with the error that it returns, or not at all, since
-- `lib.Seccomp` panics or waits.
pub data Locked : Type 0 where
  returned : List Op → Option Bytes → Locked
  panicked hanging : Locked

-- `err = lib.Seccomp(...)`, among the other operations.
abbrev pub with_filter : Outcome → (Op → Option Bytes) → Op → Option Bytes
with_filter (failed e) fails (load_filter a b) = some e
with_filter o fails (load_filter a b) = none
with_filter o fails op = fails op

abbrev pub ended_by : Outcome → List Op × Option Bytes → List Op × Option Bytes → Locked
ended_by panics (before, none) (asked, e) = panicked
ended_by waits (before, none) (asked, e) = hanging
ended_by o before (asked, e) = returned asked e

-- `InitSeccomp`, where `c` says what the calls of `lib.Seccomp` answer, and `fails` which of the
-- other operations fail.
unfoldable pub lock : Calls → (Op → Option Bytes) → Lists → ℕ → ℕ → Locked
unfolding attempt init_seccomp seccomp
lock c fails ls uid gid =
    ended_by (seccomp c ls) (attempt fails (chroot_here ∷ chdir_root ∷ []))
      (init_seccomp (with_filter (seccomp c ls) fails) ls uid gid)

-- `InitSeccomp` of the Python library
unfoldable pub python_init_seccomp :
    Calls → (Op → Option Bytes) → Arch → Bytes → ℕ → ℕ → Bool → Locked
unfolding lock python_lists
python_init_seccomp c fails arch env uid gid enable_network =
    lock c fails (python_lists arch env enable_network) uid gid

-- `InitSeccomp` of the Node.js library
unfoldable pub nodejs_init_seccomp :
    Calls → (Op → Option Bytes) → Arch → Bytes → ℕ → ℕ → Bool → Locked
unfolding lock nodejs_lists
nodejs_init_seccomp c fails arch env uid gid enable_network =
    lock c fails (nodejs_lists arch env enable_network) uid gid

-- How `DifySeccomp` of cmd/lib/python/main.go and cmd/lib/nodejs/main.go ends: it returns to the
-- script, which goes on to the code of the user, or the process dies of a panic, or it waits.
pub data Entered : Type 0 where
  entered : List Op → Entered
  died stays : Entered

abbrev pub enter : Locked → Entered
enter (returned asked none) = entered asked
enter (returned asked (some e)) = died
enter panicked = died
enter hanging = stays

unfoldable pub python_dify_seccomp :
    Calls → (Op → Option Bytes) → Arch → Bytes → ℕ → ℕ → Bool → Entered
unfolding python_init_seccomp
python_dify_seccomp c fails arch env uid gid enable_network =
    enter (python_init_seccomp c fails arch env uid gid enable_network)

unfoldable pub nodejs_dify_seccomp :
    Calls → (Op → Option Bytes) → Arch → Bytes → ℕ → ℕ → Bool → Entered
unfolding nodejs_init_seccomp
nodejs_dify_seccomp c fails arch env uid gid enable_network =
    enter (nodejs_init_seccomp c fails arch env uid gid enable_network)

enter-returned :
    (l : Locked) (asked : List Op) → (enter l ≡ entered asked) ↔ (l ≡ returned asked none)
enter-returned (returned os none) asked = (λ h. ground arith, λ h. ground arith)
enter-returned (returned os (some e)) asked = (λ h. ground arith, λ h. ground arith)
enter-returned panicked asked = (λ h. ground arith, λ h. ground arith)
enter-returned hanging asked = (λ h. ground arith, λ h. ground arith)

-- The operations whose error is looked at, but for the filter.
pub record OthersSucceed (fails : Op → Option Bytes) (uid gid : ℕ) : Type 0 where
  pub root : fails chroot_here ≡ none
  pub dir : fails chdir_root ≡ none
  pub groups : fails no_groups ≡ none
  pub group : fails (setgid gid) ≡ none
  pub user : fails (setuid uid) ≡ none

-- The kernel answers without an errno: it has attached the filters, or, with the id of a thread, none.
abbrev pub Unnoticed : Calls → List SockFilter → Type 0
Unnoticed c fs = (r1 : ℕ) × (c.seccomp fs (length fs) ≡ inr r1)

abbrev IsHandedOver : Outcome → Type 0
IsHandedOver (handed_over fs n) = Unit
IsHandedOver _ = ⊥

ended_by-IsHandedOver :
    (o : Outcome) (fails : Op → Option Bytes) (ls : Lists) (uid gid : ℕ) (asked : List Op)
    → (ended_by o
          (attempt fails (chroot_here ∷ chdir_root ∷ []))
          (init_seccomp (with_filter o fails) ls uid gid)
        ≡ returned asked none)
      ↔ (asked ≡ sequence ls uid gid) × OthersSucceed fails uid gid × IsHandedOver o
unfolding attempt init_seccomp
ended_by-IsHandedOver (failed e) fails ls uid gid asked = (λ h. ground arith, λ h. ground arith)
ended_by-IsHandedOver panics fails ls uid gid asked = (λ h. ground arith, λ h. ground arith)
ended_by-IsHandedOver waits fails ls uid gid asked = (λ h. ground arith, λ h. ground arith)
ended_by-IsHandedOver (handed_over fs n) fails ls uid gid asked =
    (λ h. ground arith, λ h. ground arith)

Loads-IsHandedOver :
    (c : Calls) (fs : List SockFilter) (o : Outcome)
    → Loads c fs o
    → IsHandedOver o ↔ Unnoticed c fs
Loads-IsHandedOver c fs o (inl (r1, answer, e)) =
    (λ h. (r1, answer), λ h. subst IsHandedOver (sym e) tt)
Loads-IsHandedOver c fs o (inr (t, refused, e)) =
    (λ h. absurd (subst IsHandedOver e h), λ h. ground arith)

lock_succeeds :
    (c : Calls) (fails : Op → Option Bytes) (ls : Lists) (uid gid : ℕ) (asked : List Op)
    (f : SockFilter) (fs : List SockFilter)
    → Exports c ls (f ∷ fs)
    → All IsFilter (f ∷ fs)
    → (lock c fails ls uid gid ≡ returned asked none)
      ↔ (asked ≡ sequence ls uid gid)
        × OthersSucceed fails uid gid
        × Unnoticed c (take 512 (f ∷ fs))
unfolding lock
lock_succeeds c fails ls uid gid asked f fs v h =
    let ended = ended_by-IsHandedOver (seccomp c ls) fails ls uid gid asked in
    let accepted =
      Loads-IsHandedOver c (take 512 (f ∷ fs)) (seccomp c ls) (seccomp-take c ls f fs v h) in
    (
      λ e. let (a, b, l) = ended.0 e in (a, b, accepted.0 l),
      λ (a, b, n). ended.1 (a, b, accepted.1 n),
    )

-- What the success of an `InitSeccomp` with the lists `ls` and the exported program `fs` means.
abbrev pub IsLocked :
    Calls → (Op → Option Bytes) → Lists → ℕ → ℕ → List Op → List SockFilter → Type 0
IsLocked c fails ls uid gid asked fs =
    (asked ≡ sequence ls uid gid) × OthersSucceed fails uid gid × Unnoticed c (take 512 fs)

module _ (c : Calls) (fails : Op → Option Bytes) (arch : Arch) (env : Bytes) (uid gid : ℕ)
    (net : Bool) (asked : List Op) where
  -- Where libseccomp exports for the lists of each library a program of filters whose fields fit the
  -- C struct, `DifySeccomp` of that library returns to the script exactly if the kernel answers without
  -- an errno to this program, cut off behind its first 512 filters, each other operation but the
  -- setting of no_new_privs succeeds, and all seven were asked for in order: the code of the user does
  -- not run before the rights are given up. The number that the kernel answers makes no difference,
  -- also where it is the id of a thread and no filter is attached.
  pub dify_seccomp_enters :
      (f g : SockFilter) (fs gs : List SockFilter)
      → Exports c (python_lists arch env net) (f ∷ fs)
      → Exports c (nodejs_lists arch env net) (g ∷ gs)
      → All IsFilter (f ∷ fs)
      → All IsFilter (g ∷ gs)
      → ((python_dify_seccomp c fails arch env uid gid net ≡ entered asked)
          ↔ IsLocked c fails (python_lists arch env net) uid gid asked (f ∷ fs))
        × ((nodejs_dify_seccomp c fails arch env uid gid net ≡ entered asked)
            ↔ IsLocked c fails (nodejs_lists arch env net) uid gid asked (g ∷ gs))
  unfolding python_dify_seccomp nodejs_dify_seccomp python_init_seccomp nodejs_init_seccomp
  dify_seccomp_enters f g fs gs v w h k = (
    chain (enter-returned _ asked)
        (lock_succeeds c fails (python_lists arch env net) uid gid asked f fs v h),
    chain (enter-returned _ asked)
        (lock_succeeds c fails (nodejs_lists arch env net) uid gid asked g gs w k),
  )
    where
      chain : {A B C : Type 0} → A ↔ B → B ↔ C → A ↔ C
      chain (f, g) (h, k) = (λ a. h (f a), λ c. g (k c))
