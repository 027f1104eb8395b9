-- ===== src/UidPool.antt =====
-- internal/core/runner/uidpool/uid_pool.go: the pool of user identifiers, a buffered channel.
-- Identifiers are not negative in this program (10000 to 10999), so they are natural numbers here.
pub mod Ownership
pub mod Once
pub mod Refinement
use dify_sandbox.Base.{
  ℕ, zero, suc, ◌+◌, ◌-◌, ◌≡◌, Bool, true, false, ◌&&◌, List, [], ◌∷◌, ◌++◌, Option, none, some,
  Bytes, codes, length, leb, ltb, if◌then◌else◌, map, range_from,
}
use dify_sandbox.Text.Decimal.{format}

-- `pool` holds what is in the channel, the oldest entry first; its capacity is `max - min`.
pub record UidPool : Type 0 where
  pub pool : List ℕ
  pub min : ℕ
  pub max : ℕ

-- `NewUIDPool`; `none` is the panic of `make` with a negative size.
unfoldable pub new_uid_pool : ℕ → ℕ → Option UidPool
new_uid_pool min max =
    if ltb max min
    then none
    else some (record { pool = range_from min (max - min); min = min; max = max })

-- What `Acquire` does: it returns an identifier, or `ErrUIDPoolExhausted`, or it waits.
pub data Acquired : Type 0 where
  uid : ℕ → Acquired
  exhausted : Acquired
  waits : Acquired

-- `Acquire`: `done` says that the context is cancelled, and `choice` which case `select` takes
-- where both are ready.
unfoldable pub acquire : Bool → Bool → UidPool → Acquired × UidPool
acquire done choice p = elim p.pool [
  | [] ↦ (if done then exhausted else waits, p)
  | u ∷ rest ↦ if done && choice then (exhausted, p) else (uid u, record p { pool = rest })
]

-- `Release`: the send is refused out of range, and `none` says that it blocks on a full channel.
unfoldable pub release : ℕ → UidPool → Option UidPool
release u p =
    if leb p.min u && ltb u p.max
    then if ltb (length p.pool) (p.max - p.min)
      then some (record p { pool = p.pool ++ (u ∷ []) })
      else none
    else some p

-- `Len`
unfoldable pub len : UidPool → ℕ
len p = length p.pool

-- The line that `ensurePasswdEntries` writes for one identifier.
unfoldable pub passwd_entry : ℕ → Bytes
unfolding format
passwd_entry i =
    codes "sandbox"
    ++ (format i ++ (codes ":x:" ++ (format i ++ codes ":0::/nonexistent:/usr/sbin/nologin\n")))

-- `ensurePasswdEntries`: what is appended to /etc/passwd, if it can be opened.
unfoldable pub ensure_passwd_entries : Bool → ℕ → ℕ → List Bytes → List Bytes
unfolding passwd_entry
ensure_passwd_entries opens min max file =
    if opens then file ++ map passwd_entry (range_from min (max - min)) else file

-- The package's variables, and /etc/passwd.
pub record Global : Type 0 where
  pub global_pool : Option UidPool  -- `none` until `globalPoolOnce` has run
  pub passwd : List Bytes

-- `globalPoolOnce.Do` of `AcquireUID`; it does nothing from the second call on.
unfoldable pub once_acquire : Bool → Global → Global
unfolding new_uid_pool ensure_passwd_entries
once_acquire opens g = elim g.global_pool [
  | some p ↦ g
  | none ↦ record {
    global_pool = new_uid_pool 10000 11000;
    passwd = ensure_passwd_entries opens 10000 11000 g.passwd;
  }
]

-- `globalPoolOnce.Do` of `ReleaseUID`
unfoldable pub once_release : Global → Global
unfolding new_uid_pool
once_release g = elim g.global_pool [
  | some p ↦ g
  | none ↦ record g { global_pool = new_uid_pool 10000 11000 }
]

-- `globalPool.Acquire`; with no pool it would be a nil dereference, which `none` stands for.
unfoldable pub acquire_in : Bool → Bool → Global → Option (Acquired × Global)
unfolding acquire
acquire_in done choice g = elim g.global_pool [
  | none ↦ none
  | some p ↦ let (a, p') = acquire done choice p in some (a, record g { global_pool = some p' })
]

-- `AcquireUID`
unfoldable pub acquire_uid : Bool → Bool → Bool → Global → Option (Acquired × Global)
unfolding once_acquire acquire_in
acquire_uid opens done choice g = acquire_in done choice (once_acquire opens g)

-- `globalPool.Release`; `none` is a send that blocks.
unfoldable pub release_in : ℕ → Global → Option Global
unfolding release
release_in u g = elim g.global_pool [
  | none ↦ none
  | some p ↦ elim (release u p) [
    | none ↦ none
    | some p' ↦ some (record g { global_pool = some p' })
  ]
]

-- `ReleaseUID`
unfoldable pub release_uid : ℕ → Global → Option Global
unfolding once_release release_in
release_uid u g = release_in u (once_release g)
