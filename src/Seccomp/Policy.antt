-- ===== src/Seccomp/Policy.antt =====
-- Which calls the filter is told to allow.
use dify_sandbox.Base.{
  eqb_ℤ, ◌||◌, ◌&&◌, ◌≡◌, refl, ℤ, Bool, true, false, List, [], ◌∷◌, ◌++◌, map, All, eqb-nil,
}
use dify_sandbox.Text.Decimal.{itoa, InInt64, atoi-itoa}
use dify_sandbox.Text.Fields.{comma_list}
use dify_sandbox.Text.CommaList.{split-comma_list, comma_list-ne-nil}
use dify_sandbox.Seccomp.{parse_syscalls, python_lists, nodejs_lists, ints, sys_setgroups}
use dify_sandbox.Seccomp.Tables.{Arch, amd64, arm64, python_tables}

-- Numbers are read back from their prints.
parse_syscalls-itoa : (xs : List ℤ) → All InInt64 xs → parse_syscalls (map itoa xs) ≡ xs
unfolding parse_syscalls
parse_syscalls-itoa [] h = refl
parse_syscalls-itoa (x ∷ xs) (hx, h) = rw (atoi-itoa x hx, parse_syscalls-itoa xs h)

-- What the runner writes into ALLOWED_SYSCALLS for a configured list that is not empty is what
-- the library reads: both languages allow the listed calls in their order, every number of 64 bits
-- among them, and SETGROUPS behind; nothing of the built-in tables is added, network or not. The
-- error list stays for Python and is empty for Node.js.
pub allowed_syscalls_roundtrip :
    (arch : Arch) (x : ℤ) (xs : List ℤ) (net : Bool)
    → All InInt64 (x ∷ xs)
    → (python_lists arch (comma_list (x ∷ xs)) net ≡ record {
      allowed = (x ∷ xs) ++ (sys_setgroups arch ∷ []);
      errno = ints (python_tables arch).error;
    })
      × (nodejs_lists arch (comma_list (x ∷ xs)) net
          ≡ record { allowed = (x ∷ xs) ++ (sys_setgroups arch ∷ []); errno = [] })
unfolding python_lists nodejs_lists
allowed_syscalls_roundtrip arch x xs net h = (
  rw (eqb-nil _ (comma_list-ne-nil x xs), split-comma_list x xs, parse_syscalls-itoa (x ∷ xs) h),
  rw (eqb-nil _ (comma_list-ne-nil x xs), split-comma_list x xs, parse_syscalls-itoa (x ∷ xs) h),
)

-- Is the number in the list?
unfoldable pub lists : ℤ → List ℤ → Bool
lists z [] = false
lists z (x ∷ xs) = eqb_ℤ z x || lists z xs

-- socket, connect, bind, listen, accept, sendto, recvfrom, getsockname, recvmsg, getpeername,
-- setsockopt, getsockopt, and sendmsg on amd64, sendmmsg on arm64
unfoldable pub network_calls : Arch → List ℤ
network_calls amd64 = ints (41 ∷ 42 ∷ 49 ∷ 50 ∷ 43 ∷ 44 ∷ 45 ∷ 51 ∷ 47 ∷ 52 ∷ 54 ∷ 55 ∷ 46 ∷ [])
network_calls arm64 =
    ints (198 ∷ 203 ∷ 200 ∷ 201 ∷ 202 ∷ 206 ∷ 207 ∷ 204 ∷ 212 ∷ 205 ∷ 208 ∷ 209 ∷ 269 ∷ [])

-- setgroups, setgid and setuid
unfoldable pub leave_root_calls : Arch → List ℤ
leave_root_calls amd64 = ints (116 ∷ 106 ∷ 105 ∷ [])
leave_root_calls arm64 = ints (159 ∷ 144 ∷ 146 ∷ [])

-- clone, clone3, execve, ptrace and mount
unfoldable pub forbidden_calls : Arch → List ℤ
forbidden_calls amd64 = ints (56 ∷ 435 ∷ 59 ∷ 101 ∷ 165 ∷ [])
forbidden_calls arm64 = ints (220 ∷ 435 ∷ 221 ∷ 117 ∷ 40 ∷ [])

unfoldable pub any_of : List ℤ → List ℤ → Bool
unfolding lists
any_of [] ls = false
any_of (x ∷ xs) ls = lists x ls || any_of xs ls

unfoldable pub all_of : List ℤ → List ℤ → Bool
unfolding lists
all_of [] ls = true
all_of (x ∷ xs) ls = lists x ls && all_of xs ls

-- What a built-in list allows, with the network or without.
pub record Restricts (arch : Arch) (net : Bool) (allowed : List ℤ) : Type 0 where
  pub no_network_call : any_of (network_calls arch) allowed ≡ net
  pub each_network_call : all_of (network_calls arch) allowed ≡ net
  pub leaves_root : all_of (leave_root_calls arch) allowed ≡ true
  pub forbids : any_of (forbidden_calls arch) allowed ≡ false

-- On both architectures, without ALLOWED_SYSCALLS, socket, connect, bind, listen, accept, sendto,
-- recvfrom, getsockname, recvmsg, getpeername, setsockopt, getsockopt and sendmsg (on arm64 sendmmsg)
-- are each allowed by neither library if the network is disabled and by both if it is enabled; setgroups, setgid and setuid,
-- with which the libraries leave root, are allowed by both either way; clone, clone3, execve, ptrace
-- and mount never are.
pub default_policy :
    (arch : Arch) (net : Bool)
    → Restricts arch net (python_lists arch [] net).allowed
      × Restricts arch net (nodejs_lists arch [] net).allowed
unfolding python_lists nodejs_lists any_of all_of network_calls leave_root_calls forbidden_calls
default_policy amd64 true = (
  record { no_network_call = refl; each_network_call = refl; leaves_root = refl; forbids = refl },
  record { no_network_call = refl; each_network_call = refl; leaves_root = refl; forbids = refl },
)
default_policy amd64 false = (
  record { no_network_call = refl; each_network_call = refl; leaves_root = refl; forbids = refl },
  record { no_network_call = refl; each_network_call = refl; leaves_root = refl; forbids = refl },
)
default_policy arm64 true = (
  record { no_network_call = refl; each_network_call = refl; leaves_root = refl; forbids = refl },
  record { no_network_call = refl; each_network_call = refl; leaves_root = refl; forbids = refl },
)
default_policy arm64 false = (
  record { no_network_call = refl; each_network_call = refl; leaves_root = refl; forbids = refl },
  record { no_network_call = refl; each_network_call = refl; leaves_root = refl; forbids = refl },
)
