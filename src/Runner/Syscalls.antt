-- ===== src/Runner/Syscalls.antt =====
-- The configured calls and the proxies, from the server's environment to that of a run.
use dify_sandbox.Base.{
  ◌≡◌, ◌∙◌, refl, ap, sym, subst, ℤ, Bool, List, [], ◌∷◌, ◌++◌, map, Bytes, codes, eqb-nil, arith,
  All,
}
use dify_sandbox.Text.Split.{join}
use dify_sandbox.Text.Decimal.{itoa, InInt64, atoi-itoa}
use dify_sandbox.Text.Fields.{comma_list}
use dify_sandbox.Text.CommaList.{comma_list-join, comma_list-ne-nil, split-comma_list}
use dify_sandbox.Config.{
  Configuration, good, read_syscalls, with_syscalls, with_run_env, with_proxies, finish_config,
}
use dify_sandbox.Runner.{python_env, nodejs_env, proxy_env, syscalls_env, godebug}
use dify_sandbox.Seccomp.{python_lists, nodejs_lists, sys_setgroups}
use dify_sandbox.Seccomp.Tables.{Arch}
use dify_sandbox.Seccomp.Policy.{allowed_syscalls_roundtrip}

read_syscalls-itoa : (xs : List ℤ) → All InInt64 xs → read_syscalls (map itoa xs) ≡ good xs
unfolding read_syscalls
read_syscalls-itoa [] h = refl
read_syscalls-itoa (x ∷ xs) (hx, h) = rw (atoi-itoa x hx, read_syscalls-itoa xs h)

-- The numbers of a comma list, as `InitConfig` reads them.
pub with_syscalls-comma_list :
    (x : ℤ) (xs : List ℤ) (c : Configuration)
    → All InInt64 (x ∷ xs)
    → with_syscalls (comma_list (x ∷ xs)) c ≡ good (record c { allowed_syscalls = x ∷ xs })
unfolding with_syscalls
with_syscalls-comma_list x xs c h =
    rw (eqb-nil _ (comma_list-ne-nil x xs), split-comma_list x xs, read_syscalls-itoa (x ∷ xs) h)

with_proxies-allowed :
    (env : Bytes → Bytes) (c : Configuration)
    → (with_proxies env c).allowed_syscalls ≡ c.allowed_syscalls
unfolding with_proxies
with_proxies-allowed env c = ground arith

abbrev final : (Bytes → Bytes) → Configuration → List ℤ → Configuration
final env c0 calls = with_proxies env (record (with_run_env env c0) { allowed_syscalls = calls })

final-allowed :
    (env : Bytes → Bytes) (c0 : Configuration) (calls : List ℤ)
    → (final env c0 calls).allowed_syscalls ≡ calls
final-allowed env c0 calls =
    with_proxies-allowed env (record (with_run_env env c0) { allowed_syscalls = calls })

finished_with :
    (env : Bytes → Bytes) (c0 : Configuration) (x : ℤ) (xs : List ℤ)
    → All InInt64 (x ∷ xs)
    → env (codes "ALLOWED_SYSCALLS") ≡ comma_list (x ∷ xs)
    → finish_config env c0 ≡ good (final env c0 (x ∷ xs))
unfolding finish_config
finished_with env c0 x xs h set = rw (set, with_syscalls-comma_list x xs (with_run_env env c0) h)

-- The environments of the runs, with what the libraries read from them.
pub record Filtered (c : Configuration) (text : Bytes) (calls : List ℤ) : Type 0 where
  pub python : python_env c ≡ (godebug ∷ proxy_env c) ++ ((codes "ALLOWED_SYSCALLS=" ++ text) ∷ [])
  pub nodejs : nodejs_env c ≡ godebug ∷ (codes "ALLOWED_SYSCALLS=" ++ text) ∷ []
  pub python_filter :
      (arch : Arch) (net : Bool)
      → (python_lists arch text net).allowed ≡ calls ++ (sys_setgroups arch ∷ [])
  pub nodejs_filter :
      (arch : Arch) (net : Bool)
      → (nodejs_lists arch text net).allowed ≡ calls ++ (sys_setgroups arch ∷ [])

configured-Filtered :
    (c : Configuration) (x : ℤ) (xs : List ℤ)
    → All InInt64 (x ∷ xs)
    → c.allowed_syscalls ≡ x ∷ xs
    → Filtered c (comma_list (x ∷ xs)) (x ∷ xs)
unfolding python_env nodejs_env syscalls_env
configured-Filtered c x xs h eq = record {
  python = rw eq;
  nodejs = rw eq;
  python_filter = λ arch net. ap (λ l. l.allowed) (allowed_syscalls_roundtrip arch x xs net h).0;
  nodejs_filter = λ arch net. ap (λ l. l.allowed) (allowed_syscalls_roundtrip arch x xs net h).1;
}

-- If the server's ALLOWED_SYSCALLS is a list of 64-bit numbers with commas between them, the end of
-- `InitConfig` returns a configuration, whatever the file and the rest of the environment, with
-- which both runners set ALLOWED_SYSCALLS of their child to the same text, from which both
-- libraries, on both architectures and network or not, read a filter that allows these numbers and
-- SETGROUPS, and no other.
pub syscalls_reach_filter :
    (env : Bytes → Bytes) (c0 : Configuration) (x : ℤ) (xs : List ℤ)
    → All InInt64 (x ∷ xs)
    → env (codes "ALLOWED_SYSCALLS") ≡ join (codes ",") (map itoa (x ∷ xs))
    → (c : Configuration) × (finish_config env c0 ≡ good c)
      × Filtered c (env (codes "ALLOWED_SYSCALLS")) (x ∷ xs)
syscalls_reach_filter env c0 x xs h set =
    let same = set ∙ sym (comma_list-join x xs) in
    let c = final env c0 (x ∷ xs) in
    (
      c,
      finished_with env c0 x xs h same,
      subst (λ t. Filtered c t (x ∷ xs)) (sym same)
          (configured-Filtered c x xs h (final-allowed env c0 (x ∷ xs))),
    )
