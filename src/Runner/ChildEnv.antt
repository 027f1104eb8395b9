-- ===== src/Runner/ChildEnv.antt =====
-- What a child finds in its environment, `cmd.Env` of internal/core/runner/python/python.go and of
-- internal/core/runner/nodejs/nodejs.go.
use dify_sandbox.Base.{
  suc, ◌≡◌, ◌≢◌, ◌⊎◌, inl, inr, ap, ◌∙◌, eqb→eq, refl, ℤ, Bool, true, false, not, List, [], ◌∷◌,
  ◌++◌, Option, none, some, Bytes, codes, eqb, has_prefix, length, drop, Lacks, All, All-append,
  ◌||◌, if◌then◌else◌, arith,
}
use dify_sandbox.Text.Fields.{comma_list}
use dify_sandbox.Config.{Configuration}
use dify_sandbox.Runner.{variable_if_set, proxy_env, syscalls_env, python_env, nodejs_env}

-- The value of a variable, as the C library finds it: that of the first entry `name=value`.
unfoldable pub getenv : Bytes → List Bytes → Option Bytes
unfolding has_prefix
getenv name [] = none
getenv name (e ∷ es) =
    let rest = getenv name es in
    if has_prefix e (name ++ codes "=") then some (drop (suc (length name)) e) else rest

-- A proxy: the SOCKS proxy goes before the one of the protocol.
abbrev pub proxy : Bytes → Bytes → Option Bytes
proxy [] [] = none
proxy [] own = some own
proxy socks own = some socks

abbrev pub call_list : List ℤ → Option Bytes
call_list [] = none
call_list (n ∷ ns) = some (comma_list (n ∷ ns))

-- Up to its `=`, an entry is its key.
prefix-key :
    (k name v : Bytes)
    → Lacks b'=' k
    → Lacks b'=' name
    → has_prefix (k ++ (b'=' ∷ v)) (name ++ codes "=") ≡ eqb k name
unfolding has_prefix eqb
prefix-key [] [] v hk hn = ground arith
prefix-key [] (n ∷ name) v hk (hn, hs) = ground arith
prefix-key (c ∷ k) [] v (hc, hk) hn = ground arith
prefix-key (c ∷ k) (n ∷ name) v (hc, hk) (hn, hs) = ground (arith, prefix-key k name v hk hs)

-- Entries whose keys are among `ks` say nothing about another name.
abbrev Keyed : List Bytes → Bytes → Type 0
Keyed [] e = ⊥
Keyed (k ∷ ks) e = ((v : Bytes) × (e ≡ k ++ (b'=' ∷ v))) ⊎ Keyed ks e

has_prefix-Keyed :
    (ks : List Bytes) (name e : Bytes)
    → All (Lacks b'=') ks
    → Lacks b'=' name
    → All (λ k. k ≢ name) ks
    → Keyed ks e
    → has_prefix e (name ++ codes "=") ≡ false
has_prefix-Keyed [] name e hk hn ne h = absurd h
has_prefix-Keyed (k ∷ ks) name e (hk, hks) hn (ne, nes) (inl (v, eq)) =
    ap (λ t. has_prefix t (name ++ codes "=")) eq
    ∙ prefix-key k name v hk hn
    ∙ ground (arith, eqb→eq k name)
has_prefix-Keyed (k ∷ ks) name e (hk, hks) hn (ne, nes) (inr h) =
    has_prefix-Keyed ks name e hks hn nes h

getenv-none :
    (ks : List Bytes) (name : Bytes) (es : List Bytes)
    → All (Lacks b'=') ks
    → Lacks b'=' name
    → All (λ k. k ≢ name) ks
    → All (Keyed ks) es
    → getenv name es ≡ none
unfolding getenv
getenv-none ks name [] hk hn ne h = refl
getenv-none ks name (e ∷ es) hk hn ne (he, h) =
    ground (arith, has_prefix-Keyed ks name e hk hn ne he, getenv-none ks name es hk hn ne h)

abbrev pub python_names : List Bytes
python_names =
    codes "GODEBUG" ∷ codes "HTTPS_PROXY" ∷ codes "HTTP_PROXY" ∷ codes "ALLOWED_SYSCALLS" ∷ []

abbrev pub nodejs_names : List Bytes
nodejs_names = codes "GODEBUG" ∷ codes "ALLOWED_SYSCALLS" ∷ []

module _ (P : Bytes → Type 0) where
  All-if : (b : Bool) (xs ys : List Bytes) → All P xs → All P ys → All P (if b then xs else ys)
  All-if true xs ys hx hy = hx
  All-if false xs ys hx hy = hy

  All-variable_if_set :
      (name value : Bytes) → P (name ++ value) → All P (variable_if_set name value)
  unfolding variable_if_set
  All-variable_if_set name value h = All-if (not (eqb value [])) _ _ (h, tt) tt

  All-syscalls_env :
      (ns : List ℤ)
      → ((calls : Bytes) → P (codes "ALLOWED_SYSCALLS=" ++ calls))
      → All P (syscalls_env ns)
  unfolding syscalls_env
  All-syscalls_env [] h = tt
  All-syscalls_env (n ∷ ns) h = (h (comma_list (n ∷ ns)), tt)

https_key : (v : Bytes) → Keyed python_names (codes "HTTPS_PROXY=" ++ v)
https_key v = inr (inl (v, refl))

http_key : (v : Bytes) → Keyed python_names (codes "HTTP_PROXY=" ++ v)
http_key v = inr (inr (inl (v, refl)))

proxy_env-Keyed : (c : Configuration) → All (Keyed python_names) (proxy_env c)
unfolding proxy_env
proxy_env-Keyed c =
    All-if (Keyed python_names) (not (eqb c.socks5 [])) _ _
      (https_key c.socks5, (http_key c.socks5, tt))
      (All-if (Keyed python_names) (not (eqb c.https []) || not (eqb c.http [])) _ []
        (All-append _ _ _
          (All-variable_if_set (Keyed python_names) (codes "HTTPS_PROXY=") c.https
            (https_key c.https))
          (All-variable_if_set (Keyed python_names) (codes "HTTP_PROXY=") c.http (http_key c.http)))
        tt)

python_env-Keyed : (c : Configuration) → All (Keyed python_names) (python_env c)
unfolding python_env
python_env-Keyed c = (
  inl (codes "decoratemappings=0,containermaxprocs=0,updatemaxprocs=0", refl),
  All-append _ (proxy_env c) _ (proxy_env-Keyed c) (
      All-syscalls_env (Keyed python_names) c.allowed_syscalls
        (λ calls. inr (inr (inr (inl (calls, refl)))))),
)

nodejs_env-Keyed : (c : Configuration) → All (Keyed nodejs_names) (nodejs_env c)
unfolding nodejs_env
nodejs_env-Keyed c = (
  inl (codes "decoratemappings=0,containermaxprocs=0,updatemaxprocs=0", refl),
  All-syscalls_env (Keyed nodejs_names) c.allowed_syscalls (λ calls. inr (inl (calls, refl))),
)

-- What a child finds under the names that a runner may set, and under another one.
pub record Sees (https http calls : Option Bytes) (name : Bytes) (env : List Bytes) : Type 0 where
  pub https_proxy : getenv (codes "HTTPS_PROXY") env ≡ https
  pub http_proxy : getenv (codes "HTTP_PROXY") env ≡ http
  pub allowed_syscalls : getenv (codes "ALLOWED_SYSCALLS") env ≡ calls
  pub other : getenv name env ≡ none

-- A child of Python finds the SOCKS proxy, if there is one, for both protocols, and else the proxy of
-- each that has one; a child of Node.js finds no proxy. Both find the list of the configured calls if
-- there are any, and nothing under any name but these and GODEBUG: nothing of the server's own
-- environment, such as its key, reaches a child.
pub children_see :
    (c : Configuration) (name : Bytes)
    → Lacks b'=' name
    → All (λ k. k ≢ name) python_names
    → Sees
        (proxy c.socks5 c.https)
        (proxy c.socks5 c.http)
        (call_list c.allowed_syscalls)
        name
        (python_env c)
      × Sees none none (call_list c.allowed_syscalls) name (nodejs_env c)
unfolding getenv python_env nodejs_env proxy_env syscalls_env variable_if_set eqb
children_see c name lacks ne = (
  record {
    https_proxy = ground arith;
    http_proxy = ground arith;
    allowed_syscalls = ground arith;
    other =
        getenv-none python_names name (python_env c) (omega arith) lacks ne (python_env-Keyed c);
  },
  record {
    https_proxy = ground arith;
    http_proxy = ground arith;
    allowed_syscalls = ground arith;
    other =
        getenv-none nodejs_names name (nodejs_env c) (omega arith) lacks (ne.0, (ne.1.1.1.0, tt))
          (nodejs_env-Keyed c);
  },
)
