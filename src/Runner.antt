-- ===== src/Runner.antt =====
-- internal/core/runner/python/python.go, internal/core/runner/nodejs/nodejs.go,
-- internal/core/runner/temp_dir.go and the start of `CaptureOutput`: what a run is given (its
-- bootstrap script, its arguments, its environment), and which resources it takes and gives back.
pub mod ChildEnv
pub mod CodePipe
pub mod Resources
pub mod Bootstrap
pub mod Group
pub mod Project
pub mod Environment
pub mod NodeRoot
pub mod Release
pub mod Script
pub mod Syscalls
pub mod PoolUse
pub mod WorkDir
use dify_sandbox.Base.{
  ℕ, ◌≡◌, ℤ, pos, Bool, true, false, not, ◌||◌, List, [], ◌∷◌, ◌++◌, Option, none, some, Bytes,
  codes, eqb, if◌then◌else◌,
}
use dify_sandbox.Text.Search.{replace_first}
use dify_sandbox.Text.Decimal.{format, itoa}
use dify_sandbox.Text.Fields.{comma_list}
use dify_sandbox.Config.{Configuration}

-- `buildBootstrap` of Python; `sandbox_fs` is the embedded prescript.py, and `gid` the variable
-- `SANDBOX_GROUP_ID`.
unfoldable pub build_bootstrap : ℤ → Bytes → Bytes → Bool → ℕ → Bytes
build_bootstrap gid sandbox_fs preload enable_network uid =
    let with_uid = replace_first sandbox_fs (codes "{{uid}}") (format uid) in
    let with_gid = replace_first with_uid (codes "{{gid}}") (itoa gid) in
    let script =
      replace_first with_gid (codes "{{enable_network}}")
        (if enable_network then codes "1" else codes "0") in
    replace_first script (codes "{{preload}}") (preload ++ codes "\n")

-- `buildBootstrap` of Node.js; `sandbox_fs` is the embedded prescript.js.
unfoldable pub nodejs_bootstrap : Bytes → Bytes → Bytes
nodejs_bootstrap sandbox_fs preload =
    if not (eqb preload []) then preload ++ (codes "\n" ++ sandbox_fs) else sandbox_fs

-- `RunnerOptions.Json`
abbrev pub options_json : Bool → Bytes
options_json true = codes "{\"enable_network\":true}"
options_json false = codes "{\"enable_network\":false}"

-- `buildCommandArgs` of Node.js
unfoldable pub build_command_args : ℤ → Bytes → ℕ → Bool → List Bytes
unfolding format itoa
build_command_args gid script_path uid enable_network =
    script_path ∷ format uid ∷ itoa gid ∷ options_json enable_network ∷ []

abbrev pub godebug : Bytes
godebug = codes "GODEBUG=decoratemappings=0,containermaxprocs=0,updatemaxprocs=0"

-- A variable that is set only to a text that is not empty.
unfoldable pub variable_if_set : Bytes → Bytes → List Bytes
variable_if_set name value = if not (eqb value []) then (name ++ value) ∷ [] else []

unfoldable pub proxy_env : Configuration → List Bytes
unfolding variable_if_set
proxy_env c =
    if not (eqb c.socks5 [])
    then (codes "HTTPS_PROXY=" ++ c.socks5) ∷ (codes "HTTP_PROXY=" ++ c.socks5) ∷ []
    else if not (eqb c.https []) || not (eqb c.http [])
    then variable_if_set (codes "HTTPS_PROXY=") c.https
      ++ variable_if_set (codes "HTTP_PROXY=") c.http
    else []

-- ALLOWED_SYSCALLS, if any call is configured.
unfoldable pub syscalls_env : List ℤ → List Bytes
syscalls_env [] = []
syscalls_env (n ∷ ns) = (codes "ALLOWED_SYSCALLS=" ++ comma_list (n ∷ ns)) ∷ []

-- `cmd.Env` of Python
unfoldable pub python_env : Configuration → List Bytes
unfolding proxy_env syscalls_env
python_env c = (godebug ∷ proxy_env c) ++ syscalls_env c.allowed_syscalls

-- `cmd.Env` of Node.js, to which no proxy is passed.
unfoldable pub nodejs_env : Configuration → List Bytes
unfolding syscalls_env
nodejs_env c = godebug ∷ syscalls_env c.allowed_syscalls
