-- ===== src/Config.antt =====
-- internal/static/config.go and internal/types/config.go: the configuration, from the file, the
-- environment and the defaults. What `os.ReadFile` and the yaml package make of the file is the
-- argument `file`, `os.Getenv` the argument `env`, and what the discovery script prints the argument
-- `run_script`. On an error the server stops, so what is then left of the configuration is not said.
pub mod Workers
mod SystemPaths
unfoldable pub use SystemPaths.{system_paths}
use dify_sandbox.Base.{
  ◌≡◌, ℤ, pos, Bool, true, false, not, ◌||◌, List, [], ◌∷◌, ◌++◌, Option, none, some, Bytes, codes,
  eqb, if◌then◌else◌,
}
use dify_sandbox.Seccomp.Tables.{Arch, amd64, arm64}
use dify_sandbox.Text.Split.{split, trim_space}
use dify_sandbox.Text.Decimal.{atoi, Parsed, ParseError}
use dify_sandbox.Discovery.{
  Files, DiscoveryResult, BuildError, Built, ok, err, build_python_lib_paths, ResolveError,
  Resolved, path, refused, resolve_python_path,
}

-- `DifySandboxGlobalConfigurations`
pub record Configuration : Type 0 where
  pub port : ℤ
  pub debug : Bool
  pub key : Bytes
  pub max_workers : ℤ
  pub max_requests : ℤ
  pub worker_timeout : ℤ
  pub python_path : Bytes
  pub python_lib_paths : List Bytes
  pub python_pip_mirror_url : Bytes
  pub python_deps_update_interval : Bytes
  pub nodejs_path : Bytes
  pub enable_network : Bool
  pub enable_preload : Bool
  pub allowed_syscalls : List ℤ
  pub log_path : Bytes
  pub socks5 : Bytes
  pub https : Bytes
  pub http : Bytes

-- The errors of `InitConfig`.
pub data ConfigError : Type 0 where
  unreadable : ConfigError
  python_path_error : ResolveError → ConfigError
  script_error : ConfigError
  library_error : BuildError → ConfigError
  syscall_error : ParseError → ConfigError

-- A value, or the error that is returned.
pub data Checked (A : Type 0) : Type 0 where
  good : A → Checked A
  bad : ConfigError → Checked A

-- `strconv.ParseBool`
unfoldable pub parse_bool : Bytes → Option Bool
parse_bool s =
    if eqb s (codes "1")
      || eqb s (codes "t")
      || eqb s (codes "T")
      || eqb s (codes "TRUE")
      || eqb s (codes "true")
      || eqb s (codes "True")
    then some true
    else if eqb s (codes "0")
        || eqb s (codes "f")
        || eqb s (codes "F")
        || eqb s (codes "FALSE")
        || eqb s (codes "false")
        || eqb s (codes "False")
    then some false
    else none

-- The value of a variable that is set, or what was there.
unfoldable pub string_or : Bytes → Bytes → Bytes
string_or value old = if not (eqb value []) then value else old

-- `x, _ = strconv.Atoi(value)`: the error is dropped, the value that comes with it is taken.
unfoldable pub int_or : Bytes → ℤ → ℤ
int_or value old = if not (eqb value []) then (atoi value).0 else old

abbrev pub parsed_or_false : Option Bool → Bool
parsed_or_false none = false
parsed_or_false (some b) = b

-- `x, _ = strconv.ParseBool(value)`: what cannot be read is false.
unfoldable pub bool_or : Bytes → Bool → Bool
unfolding parse_bool
bool_or value old = if not (eqb value []) then parsed_or_false (parse_bool value) else old

-- DEBUG keeps the old value where it cannot be read.
abbrev pub debug_or : Option Bool → Bool → Bool
debug_or none old = old
debug_or (some b) old = b

-- The overrides in front of the search for Python.
unfoldable pub with_app_env : (Bytes → Bytes) → Configuration → Configuration
with_app_env env c = record c {
  debug = debug_or (parse_bool (env (codes "DEBUG"))) c.debug;
  max_workers = int_or (env (codes "MAX_WORKERS")) c.max_workers;
  max_requests = int_or (env (codes "MAX_REQUESTS")) c.max_requests;
  port = int_or (env (codes "SANDBOX_PORT")) c.port;
  worker_timeout = int_or (env (codes "WORKER_TIMEOUT")) c.worker_timeout;
  key = string_or (env (codes "API_KEY")) c.key;
  python_path =
      string_or (string_or (env (codes "PYTHON_PATH")) c.python_path)
        (codes "/opt/python/bin/python3");
}

-- The answer of `buildPythonLibPaths` as one of `InitConfig`.
abbrev pub library_paths : Built → Checked (List Bytes)
library_paths (ok paths) = good paths
library_paths (err e) = bad (library_error e)

-- `discoverPythonLibPaths`: no result is a script that fails or prints what is not its JSON.
unfoldable pub discover_python_lib_paths :
    Files → (Bytes → Option DiscoveryResult) → Bytes → List Bytes → Checked (List Bytes)
discover_python_lib_paths fs run_script python_path system = elim (run_script python_path) [
  | none ↦ bad script_error
  | some r ↦ library_paths (build_python_lib_paths fs r system)
]

-- The overrides behind it, up to ALLOWED_SYSCALLS.
unfoldable pub with_run_env : (Bytes → Bytes) → Configuration → Configuration
with_run_env env c = record c {
  python_pip_mirror_url = string_or (env (codes "PIP_MIRROR_URL")) c.python_pip_mirror_url;
  python_deps_update_interval =
      string_or
        (string_or (env (codes "PYTHON_DEPS_UPDATE_INTERVAL")) c.python_deps_update_interval)
        (codes "30m");
  nodejs_path =
      string_or (string_or (env (codes "NODEJS_PATH")) c.nodejs_path) (codes "/usr/local/bin/node");
  enable_network = bool_or (env (codes "ENABLE_NETWORK")) c.enable_network;
  enable_preload = bool_or (env (codes "ENABLE_PRELOAD")) c.enable_preload;
}

abbrev pub add_syscall : Parsed ℤ → Checked (List ℤ) → Checked (List ℤ)
add_syscall (n, some e) rest = bad (syscall_error e)
add_syscall (n, none) (bad e) = bad e
add_syscall (n, none) (good ns) = good (n ∷ ns)

-- The loop over the parts of ALLOWED_SYSCALLS; the first that is no number ends it.
unfoldable pub read_syscalls : List Bytes → Checked (List ℤ)
read_syscalls [] = good []
read_syscalls (p ∷ ps) = add_syscall (atoi p) (read_syscalls ps)

abbrev pub put_syscalls : Configuration → Checked (List ℤ) → Checked Configuration
put_syscalls c (bad e) = bad e
put_syscalls c (good ns) = good (record c { allowed_syscalls = ns })

unfoldable pub with_syscalls : Bytes → Configuration → Checked Configuration
with_syscalls value c =
    if not (eqb value []) then put_syscalls c (read_syscalls (split b',' value)) else good c

-- The proxies, which are read only if the network is enabled.
unfoldable pub with_proxies : (Bytes → Bytes) → Configuration → Configuration
with_proxies env c =
    if c.enable_network
    then record c {
      socks5 = string_or (env (codes "SOCKS5_PROXY")) c.socks5;
      https = string_or (env (codes "HTTPS_PROXY")) c.https;
      http = string_or (env (codes "HTTP_PROXY")) c.http;
    }
    else c

abbrev pub then_proxies : (Bytes → Bytes) → Checked Configuration → Checked Configuration
then_proxies env (bad e) = bad e
then_proxies env (good c) = good (with_proxies env c)

-- What `InitConfig` does behind the search for the libraries.
unfoldable pub finish_config : (Bytes → Bytes) → Configuration → Checked Configuration
finish_config env c =
    then_proxies env (with_syscalls (env (codes "ALLOWED_SYSCALLS")) (with_run_env env c))

-- The environment of `InitConfig`.
pub record Host : Type 0 where
  pub arch : Arch
  pub env : Bytes → Bytes
  pub fs : Files
  pub look_path : Bytes → Option Bytes
  pub run_script : Bytes → Option DiscoveryResult

abbrev pub with_libraries :
    Host → Configuration → Bytes → Checked (List Bytes) → Checked Configuration
with_libraries h c p (bad e) = bad e
with_libraries h c p (good paths) =
    finish_config h.env (record c { python_path = p; python_lib_paths = paths })

abbrev pub with_python : Host → Configuration → Resolved → Checked Configuration
with_python h c (refused e) = bad (python_path_error e)
with_python h c (path p) = with_libraries h c p (
    discover_python_lib_paths h.fs h.run_script p
      (system_paths h.arch (h.env (codes "SYSTEM_LIB_REQUIREMENTS"))))

abbrev pub resolved_config : Host → Configuration → Checked Configuration
resolved_config h c = with_python h c (resolve_python_path h.fs h.look_path c.python_path)

-- `InitConfig`; no file is one that cannot be read or parsed.
unfoldable pub init_config : Host → Option Configuration → Checked Configuration
init_config h file = elim file [
  | none ↦ bad unreadable
  | some c ↦ resolved_config h (with_app_env h.env c)
]

-- `os.ReadFile`: the contents, or an error; `not_exist_itself` is the error value `os.ErrNotExist`, to
-- which the code compares.
pub data FileRead : Type 0 where
  contents : Bytes → FileRead
  not_exist_itself : FileRead
  read_error : Bytes → FileRead

-- `SetupRunnerDependencies`: the requirements afterwards, and the error.
abbrev pub setup_runner_dependencies : FileRead → Bytes → Bytes × Option Bytes
setup_runner_dependencies (contents file) requirements = (file, none)
setup_runner_dependencies not_exist_itself requirements = (requirements, none)
setup_runner_dependencies (read_error e) requirements = (requirements, some e)
