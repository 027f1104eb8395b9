-- ===== src/Server.antt =====
-- internal/server/server.go, cmd/server/main.go and cmd/dependencies/init.go: the start of the server
-- and the periodic update of the Python packages. What the started libraries do is an argument.
pub mod Updates
use dify_sandbox.Base.{
  ◌≡◌, ℤ, pos, negsuc, leb_ℤ, Bool, true, false, not, List, [], ◌∷◌, ◌++◌, Option, none, some,
  Bytes, codes, eqb, if◌then◌else◌,
}
use dify_sandbox.Text.Decimal.{itoa}
use dify_sandbox.Config.{
  Configuration, ConfigError, Checked, good, bad, Host, init_config, FileRead,
  setup_runner_dependencies,
}
use dify_sandbox.Log.{LogConfig, log_config}
use dify_sandbox.Dependencies.{ScriptMap, Pip, install_dependencies}
use dify_sandbox.Runner.Resources.{TempCalls, Ran}
use dify_sandbox.Runner.Environment.{EnvCalls, prepare_python_dependencies_env}

-- After `initConfig`: the configuration, the log writer if it is set anew, and the requirements.
pub record Ready : Type 0 where
  pub config : Configuration
  pub log : Option LogConfig
  pub requirements : Bytes

-- `initConfig`: it panics with the error of `InitConfig`, or goes on.
pub data Started : Type 0 where
  panicked : ConfigError → Started
  ready : Ready → Started

-- An error of `SetupRunnerDependencies` is only logged; the requirements are empty before.
abbrev pub ready_with : FileRead → Checked Configuration → Started
ready_with file (bad e) = panicked e
ready_with file (good c) = ready (record {
  config = c;
  log = if eqb c.log_path [] then none else some (log_config c.log_path);
  requirements = (setup_runner_dependencies file []).0;
})

unfoldable pub server_init_config : Host → Option Configuration → FileRead → Started
unfolding init_config eqb log_config
server_init_config h file requirements = ready_with requirements (init_config h file)

-- What `initServer` sets: the release mode, a second request log, and the address that it listens to;
-- `env_debug` says that gin starts in its debug mode.
pub record Listening : Type 0 where
  pub release_mode : Bool
  pub request_log : Bool
  pub addr : Bytes

unfoldable pub init_server : Bool → Configuration → Listening
init_server env_debug c = record {
  release_mode = not c.debug;
  request_log = if not c.debug then false else env_debug;
  addr = codes ":" ++ itoa c.port;
}

-- One update: what pip, the file system and the script do.
pub record UpdateCalls : Type 0 where
  pub pip : Pip
  pub temp : TempCalls
  pub env : EnvCalls

-- `updatePythonDependencies`: the packages, and the error.
unfoldable pub update_python_dependencies :
    List Bytes → Bytes → UpdateCalls → ScriptMap → ScriptMap × Option Bytes
unfolding install_dependencies prepare_python_dependencies_env
update_python_dependencies lib_paths requirements calls m =
    let (m', e) = install_dependencies calls.pip requirements m in
    (
      m',
      elim e [
        | some t ↦ some t
        | none ↦ (prepare_python_dependencies_env calls.temp calls.env lib_paths).0.1
      ],
    )

-- The goroutine of `initDependencies`: it ends at an interval that cannot be parsed, `time.NewTicker`
-- panics at one that is not positive, and else it updates at each tick.
pub data Ticker : Type 0 where
  no_updates : Ticker
  ticker_panics : Ticker
  every : ℤ → Ticker

abbrev pub update_ticker : (Bytes → Option ℤ) → Configuration → Ticker
update_ticker parse_duration c = elim (parse_duration c.python_deps_update_interval) [
  | none ↦ no_updates
  | some d ↦ if leb_ℤ d (pos 0) then ticker_panics else every d
]

-- The ticks; the error of an update is only logged.
unfoldable pub ticks : List Bytes → Bytes → List UpdateCalls → ScriptMap → ScriptMap
unfolding update_python_dependencies
ticks lib_paths requirements [] m = m
ticks lib_paths requirements (calls ∷ later) m =
    ticks lib_paths requirements later
      ((update_python_dependencies lib_paths requirements calls m).0)

-- `initDependencies` up to its goroutine: an installation and a preparation as of an update, whose
-- error is a panic, and then what the ticker does; `none` is a panic of the process.
unfoldable pub init_dependencies :
    (Bytes → Option ℤ)
    → Configuration
    → Bytes
    → UpdateCalls
    → List UpdateCalls
    → ScriptMap
    → Option ScriptMap
unfolding update_python_dependencies ticks
init_dependencies parse_duration c requirements first later m =
    let (m', e) = update_python_dependencies c.python_lib_paths requirements first m in
    elim e [
      | some t ↦ none
      | none ↦ elim (update_ticker parse_duration c) [
        | no_updates ↦ some m'
        | ticker_panics ↦ none
        | every d ↦ some (ticks c.python_lib_paths requirements later m')
      ]
    ]

-- How cmd/dependencies ends: with a panic of either step, or with the libraries under the root.
pub data CommandEnd : Type 0 where
  config_panics : ConfigError → CommandEnd
  env_panics : Bytes → CommandEnd
  finished : List Bytes → CommandEnd

abbrev pub env_end : Ran × List Bytes → CommandEnd
env_end ((t, some e), synced) = env_panics e
env_end ((t, none), synced) = finished synced

-- `main` of cmd/dependencies
unfoldable pub dependencies_main : Host → Option Configuration → TempCalls → EnvCalls → CommandEnd
unfolding init_config prepare_python_dependencies_env
dependencies_main h file temp env = elim (init_config h file) [
  | bad e ↦ config_panics e
  | good c ↦ env_end (prepare_python_dependencies_env temp env c.python_lib_paths)
]
