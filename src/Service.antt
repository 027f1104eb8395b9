-- ===== src/Service.antt =====
-- internal/service and internal/types/response.go: the handlers of the sandbox service, from the
-- options check to the response. The runners are arguments here; see Runner for what they do.
pub mod ErrorText
pub mod Handlers
pub mod Timeouts
pub mod Captured
use dify_sandbox.Base.{
  ℕ, zero, suc, ◌+◌, ◌-◌, ◌*◌, ◌%◌, ◌^◌, ◌≡◌, ℤ, pos, negsuc, eqb_ℤ, leb_ℤ, Bool, true, false, not,
  ◌&&◌, List, [], ◌∷◌, ◌++◌, Option, none, some, Bytes, codes, length, leb, ltb, eqb, if◌then◌else◌,
}
use dify_sandbox.Text.Decimal.{itoa}
use dify_sandbox.Text.Search.{ends_with}
use dify_sandbox.Dependencies.{ScriptMap, Pip, list_dependencies, refresh_dependencies}

-- `DifySandboxResponse`; `none` is a nil `Data`.
pub record Response (D : Type 0) : Type 0 where
  pub code : ℤ
  pub message : Bytes
  pub body : Option D

module _ {D : Type 0} where
  unfoldable pub success_response : D → Response D
  success_response d = record { code = pos 0; message = codes "success"; body = some d }

  unfoldable pub error_response : ℤ → Bytes → Response D
  error_response code message = record {
    code = if leb_ℤ (pos 0) code then negsuc 0 else code;
    message = message;
    body = none;
  }

-- `RunCodeResponse`
pub record RunCodeResponse : Type 0 where
  pub stdout : Bytes
  pub stderr : Bytes
  pub error : Bytes
  pub exit_code : ℤ

-- `appendExecutionErrorDetail`: what the builder holds afterwards
unfoldable pub append_detail : Bytes → Bytes → Bytes
append_detail builder detail =
    if eqb detail []
    then builder
    else if ltb 0 (length builder) && not (ends_with builder 10)
    then (builder ++ (10 ∷ [])) ++ detail
    else builder ++ detail

-- `buildExecutionError`
unfoldable pub build_execution_error : ℤ → Bytes → Bytes → Bytes
unfolding append_detail
build_execution_error exit_code stderr exec_error =
    if eqb_ℤ exit_code (pos 0)
    then exec_error
    else append_detail
        (append_detail (codes "process exited with code " ++ itoa exit_code) exec_error) stderr

-- What the collector received, and the exit code that it read: the end of `collectRunCodeResponse`.
pub record Collected : Type 0 where
  pub out : Bytes
  pub err : Bytes
  pub exec_error : Bytes
  pub exit_code : ℤ

unfoldable pub run_code_response : Collected → RunCodeResponse
unfolding build_execution_error
run_code_response c = record {
  stdout = c.out;
  stderr = c.err;
  error = build_execution_error c.exit_code c.err c.exec_error;
  exit_code = c.exit_code;
}

-- The settings that the service reads.
pub record Settings : Type 0 where
  pub network_enabled : Bool
  pub preload_enabled : Bool
  pub worker_timeout : ℤ

abbrev pub err_network_disabled : Bytes
err_network_disabled = codes "network is disabled, please enable it in the configuration"

-- `checkOptions`; `none` is a nil error.
unfoldable pub check_options : Settings → Bool → Option Bytes
check_options settings wants_network =
    if wants_network && not settings.network_enabled then some err_network_disabled else none

-- An `int` of 64 bits as its residue, and back.
abbrev pub residue : ℤ → ℕ
residue (pos n) = n % 2 ^ 64
residue (negsuc n) = (2 ^ 64 - 1 - n % 2 ^ 64) % 2 ^ 64

abbrev pub signed : ℕ → ℤ
signed r = if ltb r (2 ^ 63) then pos r else negsuc (2 ^ 64 - 1 - r)

-- `time.Duration(WorkerTimeout * int(time.Second))`, which wraps around
unfoldable pub timeout_of : Settings → ℤ
timeout_of settings = signed (residue settings.worker_timeout * 1_000_000_000 % 2 ^ 64)

-- How long the timer of `CaptureOutput` is given: no timeout is one of 5 seconds.
abbrev pub capture_timeout : ℤ → ℤ
capture_timeout timeout = if eqb_ℤ timeout (pos 0) then pos 5_000_000_000 else timeout

-- What a runner's `Run` returns: a result that is collected, an error for which
-- `errors.Is(err, ErrUIDPoolExhausted)` holds, or another error, with their texts.
pub data Ran : Type 0 where
  collected : Collected → Ran
  pool_exhausted : Bytes → Ran
  failed : Bytes → Ran

-- code, timeout, preload, and whether the network is wanted
abbrev pub Runner : Type 0
Runner = Bytes → ℤ → Bytes → Bool → Ran

abbrev pub python_answer : Ran → Response RunCodeResponse
python_answer (collected c) = success_response (run_code_response c)
python_answer (pool_exhausted e) = error_response (negsuc 428) e
python_answer (failed e) = error_response (negsuc 499) e

abbrev pub nodejs_answer : Ran → Response RunCodeResponse
nodejs_answer (collected c) = success_response (run_code_response c)
nodejs_answer (pool_exhausted e) = error_response (negsuc 499) e
nodejs_answer (failed e) = error_response (negsuc 499) e

-- `if !EnablePreload { preload = "" }`
abbrev pub allowed_preload : Settings → Bytes → Bytes
allowed_preload settings preload = if not settings.preload_enabled then [] else preload

-- `RunPython3Code`
unfoldable pub run_python3_code :
    Runner → Settings → Bytes → Bytes → Bool → Response RunCodeResponse
unfolding check_options timeout_of success_response error_response run_code_response
run_python3_code run settings code preload wants_network =
    elim (check_options settings wants_network) [
      | some e ↦ error_response (negsuc 399) e
      | none ↦
          python_answer
            (run code (timeout_of settings) (allowed_preload settings preload) wants_network)
    ]

-- `RunNodeJsCode`
unfoldable pub run_nodejs_code : Runner → Settings → Bytes → Bytes → Bool → Response RunCodeResponse
unfolding check_options timeout_of success_response error_response run_code_response
run_nodejs_code run settings code preload wants_network =
    elim (check_options settings wants_network) [
      | some e ↦ error_response (negsuc 399) e
      | none ↦
          nodejs_answer
            (run code (timeout_of settings) (allowed_preload settings preload) wants_network)
    ]

-- `UpdateDependencies`: the answer to what `PreparePythonDependenciesEnv` returned
unfoldable pub update_dependencies : Option Bytes → Response (Unit {0})
unfolding success_response error_response
update_dependencies none = success_response tt
update_dependencies (some e) = error_response (negsuc 499) e

-- `ListPython3Dependencies`
unfoldable pub list_python3_dependencies : ScriptMap → Response (List (Bytes × Bytes))
unfolding success_response
list_python3_dependencies m = success_response (list_dependencies m)

-- `RefreshPython3Dependencies`: the map, and the answer, a success also where the refresh fails.
unfoldable pub refresh_python3_dependencies :
    Pip → Bytes → ScriptMap → ScriptMap × Response (Option (List (Bytes × Bytes)))
unfolding success_response refresh_dependencies
refresh_python3_dependencies pip requirements m =
    let (m', listed) = refresh_dependencies pip requirements m in (m', success_response listed)
