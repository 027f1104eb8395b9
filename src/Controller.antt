-- ===== src/Controller.antt =====
-- internal/controller/base.go, internal/controller/run.go and the private group of
-- internal/controller/router.go: how a request is bound and given to its handler. What the web
-- framework binds is the argument `bound`; the status is the first that is sent.
pub mod Answers
pub mod Routes
use dify_sandbox.Base.{
  ℕ, ◌≡◌, ◌⊎◌, inl, inr, ℤ, pos, negsuc, Bool, List, [], ◌∷◌, Option, none, some, Bytes, codes, eqb,
  if◌then◌else◌,
}
use dify_sandbox.Service.{
  Response, error_response, RunCodeResponse, Settings, Runner, run_python3_code, run_nodejs_code,
}
use dify_sandbox.Middleware.{auth, try_acquire, too_many_requests}

-- The request of `RunSandboxController`.
pub record RunRequest : Type 0 where
  pub language : Bytes
  pub code : Bytes
  pub preload : Bytes
  pub enable_network : Bool

-- An HTTP status, and the JSON body if there is one.
abbrev pub Http : Type 0 → Type 0
Http D = ℕ × Option (Response D)

-- `BindRequest`: the text of the error of binding is answered. `BindJSON` has aborted with status 400
-- by then, which the 200 of the answer does not replace; `ShouldBind` has sent nothing.
unfoldable pub bind_request : {R D : Type 0} → Bytes → Bytes ⊎ R → (R → Http D) → Http D
unfolding error_response eqb
bind_request content_type (inl e) success =
    let status = if eqb content_type (codes "application/json") then 400 else 200 in
    (status, some (error_response (negsuc 399) e))
bind_request content_type (inr r) success = success r

abbrev pub unsupported : {D : Type 0} → Http D
unsupported = (400, some (error_response (negsuc 399) (codes "unsupported language")))

-- The `switch` of `RunSandboxController`; each language has its runner.
unfoldable pub run_by_language : Runner → Runner → Settings → RunRequest → Http RunCodeResponse
unfolding run_python3_code run_nodejs_code
run_by_language python nodejs s req =
    if eqb req.language (codes "python3")
    then (200, some (run_python3_code python s req.code req.preload req.enable_network))
    else if eqb req.language (codes "nodejs")
    then (200, some (run_nodejs_code nodejs s req.code req.preload req.enable_network))
    else unsupported

-- `RunSandboxController`
unfoldable pub run_sandbox_controller :
    Runner → Runner → Settings → Bytes → Bytes ⊎ RunRequest → Http RunCodeResponse
run_sandbox_controller python nodejs s content_type bound =
    bind_request content_type bound (run_by_language python nodejs s)

-- The `switch` of the three handlers of dependencies, which know Python only.
unfoldable pub python_only : {D : Type 0} → Response D → Bytes → Http D
python_only answer language =
    if eqb language (codes "python3") then (200, some answer) else unsupported

-- `GetDependencies`, `UpdateDependencies` and `RefreshDependencies`, with the service's answer.
unfoldable pub dependencies_controller : {D : Type 0} → Response D → Bytes → Bytes ⊎ Bytes → Http D
dependencies_controller answer content_type bound =
    bind_request content_type bound (python_only answer)

-- A route of the private group: `Auth` comes first, and aborts without a body.
unfoldable pub private_route : {D : Type 0} → Bytes → Bytes → Http D → Http D
unfolding auth
private_route key header answer = elim (auth key header) [
  | some status ↦ (status, none)
  | none ↦ answer
]

-- `InitRunRouter`: behind `Auth`, `MaxRequest` answers where `current` of its requests are no fewer than
-- `max`; `MaxWorker` and `TraceMiddleware` let each request go on, `MaxWorker` once it has room.
unfoldable pub run_route : {D : Type 0} → Bytes → Bytes → ℤ → ℤ → Http D → Http D
unfolding private_route try_acquire too_many_requests
run_route key header max current answer =
    let (status, body) = too_many_requests in
    private_route key header (if (try_acquire max current).0 then answer else (status, some body))
