-- ===== src/Middleware.antt =====
-- internal/middleware: the handlers in front of the run handler. `Auth` of auth.go, `MaxRequest`
-- and `MaxWorker` of cocrrent.go as the steps of concurrent requests, `TraceMiddleware` of trace.go.
pub mod Limits
pub mod Requests
use dify_sandbox.Base.{
  ℕ, zero, suc, ◌+◌, ◌-◌, ◌≤◌, ◌<◌, ◌≡◌, ◌≢◌, ℤ, pos, negsuc, leb_ℤ, ◌+ℤ◌, ◌-ℤ◌, Bool, true, false,
  not, List, [], ◌∷◌, ◌++◌, Option, none, some, Bytes, codes, eqb, if◌then◌else◌,
}
use dify_sandbox.Service.{Response, error_response}
use dify_sandbox.Log.{
  Context, TraceContext, Identity, parse_traceparent, generate_trace_id, generate_span_id,
  with_trace, with_identity,
}

-- `Auth`: the status that the request is aborted with, if it is.
unfoldable pub auth : Bytes → Bytes → Option ℕ
unfolding eqb
auth key header = if not (eqb key header) then some 401 else none

-- `tryAcquire`, under its lock: whether it succeeds, and `current` afterwards.
unfoldable pub try_acquire : ℤ → ℤ → Bool × ℤ
try_acquire max current = if leb_ℤ max current then (false, current) else (true, current +ℤ pos 1)

-- `release`, under its lock
unfoldable pub release : ℤ → ℤ
release current = current -ℤ pos 1

-- The answer of `MaxRequest` to a request above the limit, with its HTTP status.
unfoldable pub too_many_requests : {D : Type 0} → ℕ × Response D
unfolding error_response
too_many_requests = (503, error_response (negsuc 502) (codes "Too many requests"))

-- Where a request stands in `MaxRequest(max_requests)` and, inside it, `MaxWorker(max_workers)`.
pub data Pc : Type 0 where
  arriving : Pc  -- before `tryAcquire`
  admitted : Pc  -- at `sem <- struct{}{}`
  running : Pc  -- in `c.Next()` of `MaxWorker`
  leaving : Pc  -- at the deferred `m.release()`
  answered : Pc
  refused : Pc  -- answered with 503

-- The limits, and what the two handlers share among the requests.
pub record System : Type 0 where
  pub max_requests : ℤ
  pub max_workers : ℕ
  pub current : ℤ
  pub sem : ℕ  -- how many values the channel of `MaxWorker` holds
  pub requests : List Pc

-- One step of one request, which stands behind `before`.
pub data Step (s : System) : System → Type 0 where
  arrive : Step s (record s { requests = arriving ∷ s.requests })
  refuse :
      {current : ℤ} (before after : List Pc)
      → s.requests ≡ before ++ (arriving ∷ after)
      → try_acquire s.max_requests s.current ≡ (false, current)
      → Step s (record s { current = current; requests = before ++ (refused ∷ after) })
  admit :
      {current : ℤ} (before after : List Pc)
      → s.requests ≡ before ++ (arriving ∷ after)
      → try_acquire s.max_requests s.current ≡ (true, current)
      → Step s (record s { current = current; requests = before ++ (admitted ∷ after) })
  work :
      (before after : List Pc)
      → s.requests ≡ before ++ (admitted ∷ after)
      → s.sem < s.max_workers
      → Step s (record s { sem = s.sem + 1; requests = before ++ (running ∷ after) })
  finish :
      {n : ℕ} (before after : List Pc)
      → s.requests ≡ before ++ (running ∷ after)
      → s.sem ≡ suc n
      → Step s (record s { sem = n; requests = before ++ (leaving ∷ after) })
  leave :
      (before after : List Pc)
      → s.requests ≡ before ++ (leaving ∷ after)
      → Step s (record s { current = release s.current; requests = before ++ (answered ∷ after) })

abbrev pub init : ℤ → ℕ → System
init max_requests max_workers = record {
  max_requests = max_requests;
  max_workers = max_workers;
  current = pos 0;
  sem = 0;
  requests = [];
}

pub data Reach (max_requests : ℤ) (max_workers : ℕ) : System → Type 0 where
  start : Reach max_requests max_workers (init max_requests max_workers)
  next :
      {s t : System}
      → Reach max_requests max_workers s
      → Step s t
      → Reach max_requests max_workers t

-- What a request carries into `TraceMiddleware`.
pub record Headers : Type 0 where
  pub traceparent : Bytes
  pub tenant_id : Bytes  -- `c.Param("tenant_id")`
  pub user_id : Bytes
  pub user_type : Bytes

abbrev pub trace_or_new : Option Bytes → Option Bytes → Option (Bytes × Bytes) → TraceContext
trace_or_new r1 r2 none = record { trace_id = generate_trace_id r1; span_id = generate_span_id r2 }
trace_or_new r1 r2 (some (t, s)) = record { trace_id = t; span_id = s }

-- `TraceMiddleware`: the context that the rest of the chain sees.
unfoldable pub trace_middleware : Option Bytes → Option Bytes → Headers → Context → Context
unfolding parse_traceparent
trace_middleware r1 r2 h ctx =
    with_identity (with_trace ctx (trace_or_new r1 r2 (parse_traceparent h.traceparent)))
      (record { tenant_id = h.tenant_id; user_id = h.user_id; user_type = h.user_type })
