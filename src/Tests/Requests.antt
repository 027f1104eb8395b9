-- ===== src/Tests/Requests.antt =====
-- Requests: the limits, the traces, the answers.
use dify_sandbox.Base.{◌≡◌, ◌≤◌, ◌*◌, ◌≤ℤ◌, ◌↔◌, refl, pos, false, [], ◌∷◌, some, codes, arith}
use dify_sandbox.Log.{
  TraceContext, background, with_trace, parse_traceparent, get_traceparent_header, is_hex,
}
use dify_sandbox.Log.Roundtrip.{IsTrace, parse-get_traceparent}
use dify_sandbox.Middleware.{try_acquire, admitted, System, arrive, admit, init, Reach, start, next}
use dify_sandbox.Middleware.Limits.{in_flight, at_work, total}
use dify_sandbox.Middleware.Requests.{limits_hold}
use dify_sandbox.Service.{timeout_of, capture_timeout, Settings, pool_exhausted, Runner}
use dify_sandbox.Service.Timeouts.{timeout_exact}

-- One request is admitted, with a limit of one.
abbrev one_admitted : System
one_admitted = record (init (pos 1) 1) { current = pos 1; requests = admitted ∷ [] }

one_admitted-Reach : Reach (pos 1) 1 one_admitted
unfolding try_acquire
one_admitted-Reach = next (next start arrive) (admit [] [] refl refl)

limits_hold_example :
    (total in_flight (admitted ∷ []) ≤ 1)
    × (total at_work (admitted ∷ []) ≤ 1)
    × ((try_acquire (pos 1) (pos 1)).0 ≡ false ↔ pos 1 ≤ℤ pos (total in_flight (admitted ∷ [])))
limits_hold_example = limits_hold one_admitted-Reach

abbrev some_trace : TraceContext
some_trace = record {
  trace_id = codes "0123456789abcdef0123456789abcdef";
  span_id = codes "0123456789abcdef";
}

some_trace-IsTrace : IsTrace some_trace
unfolding is_hex
some_trace-IsTrace = record {
  trace = record { size = refl; hex = refl };
  span = record { size = refl; hex = refl };
}

parse-get_traceparent_example :
    parse_traceparent (get_traceparent_header (some (with_trace background some_trace)))
    ≡ some (codes "0123456789abcdef0123456789abcdef", codes "0123456789abcdef")
parse-get_traceparent_example =
    parse-get_traceparent (with_trace background some_trace) some_trace refl some_trace-IsTrace

abbrev settings : Settings
settings = record { network_enabled = false; preload_enabled = false; worker_timeout = pos 5 }

-- A runner whose pool is exhausted.
abbrev busy : Runner
busy code timeout preload net = pool_exhausted (codes "exhausted")

timeout_exact_example :
    (capture_timeout (timeout_of settings) ≡ pos (5 * 1_000_000_000))
    ↔ ((1 ≤ 5) × (5 ≤ 9_223_372_036))
timeout_exact_example = timeout_exact settings 5 refl (omega arith)
