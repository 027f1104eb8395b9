-- ===== src/Log.antt =====
-- internal/utils/log: the trace header (trace.go), the values that a context carries (context.go)
-- and the attributes that the log handler adds (core.go).
pub mod Roundtrip
use dify_sandbox.Base.{
  ℕ, zero, suc, ◌+◌, ◌-◌, ◌/◌, ◌%◌, ◌≡◌, Bool, true, false, not, ◌&&◌, ◌||◌, List, [], ◌∷◌, ◌++◌,
  Option, none, some, Bytes, codes, length, leb, ltb, ◌==◌, eqb, if◌then◌else◌, String,
}
use dify_sandbox.Text.Split.{split}

-- The `for` loop of `isHex`; a rune above 127 is no hex digit, and neither are its bytes.
abbrev pub is_hex_digit : ℕ → Bool
is_hex_digit c = leb b'0' c && leb c b'9' || (leb b'a' c && leb c b'f' || leb b'A' c && leb c b'F')

unfoldable pub is_hex : Bytes → Bool
is_hex [] = true
is_hex (c ∷ s) = let rest = is_hex s in if not (is_hex_digit c) then false else rest

-- The checks behind `strings.Split(header, "-")`.
abbrev pub check_parts : List Bytes → Option (Bytes × Bytes)
check_parts (version ∷ trace_id ∷ span_id ∷ flags ∷ []) =
    if not (eqb version (codes "00"))
    then none
    else if not (length trace_id == 32) || not (is_hex trace_id)
    then none
    else if not (length span_id == 16) || not (is_hex span_id)
    then none
    else some (trace_id, span_id)
check_parts _ = none

-- `ParseTraceparent`; `none` is `ok == false`.
unfoldable pub parse_traceparent : Bytes → Option (Bytes × Bytes)
unfolding split is_hex eqb
parse_traceparent header = if eqb header [] then none else check_parts (split b'-' header)

pub record TraceContext : Type 0 where
  pub trace_id : Bytes
  pub span_id : Bytes

pub record Identity : Type 0 where
  pub tenant_id : Bytes
  pub user_id : Bytes
  pub user_type : Bytes

-- What this program stores in a `context.Context`.
pub record Context : Type 0 where
  pub trace : Option TraceContext
  pub identity : Option Identity

abbrev pub background : Context
background = record { trace = none; identity = none }

abbrev pub with_trace : Context → TraceContext → Context
with_trace ctx tc = record ctx { trace = some tc }

abbrev pub with_identity : Context → Identity → Context
with_identity ctx id = record ctx { identity = some id }

-- A nil context is `none`.
unfoldable pub trace_from_context : Option Context → Option TraceContext
trace_from_context none = none
trace_from_context (some ctx) = ctx.trace

unfoldable pub identity_from_context : Option Context → Option Identity
identity_from_context none = none
identity_from_context (some ctx) = ctx.identity

abbrev pub traceparent : TraceContext → Bytes
traceparent tc =
    if eqb tc.trace_id []
    then []
    else codes "00-" ++ (tc.trace_id ++ (codes "-" ++ (tc.span_id ++ codes "-01")))

-- `GetTraceparentHeader`
unfoldable pub get_traceparent_header : Option Context → Bytes
unfolding trace_from_context eqb
get_traceparent_header ctx = elim (trace_from_context ctx) [ none ↦ [] | some tc ↦ traceparent tc ]

abbrev pub hex_digit : ℕ → ℕ
hex_digit n = if ltb n 10 then b'0' + n else b'a' + (n - 10)

-- `hex.EncodeToString`
unfoldable pub hex_encode : Bytes → Bytes
hex_encode [] = []
hex_encode (b ∷ bs) = hex_digit (b / 16) ∷ hex_digit (b % 16) ∷ hex_encode bs

unfoldable pub repeat : ℕ → ℕ → Bytes
repeat zero c = []
repeat (suc n) c = c ∷ repeat n c

-- `GenerateTraceID` and `GenerateSpanID`: `random` is what `rand.Read` filled in, or its failure.
unfoldable pub generate_id : ℕ → Option Bytes → Bytes
unfolding hex_encode repeat
generate_id n none = repeat n b'0'
generate_id n (some random) = hex_encode random

abbrev pub generate_trace_id : Option Bytes → Bytes
generate_trace_id = generate_id 32

abbrev pub generate_span_id : Option Bytes → Bytes
generate_span_id = generate_id 16

-- `if ctx == nil { ctx = context.Background() }`
abbrev pub or_background : Option Context → Context
or_background none = background
or_background (some c) = c

-- `EnsureTrace`; the two reads of randomness are arguments.
unfoldable pub ensure_trace : Option Bytes → Option Bytes → Option Context → Context
unfolding trace_from_context
ensure_trace r1 r2 ctx = elim (trace_from_context ctx) [
  | some tc ↦ or_background ctx
  | none ↦
      with_trace (or_background ctx)
        (record { trace_id = generate_trace_id r1; span_id = generate_span_id r2 })
]

-- The attributes that `contextHandler.Handle` adds to a record, by name.
abbrev trace_attrs : Option TraceContext → List (String × Bytes)
trace_attrs none = []
trace_attrs (some tc) = ("trace_id", tc.trace_id) ∷ ("span_id", tc.span_id) ∷ []

abbrev identity_attrs : Option Identity → List (String × Bytes)
identity_attrs none = []
identity_attrs (some id) =
    ("tenant_id", id.tenant_id) ∷ ("user_id", id.user_id) ∷ ("user_type", id.user_type) ∷ []

unfoldable pub handle_attrs : Option Context → List (String × Bytes)
unfolding trace_from_context identity_from_context
handle_attrs ctx =
    trace_attrs (trace_from_context ctx) ++ identity_attrs (identity_from_context ctx)

-- `getLogPath`, with the configured path as its argument
unfoldable pub get_log_path : Bytes → Bytes
unfolding eqb
get_log_path configured = if not (eqb configured []) then configured else codes "./logs"

-- `Config` of the log writer
pub record LogConfig : Type 0 where
  pub filename : Bytes
  pub max_size : ℕ
  pub max_backups : ℕ
  pub max_age : ℕ
  pub compress : Bool

-- The configuration that `Init` and `init` hand to `initLogger`, which never fails; `Init` stores the
-- path first, and `init` runs while it is empty.
unfoldable pub log_config : Bytes → LogConfig
unfolding get_log_path
log_config configured = record {
  filename = get_log_path configured ++ codes "/app.log";
  max_size = 100;
  max_backups = 30;
  max_age = 30;
  compress = true;
}

-- The configuration of the package's `init`, before `Init` has stored a path.
abbrev pub initial_log_config : LogConfig
initial_log_config = log_config []
