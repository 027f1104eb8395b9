-- ===== src/Log/Roundtrip.antt =====
-- The trace header that the program writes is the one that it reads.
use dify_sandbox.Base.{
  ℕ, zero, suc, ◌*◌, ◌/◌, ◌%◌, ◌<◌, ◌≡◌, ◌≢◌, refl, sym, ap, ◌∙◌, true, List, [], ◌∷◌, ◌++◌, none,
  some, Bytes, codes, length, All, Lacks, eqb, eqb→eq, eqb-nil, arith, Bool-cases, Option-cases,
  inl, inr, ◌⊎◌, subst, Option,
}
use dify_sandbox.Text.Split.{split, join, split-join, join-split}
use dify_sandbox.Log.{
  is_hex, is_hex_digit, check_parts, parse_traceparent, TraceContext, Context, traceparent,
  get_traceparent_header, hex_digit, hex_encode, repeat, generate_id, generate_trace_id,
  generate_span_id, ensure_trace, trace_from_context,
}

-- An identifier of `n` hexadecimal digits.
pub record IsId (n : ℕ) (s : Bytes) : Type 0 where
  pub size : length s ≡ n
  pub hex : is_hex s ≡ true

pub record IsTrace (tc : TraceContext) : Type 0 where
  pub trace : IsId 32 tc.trace_id
  pub span : IsId 16 tc.span_id

is_hex-Lacks : (s : Bytes) → is_hex s ≡ true → Lacks b'-' s
unfolding is_hex
is_hex-Lacks [] h = tt
is_hex-Lacks (c ∷ s) h = ground (arith, is_hex-Lacks s)

parts_of : (tc : TraceContext) → List Bytes
parts_of tc = codes "00" ∷ tc.trace_id ∷ tc.span_id ∷ codes "01" ∷ []

id-ne-nil : {n : ℕ} (s : Bytes) → IsId (suc n) s → s ≢ []
id-ne-nil [] v e = absurd (omega (arith, v.size))
id-ne-nil (c ∷ s) v e = cc

-- The header as `GetTraceparentHeader` puts it together.
abbrev header_of : TraceContext → Bytes
header_of tc = codes "00-" ++ (tc.trace_id ++ (codes "-" ++ (tc.span_id ++ codes "-01")))

traceparent-header_of : (tc : TraceContext) → IsTrace tc → traceparent tc ≡ header_of tc
traceparent-header_of tc v = rw (eqb-nil tc.trace_id (id-ne-nil tc.trace_id v.trace))

split-header_of : (tc : TraceContext) → IsTrace tc → split b'-' (header_of tc) ≡ parts_of tc
unfolding parts_of join
split-header_of tc v =
    split-join b'-' (parts_of tc) (λ e. cc)
      (
        omega arith,
        (is_hex-Lacks tc.trace_id v.trace.hex, (is_hex-Lacks tc.span_id v.span.hex, omega arith)),
      )

parse-split :
    (header : Bytes) (parts : List Bytes)
    → header ≢ []
    → split b'-' header ≡ parts
    → parse_traceparent header ≡ check_parts parts
unfolding parse_traceparent eqb
parse-split [] parts ne e = absurd (ne refl)
parse-split (c ∷ s) parts ne e = rw e

check_parts-parts_of :
    (tc : TraceContext) → IsTrace tc → check_parts (parts_of tc) ≡ some (tc.trace_id, tc.span_id)
unfolding parts_of eqb
check_parts-parts_of tc v = ground arith

header-trace :
    (ctx : Context) (tc : TraceContext)
    → ctx.trace ≡ some tc
    → get_traceparent_header (some ctx) ≡ traceparent tc
unfolding get_traceparent_header
header-trace ctx tc h = ground arith

-- A context with a well-formed trace is read back from the header that it is written to.
pub parse-get_traceparent :
    (ctx : Context) (tc : TraceContext)
    → ctx.trace ≡ some tc
    → IsTrace tc
    → parse_traceparent (get_traceparent_header (some ctx)) ≡ some (tc.trace_id, tc.span_id)
parse-get_traceparent ctx tc h v =
    ap parse_traceparent (header-trace ctx tc h ∙ traceparent-header_of tc v)
    ∙ parse-split (header_of tc) (parts_of tc) (λ e. cc) (split-header_of tc v)
    ∙ check_parts-parts_of tc v

check_parts_sound :
    (parts : List Bytes) (t s : Bytes)
    → check_parts parts ≡ some (t, s)
    → (flags : Bytes) × (parts ≡ codes "00" ∷ t ∷ s ∷ flags ∷ []) × IsId 32 t × IsId 16 s
check_parts_sound (v ∷ t' ∷ s' ∷ flags ∷ []) t s h =
    (flags, ground (arith, eqb→eq v (codes "00")), ground arith, ground arith)
check_parts_sound [] t s h = cc
check_parts_sound _ t s h = cc

parsed_parts :
    (header t s : Bytes)
    → parse_traceparent header ≡ some (t, s)
    → check_parts (split b'-' header) ≡ some (t, s)
unfolding parse_traceparent
parsed_parts header t s h = elim (Bool-cases (eqb header [])) [
  | inl e ↦ absurd (cc (rw e at h))
  | inr e ↦ rw e at h
]

-- Whatever header is accepted has the version 00 and two identifiers of 32 and 16 hexadecimal
-- digits, which are those that are returned.
pub parse_traceparent_sound :
    (header t s : Bytes)
    → parse_traceparent header ≡ some (t, s)
    → IsId 32 t
      × IsId 16 s
      × ((flags : Bytes) × (header
            ≡ codes "00-" ++ (t ++ (codes "-" ++ (s ++ (codes "-" ++ flags))))))
parse_traceparent_sound header t s h =
    let (flags, e, i, j) = check_parts_sound (split b'-' header) t s (parsed_parts header t s h) in
    (i, j, (flags, sym (join-split b'-' header) ∙ ap (join (b'-' ∷ [])) e ∙ unfold join in refl))

IsHexDigit-hex_digit : (n : ℕ) → n < 16 → is_hex_digit (hex_digit n) ≡ true
IsHexDigit-hex_digit n h = ground arith

hex_encode-IsId : (bs : Bytes) → All (λ b. b < 256) bs → IsId (2 * length bs) (hex_encode bs)
unfolding hex_encode is_hex
hex_encode-IsId [] h = record { size = refl; hex = refl }
hex_encode-IsId (b ∷ bs) (hb, hs) =
    let rest = hex_encode-IsId bs hs in
    record {
      size = omega (arith, rest.size);
      hex = ground (
        arith,
        rest.hex,
        IsHexDigit-hex_digit (b / 16) (omega arith),
        IsHexDigit-hex_digit (b % 16) (omega arith),
      );
    }

repeat_zero-IsId : (n : ℕ) → IsId n (repeat n b'0')
unfolding repeat is_hex
repeat_zero-IsId zero = record { size = refl; hex = refl }
repeat_zero-IsId (suc n) =
    let rest = repeat_zero-IsId n in record { size = ap suc rest.size; hex = rest.hex }

-- What `rand.Read` does with a buffer of `n` bytes: it fails, or fills it with bytes.
abbrev pub IsRandom : ℕ → Option Bytes → Type 0
IsRandom n none = Unit
IsRandom n (some bs) = (length bs ≡ n) × All (λ b. b < 256) bs

pub generate_id-IsId :
    (n : ℕ) (r : Option Bytes) → IsRandom n r → IsId (2 * n) (generate_id (2 * n) r)
unfolding generate_id
generate_id-IsId n none h = repeat_zero-IsId (2 * n)
generate_id-IsId n (some bs) (h, hb) =
    subst (λ k. IsId (2 * k) (hex_encode bs)) h (hex_encode-IsId bs hb)

abbrev new_trace : Option Bytes → Option Bytes → TraceContext
new_trace r1 r2 = record { trace_id = generate_trace_id r1; span_id = generate_span_id r2 }

trace-ensure_trace :
    (r1 r2 : Option Bytes) (ctx : Option Context) (old : Option TraceContext)
    → trace_from_context ctx ≡ old
    → (ensure_trace r1 r2 ctx).trace
      ≡ elim old [ none ↦ some (new_trace r1 r2) | some tc ↦ some tc ]
unfolding ensure_trace
trace-ensure_trace r1 r2 none none e = refl
trace-ensure_trace r1 r2 none (some tc) e = cc
trace-ensure_trace r1 r2 (some c) none e = ground arith
trace-ensure_trace r1 r2 (some c) (some tc) e = ground arith

-- After `EnsureTrace` the context has a trace: the one that it had, or else a new one whose header
-- is accepted, also where the source of randomness fails.
ensure_trace_header :
    (r1 r2 : Option Bytes) (ctx : Option Context)
    → IsRandom 16 r1
    → IsRandom 8 r2
    → (tc : TraceContext) × (trace_from_context (some (ensure_trace r1 r2 ctx)) ≡ some tc)
      × ((trace_from_context ctx ≡ some tc)
          ⊎ ((trace_from_context ctx ≡ none)
              × (parse_traceparent (get_traceparent_header (some (ensure_trace r1 r2 ctx)))
                  ≡ some (tc.trace_id, tc.span_id))))
unfolding trace_from_context
ensure_trace_header r1 r2 ctx h1 h2 = elim (Option-cases (trace_from_context ctx)) [
  | inl e ↦
      let made = trace-ensure_trace r1 r2 ctx none e in
      (
        new_trace r1 r2,
        made,
        inr (
          e,
          parse-get_traceparent (ensure_trace r1 r2 ctx) (new_trace r1 r2) made
              (record { trace = generate_id-IsId 16 r1 h1; span = generate_id-IsId 8 r2 h2 }),
        ),
      )
  | inr (tc, e) ↦ (tc, trace-ensure_trace r1 r2 ctx (some tc) e, inl e)
]
