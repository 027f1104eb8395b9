-- ===== src/Middleware/Requests.antt =====
-- What the middleware promises to each request.
use dify_sandbox.Base.{
  ℕ, ◌-◌, ◌≤◌, ◌<◌, ◌≡◌, refl, ap, ◌∙◌, ℤ, pos, pos_part, ◌≤ℤ◌, ◌↔◌, Bool, false, List, [], ◌∷◌,
  ◌++◌, arith, inl, inr, Bool-cases, Option, none, some, Bytes, ltb,
}
use dify_sandbox.Log.{Context, parse_traceparent, get_traceparent_header}
use dify_sandbox.Log.Roundtrip.{
  IsTrace, IsRandom, generate_id-IsId, parse_traceparent_sound, parse-get_traceparent,
}
use dify_sandbox.Middleware.{
  try_acquire, Pc, arriving, admitted, running, leaving, answered, refused, System, Step, arrive,
  refuse, admit, work, finish, leave, Reach, start, next, Headers, trace_or_new, trace_middleware,
}
use dify_sandbox.Middleware.Limits.{in_flight, at_work, total, total-middle, Inv, Step-Inv}

pub Reach-Inv : {r : ℤ} {w : ℕ} {s : System} → Reach r w s → Inv s
Reach-Inv start = unfold total in ground arith
Reach-Inv (next r st) = Step-Inv st (Reach-Inv r)

Step-limits :
    {s t : System} → Step s t → (t.max_requests ≡ s.max_requests) × (t.max_workers ≡ s.max_workers)
Step-limits arrive = (refl, refl)
Step-limits (refuse before after h e) = (refl, refl)
Step-limits (admit before after h e) = (refl, refl)
Step-limits (work before after h e) = (refl, refl)
Step-limits (finish before after h e) = (refl, refl)
Step-limits (leave before after h) = (refl, refl)

pub Reach-limits :
    {r : ℤ} {w : ℕ} {s : System} → Reach r w s → (s.max_requests ≡ r) × (s.max_workers ≡ w)
Reach-limits start = (refl, refl)
Reach-limits (next r st) =
    let (a, b) = Step-limits st in let (c, d) = Reach-limits r in (a ∙ c, b ∙ d)

module _ {r : ℤ} {w : ℕ} {s : System} (reach : Reach r w s) where
  -- However the requests interleave, no more than `max_requests` are admitted at a time and no
  -- more than `max_workers` run, and the next request is refused exactly if the limit is reached.
  pub limits_hold :
      (total in_flight s.requests ≤ pos_part r)
      × (total at_work s.requests ≤ w)
      × (((try_acquire s.max_requests s.current).0 ≡ false)
          ↔ (r ≤ℤ pos (total in_flight s.requests)))
  unfolding try_acquire
  limits_hold =
      let v = Reach-Inv reach in
      let (a, b) = Reach-limits reach in
      (
        omega (arith, v.within, ap pos_part a),
        omega (arith, v.workers, v.occupied, b),
        (λ h. ground arith, λ h. ground arith),
      )

abbrev pub IsOver : Pc → Type 0
IsOver answered = Unit
IsOver refused = Unit
IsOver _ = ⊥

-- A request of a kind that counts stands somewhere.
find :
    (xs : List Pc)
    → 0 < total at_work xs
    → (before after : List Pc) × (xs ≡ before ++ (running ∷ after))
unfolding total
find [] h = elim h [ ]
find (running ∷ xs) h = ([], xs, refl)
find (arriving ∷ xs) h =
    let (b, a, e) = find xs (omega arith) in (arriving ∷ b, a, ap (λ t. arriving ∷ t) e)
find (x ∷ xs) h = let (b, a, e) = find xs (omega arith) in (x ∷ b, a, ap (λ t. x ∷ t) e)

-- A step that is not the arrival of another request.
abbrev pub Serves : {s t : System} → Step s t → Type 0
Serves arrive = ⊥
Serves _ = Unit

abbrev pub Served : System → Type 0
Served s = (t : System) × (st : Step s t) × Serves st

finish_any : (s : System) → Inv s → 0 < s.sem → Served s
finish_any s v h =
    let (before, after, e) = find s.requests (omega (arith, v.occupied)) in
    (_, finish {n = s.sem - 1} before after e (omega arith), tt)

pub with_result : (p : Bool × ℤ) {b : Bool} → p.0 ≡ b → p ≡ (b, p.1)
with_result p e = λ i. (e i, p.1)

serves_at :
    (s : System) (x : Pc) (before after : List Pc)
    → Inv s
    → 0 < s.max_workers
    → s.requests ≡ before ++ (x ∷ after)
    → ¬ IsOver x
    → Served s
serves_at s arriving before after v h e u =
    elim (Bool-cases (try_acquire s.max_requests s.current).0) [
      | inl free ↦ (_, admit before after e (with_result _ free), tt)
      | inr taken ↦ (_, refuse before after e (with_result _ taken), tt)
    ]
serves_at s admitted before after v h e u = elim (Bool-cases (ltb s.sem s.max_workers)) [
  | inl room ↦ (_, work before after e (ground arith), tt)
  | inr full ↦ finish_any s v (ground arith)
]
serves_at s running before after v h e u =
    finish_any s v
      (omega (arith, v.occupied, ap (total at_work) e, total-middle at_work before after running))
serves_at s leaving before after v h e u = (_, leave before after e, tt)
serves_at s answered before after v h e u = absurd (u tt)
serves_at s refused before after v h e u = absurd (u tt)

-- With at least one worker the requests never block one another: as long as one of them is not
-- over, some request can go on without a new one arriving.
requests_progress :
    {r : ℤ} {w : ℕ} {s : System} (x : Pc) (before after : List Pc)
    → Reach r w s
    → 0 < w
    → s.requests ≡ before ++ (x ∷ after)
    → ¬ IsOver x
    → Served s
requests_progress {r} {w} {s} x before after reach h e u =
    serves_at s x before after (Reach-Inv reach) (omega (arith, (Reach-limits reach).1)) e u

trace_or_new-IsTrace :
    (r1 r2 : Option Bytes) (header : Bytes) (p : Option (Bytes × Bytes))
    → parse_traceparent header ≡ p
    → IsRandom 16 r1
    → IsRandom 8 r2
    → IsTrace (trace_or_new r1 r2 p)
trace_or_new-IsTrace r1 r2 header none e h1 h2 = record {
  trace = generate_id-IsId 16 r1 h1;
  span = generate_id-IsId 8 r2 h2;
}
trace_or_new-IsTrace r1 r2 header (some (t, s)) e h1 h2 =
    let (i, j, _) = parse_traceparent_sound header t s e in record { trace = i; span = j }

trace-trace_middleware :
    (r1 r2 : Option Bytes) (h : Headers) (ctx : Context)
    → (trace_middleware r1 r2 h ctx).trace
      ≡ some (trace_or_new r1 r2 (parse_traceparent h.traceparent))
unfolding trace_middleware
trace-trace_middleware r1 r2 h ctx = refl

-- Whatever the header of a request holds, behind `TraceMiddleware` the context has a well-formed
-- trace, the one of the header if that is accepted, and the header that is written for it is
-- accepted again.
trace_middleware_traces :
    (r1 r2 : Option Bytes) (h : Headers) (ctx : Context)
    → IsRandom 16 r1
    → IsRandom 8 r2
    → let tc = trace_or_new r1 r2 (parse_traceparent h.traceparent) in
      ((trace_middleware r1 r2 h ctx).trace ≡ some tc)
      × IsTrace tc
      × (parse_traceparent (get_traceparent_header (some (trace_middleware r1 r2 h ctx)))
          ≡ some (tc.trace_id, tc.span_id))
trace_middleware_traces r1 r2 h ctx h1 h2 =
    let v = trace_or_new-IsTrace r1 r2 h.traceparent (parse_traceparent h.traceparent) refl h1 h2 in
    let made = trace-trace_middleware r1 r2 h ctx in (made, v, parse-get_traceparent _ _ made v)
