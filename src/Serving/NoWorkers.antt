-- ===== src/Serving/NoWorkers.antt =====
-- A server without workers, and how it comes to be one: `MaxWorkers, _ = strconv.Atoi(max_workers)` of
-- internal/static/config.go drops the error, and a channel without room takes nothing.
use dify_sandbox.Base.{
  ℕ, ◌≡◌, ◌≢◌, refl, ap, ◌∙◌, subst, ℤ, pos, pos_part, List, [], ◌∷◌, ◌++◌, some, Bytes, eqb-nil,
  All, arith,
}
use dify_sandbox.Text.Decimal.{atoi, atoi-syntax, syntax}
use dify_sandbox.Config.{Configuration, Host, good, init_config, int_or}
use dify_sandbox.Config.Workers.{with_workers, workers_set, init_config-workers}
use dify_sandbox.Middleware.Requests as Requests
use dify_sandbox.Serving.{
  Job, arriving, admitted, starting, using, executing, exited, collecting, leaving, refused,
  Service, Step, arrive, refuse, admit, work, acquires, answers, gives_up, releases, starts_child,
  exits, hook_releases, panics, finish, leave, Reach, start, next,
}
use dify_sandbox.Serving.Parts.{Reach-limits}

-- In front of the workers, or refused at the limit of requests.
abbrev pub IsUnserved : Job → Type 0
IsUnserved arriving = Unit
IsUnserved admitted = Unit
IsUnserved refused = Unit
IsUnserved _ = ⊥

All-at : (before after : List Job) (j : Job) → All IsUnserved (before ++ (j ∷ after)) → IsUnserved j
All-at [] after j (h, _) = h
All-at (i ∷ before) after j (_, h) = All-at before after j h

All-replace :
    (before after : List Job) (i j : Job)
    → All IsUnserved (before ++ (i ∷ after))
    → IsUnserved j
    → All IsUnserved (before ++ (j ∷ after))
All-replace [] after i j (_, h) k = (k, h)
All-replace (b ∷ before) after i j (hb, h) k = (hb, All-replace before after i j h k)

module _ {js : List Job} (h : All IsUnserved js) where
  moves :
      (before after : List Job) (i j : Job)
      → js ≡ before ++ (i ∷ after)
      → IsUnserved j
      → All IsUnserved (before ++ (j ∷ after))
  moves before after i j e k = All-replace before after i j (subst (All IsUnserved) e h) k

  stands : (before after : List Job) (i : Job) → js ≡ before ++ (i ∷ after) → IsUnserved i
  stands before after i e = All-at before after i (subst (All IsUnserved) e h)

Step-IsUnserved :
    {s t : Service} → Step s t → s.max_workers ≡ 0 → All IsUnserved s.jobs → All IsUnserved t.jobs
Step-IsUnserved arrive z h = (tt, h)
Step-IsUnserved (refuse before after e _) z h = moves h before after arriving refused e tt
Step-IsUnserved (admit before after e _) z h = moves h before after arriving admitted e tt
Step-IsUnserved (work before after e room) z h = absurd (omega arith)
Step-IsUnserved (acquires _ _ before after e _) z h = absurd (stands h before after starting e)
Step-IsUnserved (answers before after e) z h = absurd (stands h before after starting e)
Step-IsUnserved (gives_up _ _ before after e _) z h = absurd (stands h before after starting e)
Step-IsUnserved (releases u before after e _) z h = absurd (stands h before after (using u) e)
Step-IsUnserved (starts_child u before after e) z h = absurd (stands h before after (using u) e)
Step-IsUnserved (exits u before after e) z h = absurd (stands h before after (executing u) e)
Step-IsUnserved (hook_releases u before after e _) z h = absurd (stands h before after (exited u) e)
Step-IsUnserved (panics u before after e) z h = absurd (stands h before after (using u) e)
Step-IsUnserved (finish before after e _) z h = absurd (stands h before after collecting e)
Step-IsUnserved (leave before after e) z h = absurd (stands h before after leaving e)

Reach-IsUnserved :
    {r : ℤ} {w min max : ℕ} {s : Service} → Reach r w min max s → w ≡ 0 → All IsUnserved s.jobs
Reach-IsUnserved (start h) z = tt
Reach-IsUnserved (next r st) z =
    let (_, same) = Requests.Reach-limits (Reach-limits r) in
    Step-IsUnserved st (same ∙ z) (Reach-IsUnserved r z)

abbrev pub workerless : Configuration → Configuration
workerless c = record c { max_workers = pos 0 }

no_value : (t : Bytes) (old : ℤ) → t ≢ [] → (atoi t).1 ≡ some syntax → int_or t old ≡ pos 0
unfolding int_or
no_value t old ne e = rw (eqb-nil t ne, atoi-syntax t e) refl

-- Where `InitConfig` accepts a configuration, it accepts it, too, where MAX_WORKERS is set to a text that
-- is no number, for which `Atoi` has a syntax error: without a worker. A server with this configuration
-- never serves a request: whatever happens, each is refused or waits, since no request gets past
-- `MaxWorker`.
pub unread_workers :
    {r : ℤ} {min max : ℕ} {s : Service} (text : Bytes) (h : Host) (c0 c : Configuration)
    → init_config h (some c0) ≡ good c
    → text ≢ []
    → (atoi text).1 ≡ some syntax
    → Reach r (pos_part (workerless c).max_workers) min max s
    → (init_config (with_workers text h) (some c0) ≡ good (workerless c)) × All IsUnserved s.jobs
unread_workers text h c0 c ok ne e reach = (
  init_config-workers text h c0
      ∙ ap (λ w. workers_set w (init_config h (some c0))) (no_value text c0.max_workers ne e)
      ∙ ap (workers_set (pos 0)) ok,
  Reach-IsUnserved reach refl,
)
