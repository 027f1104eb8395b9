-- ===== src/Serving/Ending.antt =====
-- How many steps the requests take.
use dify_sandbox.Base.{
  ℕ, suc, ◌+◌, ◌*◌, ◌-◌, ◌≤◌, ◌<◌, ◌≡◌, refl, ap, ℤ, List, [], ◌∷◌, ◌++◌, length, arith,
}
use dify_sandbox.Middleware.Requests as Requests
use dify_sandbox.Serving.{
  Job, arriving, admitted, starting, using, executing, exited, collecting, leaving, answered,
  refused, Service, Step, arrive, refuse, admit, work, acquires, answers, gives_up, releases,
  starts_child, exits, hook_releases, panics, finish, leave, Reach, start, next, pc_of,
}
use dify_sandbox.Serving.Progress.{Served, service_progress}

-- How many steps a request can still take.
abbrev job_left : Job → ℕ
job_left arriving = 8
job_left admitted = 7
job_left starting = 6
job_left (using u) = 5
job_left (executing u) = 4
job_left (exited u) = 3
job_left collecting = 2
job_left leaving = 1
job_left answered = 0
job_left refused = 0

left : List Job → ℕ
left [] = 0
left (j ∷ js) = job_left j + left js

left-middle :
    (before after : List Job) (j : Job)
    → left (before ++ (j ∷ after)) ≡ job_left j + left (before ++ after)
unfolding left
left-middle [] after j = refl
left-middle (i ∷ before) after j = omega (arith, left-middle before after j)

-- The arrivals of an execution, and all of its steps.
abbrev is_arrival : {s t : Service} → Step s t → ℕ
is_arrival arrive = 1
is_arrival _ = 0

abbrev pub arrivals : {r : ℤ} {w min max : ℕ} {s : Service} → Reach r w min max s → ℕ
arrivals (start h) = 0
arrivals (next reach st) = is_arrival st + arrivals reach

abbrev pub steps : {r : ℤ} {w min max : ℕ} {s : Service} → Reach r w min max s → ℕ
steps (start h) = 0
steps (next reach st) = suc (steps reach)

moved :
    (s : Service) (before after : List Job) (i j : Job)
    → s.jobs ≡ before ++ (i ∷ after)
    → left (before ++ (j ∷ after)) + job_left i ≡ left s.jobs + job_left j
moved s before after i j e =
    omega (arith, ap left e, left-middle before after i, left-middle before after j)

Step-left : {s t : Service} (st : Step s t) → suc (left t.jobs) ≤ left s.jobs + 9 * is_arrival st
Step-left arrive = unfold left in omega arith
Step-left {s} (refuse b a e _) = omega (arith, moved s b a arriving refused e)
Step-left {s} (admit b a e _) = omega (arith, moved s b a arriving admitted e)
Step-left {s} (work b a e _) = omega (arith, moved s b a admitted starting e)
Step-left {s} (acquires {u = u} _ _ b a e _) = omega (arith, moved s b a starting (using u) e)
Step-left {s} (answers b a e) = omega (arith, moved s b a starting collecting e)
Step-left {s} (gives_up _ _ b a e _) = omega (arith, moved s b a starting collecting e)
Step-left {s} (releases u b a e _) = omega (arith, moved s b a (using u) collecting e)
Step-left {s} (starts_child u b a e) = omega (arith, moved s b a (using u) (executing u) e)
Step-left {s} (exits u b a e) = omega (arith, moved s b a (executing u) (exited u) e)
Step-left {s} (hook_releases u b a e _) = omega (arith, moved s b a (exited u) collecting e)
Step-left {s} (panics u b a e) = omega (arith, moved s b a (using u) collecting e)
Step-left {s} (finish b a e _) = omega (arith, moved s b a collecting leaving e)
Step-left {s} (leave b a e) = omega (arith, moved s b a leaving answered e)

Reach-left :
    {r : ℤ} {w min max : ℕ} {s : Service} (reach : Reach r w min max s)
    → steps reach + left s.jobs ≤ 9 * arrivals reach
Reach-left (start h) = unfold left in omega arith
Reach-left (next reach st) = omega (arith, Reach-left reach, Step-left st)

-- With at least one worker, and no more than the pool has identifiers that no panic has lost, each
-- request comes to its end once no new ones arrive: an execution has at most nine steps for each
-- arrival, and as long as a request is not over, some request can go on without a new one arriving.
pub requests_end :
    {r : ℤ} {w min max : ℕ} {s : Service} (reach : Reach r w min max s) (j : Job)
    (before after : List Job)
    → 0 < w
    → w + length s.lost ≤ max - min
    → s.jobs ≡ before ++ (j ∷ after)
    → ¬ Requests.IsOver (pc_of j)
    → (steps reach ≤ 9 * arrivals reach) × Served s
requests_end reach j before after lots few e u =
    (omega (arith, Reach-left reach), service_progress reach j before after lots few e u)
