-- ===== src/Serving.antt =====
-- A request to run code on its whole way: through `MaxRequest` and `MaxWorker` of
-- internal/middleware/cocrrent.go, and in `c.Next()` through `Run` of a runner
-- (internal/core/runner/python/python.go, internal/core/runner/nodejs/nodejs.go), which acquires an
-- identifier of internal/core/runner/uidpool/uid_pool.go and releases it before the answer: on an
-- error before it returns, and else in the hook, which is called before `done` is sent. A
-- run that panics keeps its identifier, while the deferred calls of the middleware are made.
pub mod Ending
pub mod Holders
pub mod Isolation
pub mod NoWorkers
pub mod Parts
pub mod Progress
pub mod Workers
use dify_sandbox.Base.{
  ℕ, suc, ◌+◌, ◌<◌, ◌≡◌, ℤ, pos, Bool, true, false, List, [], ◌∷◌, ◌++◌, some, map,
}
use dify_sandbox.Middleware.{try_acquire, Pc, System}
use dify_sandbox.Middleware as Middleware
use dify_sandbox.UidPool.{UidPool, new_uid_pool, uid, exhausted, acquire}
use dify_sandbox.UidPool as UidPool

-- Where a request stands.
pub data Job : Type 0 where
  arriving admitted : Job
  starting : Job  -- in `c.Next()` of `MaxWorker`, before `AcquireUID`
  using : ℕ → Job  -- with an identifier, before the start of a child
  executing : ℕ → Job  -- with a child under this identifier
  exited : ℕ → Job  -- before the after-exit hook
  collecting : Job  -- behind its release, or without one
  leaving answered refused : Job

pub record Service : Type 0 where
  pub max_requests : ℤ
  pub max_workers : ℕ
  pub current : ℤ
  pub sem : ℕ
  pub pool : UidPool
  pub lost : List ℕ  -- what runs that panicked held
  pub jobs : List Job

-- One step of one request.
pub data Step (s : Service) : Service → Type 0 where
  arrive : Step s (record s { jobs = arriving ∷ s.jobs })
  refuse :
      {current : ℤ} (before after : List Job)
      → s.jobs ≡ before ++ (arriving ∷ after)
      → try_acquire s.max_requests s.current ≡ (false, current)
      → Step s (record s { current = current; jobs = before ++ (refused ∷ after) })
  admit :
      {current : ℤ} (before after : List Job)
      → s.jobs ≡ before ++ (arriving ∷ after)
      → try_acquire s.max_requests s.current ≡ (true, current)
      → Step s (record s { current = current; jobs = before ++ (admitted ∷ after) })
  work :
      (before after : List Job)
      → s.jobs ≡ before ++ (admitted ∷ after)
      → s.sem < s.max_workers
      → Step s (record s { sem = s.sem + 1; jobs = before ++ (starting ∷ after) })
  acquires :
      {u : ℕ} {p : UidPool} (done choice : Bool) (before after : List Job)
      → s.jobs ≡ before ++ (starting ∷ after)
      → acquire done choice s.pool ≡ (uid u, p)
      → Step s (record s { pool = p; jobs = before ++ (using u ∷ after) })
  answers :  -- without a run: the body, the language or the options are refused
      (before after : List Job)
      → s.jobs ≡ before ++ (starting ∷ after)
      → Step s (record s { jobs = before ++ (collecting ∷ after) })
  gives_up :
      {p : UidPool} (done choice : Bool) (before after : List Job)
      → s.jobs ≡ before ++ (starting ∷ after)
      → acquire done choice s.pool ≡ (exhausted, p)
      → Step s (record s { pool = p; jobs = before ++ (collecting ∷ after) })
  releases :  -- with an error, before a child is started
      (u : ℕ) {p : UidPool} (before after : List Job)
      → s.jobs ≡ before ++ (using u ∷ after)
      → UidPool.release u s.pool ≡ some p
      → Step s (record s { pool = p; jobs = before ++ (collecting ∷ after) })
  starts_child :
      (u : ℕ) (before after : List Job)
      → s.jobs ≡ before ++ (using u ∷ after)
      → Step s (record s { jobs = before ++ (executing u ∷ after) })
  exits :  -- `cmd.Process.Wait` returns the status of the child
      (u : ℕ) (before after : List Job)
      → s.jobs ≡ before ++ (executing u ∷ after)
      → Step s (record s { jobs = before ++ (exited u ∷ after) })
  hook_releases :
      (u : ℕ) {p : UidPool} (before after : List Job)
      → s.jobs ≡ before ++ (exited u ∷ after)
      → UidPool.release u s.pool ≡ some p
      → Step s (record s { pool = p; jobs = before ++ (collecting ∷ after) })
  panics :  -- recovered by the web framework, behind the deferred calls of the middleware
      (u : ℕ) (before after : List Job)
      → s.jobs ≡ before ++ (using u ∷ after)
      → Step s (record s { lost = u ∷ s.lost; jobs = before ++ (collecting ∷ after) })
  finish :
      {n : ℕ} (before after : List Job)
      → s.jobs ≡ before ++ (collecting ∷ after)
      → s.sem ≡ suc n
      → Step s (record s { sem = n; jobs = before ++ (leaving ∷ after) })
  leave :
      (before after : List Job)
      → s.jobs ≡ before ++ (leaving ∷ after)
      → Step s
          (record s { current = Middleware.release s.current; jobs = before ++ (answered ∷ after) })

abbrev pub init : ℤ → ℕ → UidPool → Service
init max_requests max_workers pool = record {
  max_requests = max_requests;
  max_workers = max_workers;
  current = pos 0;
  sem = 0;
  pool = pool;
  lost = [];
  jobs = [];
}

pub data Reach (max_requests : ℤ) (max_workers min max : ℕ) : Service → Type 0 where
  start :
      {p : UidPool}
      → new_uid_pool min max ≡ some p
      → Reach max_requests max_workers min max (init max_requests max_workers p)
  next :
      {s t : Service}
      → Reach max_requests max_workers min max s
      → Step s t
      → Reach max_requests max_workers min max t

-- What the middleware sees of a request, and the identifier that it holds.
abbrev pub pc_of : Job → Pc
pc_of arriving = Pc.arriving
pc_of admitted = Pc.admitted
pc_of leaving = Pc.leaving
pc_of answered = Pc.answered
pc_of refused = Pc.refused
pc_of _ = Pc.running

abbrev pub uid_of : Job → List ℕ
uid_of (using u) = u ∷ []
uid_of (executing u) = u ∷ []
uid_of (exited u) = u ∷ []
uid_of _ = []

abbrev pub limits : Service → System
limits s = record {
  max_requests = s.max_requests;
  max_workers = s.max_workers;
  current = s.current;
  sem = s.sem;
  requests = map pc_of s.jobs;
}

abbrev pub held : List Job → List ℕ
held [] = []
held (j ∷ js) = uid_of j ++ held js

-- The identifiers that are not in the pool.
abbrev pub taken : Service → List ℕ
taken s = held s.jobs ++ s.lost
