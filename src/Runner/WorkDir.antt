-- ===== src/Runner/WorkDir.antt =====
-- The working directory of the process, which all runs share: `os.Chdir` in `WithTempDir`
-- (internal/core/runner/temp_dir.go), and `cmd.Start` in `InstallDependencies`
-- (internal/core/runner/python/setup.go), whose pip3 reads `requirements.txt` where it is started,
-- and in `Run` of Node.js (internal/core/runner/nodejs/nodejs.go), whose child calls chroot there.
use dify_sandbox.Base.{◌≡◌, refl, sym, List, [], ◌∷◌, ◌++◌, Bytes, All, All-append}

-- A call of `WithTempDir`: its directory is made, it is the working directory, or its function has
-- started a child, which runs in the directory that it was started in. A call may end at any time.
pub data Task : Type 0 where
  made : Bytes → Task
  entered : Bytes → Task
  started : Bytes → Bytes → Task

pub record Shared : Type 0 where
  pub cwd : Bytes
  pub tasks : List Task

pub data Step (s : Shared) : Shared → Type 0 where
  make : (dir : Bytes) → Step s (record s { tasks = s.tasks ++ (made dir ∷ []) })
  chdir :
      (dir : Bytes) (before after : List Task)
      → s.tasks ≡ before ++ (made dir ∷ after)
      → Step s (record { cwd = dir; tasks = before ++ (entered dir ∷ after) })
  start_child :
      (dir : Bytes) (before after : List Task)
      → s.tasks ≡ before ++ (entered dir ∷ after)
      → Step s (record s { tasks = before ++ (started dir s.cwd ∷ after) })
  leave :
      (x : Task) (before after : List Task)
      → s.tasks ≡ before ++ (x ∷ after)
      → Step s (record s { tasks = before ++ after })

abbrev idle : Bytes → Shared
idle base = record { cwd = base; tasks = [] }

pub data Execution (base : Bytes) : Shared → Type 0 where
  begin : Execution base (idle base)
  next : {s t : Shared} → Execution base s → Step s t → Execution base t

-- For any two directories there is an execution of two calls in which the second changes the
-- directory before the first starts its child: the child of the first is started in the directory
-- of the second.
pub child_in_other_dir :
    (base d e : Bytes) → Execution base (record { cwd = e; tasks = started d e ∷ entered e ∷ [] })
child_in_other_dir base d e =
    next
      (next (next (next (next begin (make d)) (make e)) (chdir d [] (made e ∷ []) refl))
        (chdir e (entered d ∷ []) [] refl))
      (start_child d [] (entered e ∷ []) refl)

-- No call is between its change of the directory and the start of its child.
abbrev pub Calm : List Task → Type 0
Calm [] = Unit
Calm (entered d ∷ ts) = ⊥
Calm (_ ∷ ts) = Calm ts

-- A step in a program whose calls change the directory only in calm.
abbrev pub Alone : {s t : Shared} → Step s t → Type 0
Alone {s} (chdir dir before after h) = Calm s.tasks
Alone _ = Unit

pub data AloneExecution (base : Bytes) : Shared → Type 0 where
  alone_begin : AloneExecution base (idle base)
  alone_next :
      {s t : Shared} → AloneExecution base s → (st : Step s t) → Alone st → AloneExecution base t

-- What holds of a call in a working directory.
abbrev pub Own : Bytes → Task → Type 0
Own cwd (made d) = Unit
Own cwd (entered d) = d ≡ cwd
Own cwd (started d c) = c ≡ d

replaced :
    (P : Task → Type 0) (x y : Task) (before after : List Task)
    → (P x → P y)
    → All P (before ++ (x ∷ after))
    → All P (before ++ (y ∷ after))
replaced P x y [] after f (h, hs) = (f h, hs)
replaced P x y (z ∷ before) after f (h, hs) = (h, replaced P x y before after f hs)

removed :
    (P : Task → Type 0) (x : Task) (before after : List Task)
    → All P (before ++ (x ∷ after))
    → All P (before ++ after)
removed P x [] after (h, hs) = hs
removed P x (z ∷ before) after (h, hs) = (h, removed P x before after hs)

Calm-Own : (c c' : Bytes) (ts : List Task) → Calm ts → All (Own c) ts → All (Own c') ts
Calm-Own c c' [] k h = tt
Calm-Own c c' (made d ∷ ts) k (h, hs) = (tt, Calm-Own c c' ts k hs)
Calm-Own c c' (entered d ∷ ts) k h = absurd k
Calm-Own c c' (started d e ∷ ts) k (h, hs) = (h, Calm-Own c c' ts k hs)

-- Where a call changes the directory only while no other is between its change and the start of its
-- child, each child was started in the directory of its own call, and a call that is in between has
-- its directory as the working directory.
children_at_home : {base : Bytes} {s : Shared} → AloneExecution base s → All (Own s.cwd) s.tasks
children_at_home alone_begin = tt
children_at_home (alone_next {s = s} r (make dir) k) =
    All-append (Own s.cwd) s.tasks (made dir ∷ []) (children_at_home r) (tt, tt)
children_at_home (alone_next {s = s} r (chdir dir before after h) k) =
    replaced (Own dir) (made dir) (entered dir) before after (λ x. refl)
      (rw h at (Calm-Own s.cwd dir s.tasks k (children_at_home r)))
children_at_home (alone_next {s = s} r (start_child dir before after h) k) =
    replaced (Own s.cwd) (entered dir) (started dir s.cwd) before after sym
      (rw h at (children_at_home r))
children_at_home (alone_next {s = s} r (leave x before after h) k) =
    removed (Own s.cwd) x before after (rw h at (children_at_home r))
