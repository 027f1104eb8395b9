-- ===== src/Runner/Release.antt =====
-- Every resource of a run is given back once.
use dify_sandbox.Base.{
  ℕ, suc, ◌≡◌, ◌≢◌, ◌≤◌, refl, true, List, [], ◌∷◌, ◌++◌, Option, none, some, Bytes, arith, ◌⊎◌,
  inr, ◌==◌, if◌then◌else◌,
}
use dify_sandbox.Runner.Resources.{
  Resource, uid, script, root, pipe, timer, stdout_reader, stderr_reader, Effect, took, gave, Ran,
  StartCalls, ScriptCalls, TempCalls, after_exit, python_hook, nodejs_hook, run_python, run_nodejs,
  copy_paths, or_else,
}

abbrev index : Resource → ℕ
index uid = 0
index script = 1
index root = 2
index pipe = 3
index timer = 4
index stdout_reader = 5
index stderr_reader = 6

-- How often a resource is taken.
unfoldable pub taken : Resource → List Effect → ℕ
taken r [] = 0
taken r (took s ∷ t) = if index r == index s then suc (taken r t) else taken r t
taken r (gave s ∷ t) = taken r t

-- How often it is given back.
unfoldable pub given : Resource → List Effect → ℕ
given r [] = 0
given r (took s ∷ t) = given r t
given r (gave s ∷ t) = if index r == index s then suc (given r t) else given r t

-- What holds of a run, in parts.
record Clean (Excused : Resource → Type 0) (hook : List Effect) (ran : Ran) : Type 0 where
  -- Nothing is taken twice.
  once : (r : Resource) → taken r ran.0 ≤ 1
  -- Behind an error everything is given back, and once.
  failed : ran.1 ≢ none → (r : Resource) → Excused r ⊎ (given r ran.0 ≡ taken r ran.0)
  -- Without an error nothing is given back before the exit, and everything at the exit, once.
  running : ran.1 ≡ none → (r : Resource) → given r ran.0 ≡ 0
  exited : ran.1 ≡ none → (r : Resource) → given r (ran.0 ++ after_exit hook) ≡ taken r ran.0

-- The state of a resource at the end of a run: taken at most once; behind an error given back as
-- often, unless it is `Excused`; without one not given back before the exit, and at the exit once.
abbrev pub Ends : (Resource → Type 0) → List Effect → Ran → Resource → Type 0
Ends Excused hook (t, some e) r = (taken r t ≤ 1) × (Excused r ⊎ (given r t ≡ taken r t))
Ends Excused hook (t, none) r =
    (taken r t ≤ 1) × (given r t ≡ 0) × (given r (t ++ after_exit hook) ≡ taken r t)

Clean-Ends :
    {Excused : Resource → Type 0} {hook : List Effect} (ran : Ran)
    → Clean Excused hook ran
    → (r : Resource) → Ends Excused hook ran r
Clean-Ends (t, some e) v r = (v.once r, v.failed (λ q. cc) r)
Clean-Ends (t, none) v r = (v.once r, v.running refl r, v.exited refl r)

abbrev ScriptLeft : ScriptCalls → Resource → Type 0
ScriptLeft sc r = (r ≡ script) × (sc.left ≡ true)

abbrev DirectoryLeft : TempCalls → List Bytes → Resource → Type 0
DirectoryLeft temp paths r = (r ≡ root) × (or_else (copy_paths temp paths) temp.chdir ≢ none)

run_python-Clean :
    (acquire_uid : Option Bytes) (sc : ScriptCalls) (os_pipe : Option Bytes) (st : StartCalls)
    → Clean (ScriptLeft sc) python_hook (run_python acquire_uid sc os_pipe st)
unfolding run_python after_exit taken given
run_python-Clean (some e) sc os_pipe st = record {
  once = λ r. ground arith;
  failed = λ h r. inr refl;
  running = λ h r. refl;
  exited = λ h r. ground arith;
}
run_python-Clean none sc os_pipe st = record {
  once = λ r. ground arith;
  failed = λ h r. ground arith;
  running = λ h r. ground arith;
  exited = λ h r. ground arith;
}

-- `Run` of Python, if it does not panic, takes each resource at most once. If it returns an error
-- it has given it back as often as it took it, but for a script that a failing write may have left.
-- If it returns none, it has not given it back, and the exit of the process does so as often as it
-- was taken.
pub run_python-Ends :
    (acquire_uid : Option Bytes) (sc : ScriptCalls) (os_pipe : Option Bytes) (st : StartCalls)
    (r : Resource)
    → Ends
        (λ x. (x ≡ script) × (sc.left ≡ true))
        python_hook
        (run_python acquire_uid sc os_pipe st)
        r
run_python-Ends acquire_uid sc os_pipe st r =
    Clean-Ends (run_python acquire_uid sc os_pipe st) (run_python-Clean acquire_uid sc os_pipe st) r

run_nodejs-Clean :
    (acquire_uid : Option Bytes) (temp : TempCalls) (paths : List Bytes)
    (init os_pipe : Option Bytes) (st : StartCalls)
    → Clean
        (DirectoryLeft temp paths)
        nodejs_hook
        (run_nodejs acquire_uid temp paths init os_pipe st)
unfolding run_nodejs after_exit taken given
run_nodejs-Clean (some e) temp paths init os_pipe st = record {
  once = λ r. ground arith;
  failed = λ h r. inr refl;
  running = λ h r. refl;
  exited = λ h r. ground arith;
}
run_nodejs-Clean none temp paths init os_pipe st = record {
  once = λ r. ground arith;
  failed = λ h r. ground arith;
  running = λ h r. ground arith;
  exited = λ h r. ground arith;
}

-- `Run` of Node.js, if it does not panic, takes each resource at most once. If it returns an error
-- it has given it back as often as it took it, but for a temporary directory into which a copy, or
-- the change to which, failed. If it returns none, it has not given it back, and the exit of the
-- process does so as often as it was taken.
pub run_nodejs-Ends :
    (acquire_uid : Option Bytes) (temp : TempCalls) (paths : List Bytes)
    (init os_pipe : Option Bytes) (st : StartCalls) (r : Resource)
    → Ends
        (λ x. (x ≡ root) × (or_else (copy_paths temp paths) temp.chdir ≢ none))
        nodejs_hook
        (run_nodejs acquire_uid temp paths init os_pipe st)
        r
run_nodejs-Ends acquire_uid temp paths init os_pipe st r =
    Clean-Ends (run_nodejs acquire_uid temp paths init os_pipe st)
      (run_nodejs-Clean acquire_uid temp paths init os_pipe st) r

-- Where `Run` of Node.js makes its temporary directory and a copy into it or the change to it
-- fails, it returns that error, takes the directory once and never removes it, and gives the
-- identifier back once.
temp_dir_stays :
    (temp : TempCalls) (paths : List Bytes) (init os_pipe : Option Bytes) (st : StartCalls)
    (e : Bytes)
    → temp.new_random ≡ none
    → temp.mkdir ≡ none
    → or_else (copy_paths temp paths) temp.chdir ≡ some e
    → ((run_nodejs none temp paths init os_pipe st).1 ≡ some e)
      × (taken root (run_nodejs none temp paths init os_pipe st).0 ≡ 1)
      × (given root (run_nodejs none temp paths init os_pipe st).0 ≡ 0)
      × (given uid (run_nodejs none temp paths init os_pipe st).0 ≡ 1)
unfolding run_nodejs taken given
temp_dir_stays temp paths init os_pipe st e made_name made_dir fails = ground arith
