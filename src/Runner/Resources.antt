-- ===== src/Runner/Resources.antt =====
-- What `Run` of both runners, `WithTempDir` and the start of `CaptureOutput` take and give back.
-- Whether a call of the system fails is the argument; an error is its text. The libraries of the
-- runners are there, or can be released.
use dify_sandbox.Base.{
  Bool, true, false, List, [], ◌∷◌, ◌++◌, Option, none, some, Bytes, if◌then◌else◌,
}

pub data Resource : Type 0 where
  uid script root pipe timer stdout_reader stderr_reader : Resource

pub data Effect : Type 0 where
  took gave : Resource → Effect

-- What was done, and the error that is returned.
abbrev pub Ran : Type 0
Ran = List Effect × Option Bytes

-- The calls in `CaptureOutput` up to the start of its goroutines.
pub record StartCalls : Type 0 where
  pub stdout_pipe : Option Bytes
  pub stderr_pipe : Option Bytes
  pub start : Option Bytes

-- The start of `CaptureOutput`.
unfoldable pub start_capture : StartCalls → Ran
start_capture calls = elim calls.stdout_pipe [
  | some e ↦ (took timer ∷ gave timer ∷ [], some e)
  | none ↦ elim calls.stderr_pipe [
    | some e ↦ (took timer ∷ took stdout_reader ∷ gave stdout_reader ∷ gave timer ∷ [], some e)
    | none ↦ elim calls.start [
      | some e ↦ (
        took timer
            ∷ took stdout_reader
            ∷ took stderr_reader
            ∷ gave stdout_reader
            ∷ gave stderr_reader
            ∷ gave timer
            ∷ [],
        some e,
      )
      | none ↦ (took timer ∷ took stdout_reader ∷ took stderr_reader ∷ [], none)
    ]
  ]
]

-- What the goroutines of `CaptureOutput` give back, with the after-exit hook.
unfoldable pub after_exit : List Effect → List Effect
after_exit hook = gave stdout_reader ∷ gave stderr_reader ∷ (hook ++ (gave timer ∷ []))

-- `InitializeEnvironment` of Python; a failing `os.WriteFile` may leave a file, which `left` says.
pub record ScriptCalls : Type 0 where
  pub mkdir_all : Option Bytes
  pub write_file : Option Bytes
  pub left : Bool
  pub chown : Option Bytes

unfoldable pub initialize_environment : ScriptCalls → Ran
initialize_environment calls = elim calls.mkdir_all [
  | some e ↦ ([], some e)
  | none ↦ elim calls.write_file [
    | some e ↦ (if calls.left then took script ∷ [] else [], some e)
    | none ↦ elim calls.chown [
      | some e ↦ (took script ∷ gave script ∷ [], some e)
      | none ↦ (took script ∷ [], none)
    ]
  ]
]

-- The hook that the Python runner sets.
abbrev pub python_hook : List Effect
python_hook = gave pipe ∷ gave script ∷ gave uid ∷ []

-- The end of `Run` of Python, behind the pipe: `CaptureOutput` fails or runs.
abbrev pub python_captured : List Effect → Ran → Ran
python_captured before (t, some e) =
    (before ++ (t ++ (gave pipe ∷ gave script ∷ gave uid ∷ [])), some e)
python_captured before (t, none) = (before ++ t, none)

abbrev pub python_piped : Option Bytes → StartCalls → Ran → Ran
python_piped os_pipe calls (t, some e) = ((took uid ∷ t) ++ (gave uid ∷ []), some e)
python_piped (some e) calls (t, none) = ((took uid ∷ t) ++ (gave script ∷ gave uid ∷ []), some e)
python_piped none calls (t, none) =
    python_captured ((took uid ∷ t) ++ (took pipe ∷ [])) (start_capture calls)

-- `PythonRunner.Run`
unfoldable pub run_python : Option Bytes → ScriptCalls → Option Bytes → StartCalls → Ran
unfolding start_capture initialize_environment
run_python acquire_uid script_calls os_pipe calls = elim acquire_uid [
  | some e ↦ ([], some e)
  | none ↦ python_piped os_pipe calls (initialize_environment script_calls)
]

-- The calls of `WithTempDir`: `stat` answers whether a path is a directory.
pub record TempCalls : Type 0 where
  pub new_random : Option Bytes
  pub mkdir : Option Bytes
  pub stat : Bytes → Option Bool
  pub mkdir_all : Bytes → Option Bytes
  pub dir_mkdir_all : Bytes → Option Bytes  -- of `path.Dir`, for a file
  pub cp : Bytes → Option Bytes
  pub chdir : Option Bytes

abbrev pub or_else : Option Bytes → Option Bytes → Option Bytes
or_else none e = e
or_else (some e) e' = some e

-- One path: it is passed over if it is not there.
unfoldable pub copy_path : TempCalls → Bytes → Option Bytes
copy_path calls p = elim (calls.stat p) [
  | none ↦ none
  | some true ↦ or_else (calls.mkdir_all p) (calls.cp p)
  | some false ↦ or_else (calls.dir_mkdir_all p) (calls.cp p)
]

-- The loop over the paths, up to the first error.
unfoldable pub copy_paths : TempCalls → List Bytes → Option Bytes
unfolding copy_path
copy_paths calls [] = none
copy_paths calls (p ∷ ps) = or_else (copy_path calls p) (copy_paths calls ps)

-- `WithTempDir`
unfoldable pub with_temp_dir : TempCalls → List Bytes → Ran → Ran
unfolding copy_paths
with_temp_dir calls paths closure = elim (or_else calls.new_random calls.mkdir) [
  | some e ↦ ([], some e)
  | none ↦ elim (or_else (copy_paths calls paths) calls.chdir) [
    | some e ↦ (took root ∷ [], some e)
    | none ↦ (took root ∷ closure.0, closure.1)
  ]
]

-- The hook that the Node.js runner sets.
abbrev pub nodejs_hook : List Effect
nodejs_hook = gave pipe ∷ gave root ∷ gave uid ∷ []

abbrev pub nodejs_captured : Ran → Ran
nodejs_captured (t, some e) = ((took pipe ∷ t) ++ (gave pipe ∷ gave root ∷ []), some e)
nodejs_captured (t, none) = (took pipe ∷ t, none)

-- The function that `Run` of Node.js hands to `WithTempDir`.
unfoldable pub nodejs_closure : Option Bytes → Option Bytes → StartCalls → Ran
unfolding start_capture
nodejs_closure init os_pipe calls = elim (or_else init os_pipe) [
  | some e ↦ (gave root ∷ [], some e)
  | none ↦ nodejs_captured (start_capture calls)
]

abbrev pub nodejs_released : Ran → Ran
nodejs_released (t, some e) = ((took uid ∷ t) ++ (gave uid ∷ []), some e)
nodejs_released (t, none) = (took uid ∷ t, none)

-- `NodeJsRunner.Run`; `init` is the error of its `InitializeEnvironment`.
unfoldable pub run_nodejs :
    Option Bytes → TempCalls → List Bytes → Option Bytes → Option Bytes → StartCalls → Ran
unfolding with_temp_dir nodejs_closure
run_nodejs acquire_uid temp paths init os_pipe calls = elim acquire_uid [
  | some e ↦ ([], some e)
  | none ↦ nodejs_released (with_temp_dir temp paths (nodejs_closure init os_pipe calls))
]
