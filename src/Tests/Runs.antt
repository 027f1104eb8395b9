-- ===== src/Tests/Runs.antt =====
-- A run and its filter.
use dify_sandbox.Base.{
  ◌≡◌, ◌≢◌, refl, pos, negsuc, true, false, [], ◌∷◌, ◌++◌, none, some, Bytes, codes, arith,
}
use dify_sandbox.Text.Split.{join}
use dify_sandbox.Text.Decimal.{itoa, format}
use dify_sandbox.Config.{Configuration, good, finish_config}
use dify_sandbox.Runner.Resources.{
  uid, script, root, pipe, StartCalls, ScriptCalls, TempCalls, python_hook, nodejs_hook, run_python,
  run_nodejs, copy_paths, or_else,
}
use dify_sandbox.Runner.Release.{Ends, run_python-Ends, run_nodejs-Ends}
use dify_sandbox.Runner.{build_bootstrap}
use dify_sandbox.Runner.Bootstrap.{template, network_flag, build_bootstrap_lem}
use dify_sandbox.Runner.Syscalls.{Filtered, syscalls_reach_filter}
use dify_sandbox.Seccomp.{Lists, python_lists, nodejs_lists}
use dify_sandbox.Seccomp.Tables.{arm64}
use dify_sandbox.Seccomp.Policy.{Restricts, default_policy}

-- The process cannot be started.
abbrev pub no_start : StartCalls
no_start = record { stdout_pipe = none; stderr_pipe = none; start = some (codes "exec") }

abbrev pub script_written : ScriptCalls
script_written = record { mkdir_all = none; write_file = none; left = false; chown = none }

run_python-Ends_example :
    Ends
      (λ x. (x ≡ script) × (false ≡ true))
      python_hook
      (run_python none script_written none no_start)
      uid
run_python-Ends_example = run_python-Ends none script_written none no_start uid

-- One file is copied, and `cp` fails.
abbrev pub no_copy : TempCalls
no_copy = record {
  new_random = none;
  mkdir = none;
  stat = λ p. some false;
  mkdir_all = λ p. none;
  dir_mkdir_all = λ p. none;
  cp = λ p. some (codes "full");
  chdir = none;
}

run_nodejs-Ends_example :
    Ends
      (λ x. (x ≡ root) × (or_else (copy_paths no_copy (codes "/etc/hosts" ∷ [])) none ≢ none))
      nodejs_hook
      (run_nodejs none no_copy (codes "/etc/hosts" ∷ []) none none no_start)
      pipe
run_nodejs-Ends_example =
    run_nodejs-Ends none no_copy (codes "/etc/hosts" ∷ []) none none no_start pipe

abbrev pub from_file : Configuration
from_file = record {
  port = pos 8194;
  debug = true;
  key = codes "dify-sandbox";
  max_workers = pos 4;
  max_requests = pos 50;
  worker_timeout = pos 5;
  python_path = codes "/opt/python/bin/python3";
  python_lib_paths = [];
  python_pip_mirror_url = [];
  python_deps_update_interval = [];
  nodejs_path = [];
  enable_network = true;
  enable_preload = false;
  allowed_syscalls = [];
  log_path = [];
  socks5 = [];
  https = [];
  http = [];
}

-- The environment that answers every question with the two numbers.
abbrev two_calls : Bytes → Bytes
two_calls name = codes "1,-2"

syscalls_reach_filter_example :
    (c : Configuration) × (finish_config two_calls from_file ≡ good c)
    × Filtered c (codes "1,-2") (pos 1 ∷ negsuc 1 ∷ [])
unfolding join itoa
syscalls_reach_filter_example =
    syscalls_reach_filter two_calls from_file (pos 1) (negsuc 1 ∷ [])
      (omega arith, (omega arith, tt)) refl

-- A script with one line before and one behind each placeholder, and a preload with a placeholder.
build_bootstrap_lem_example :
    build_bootstrap
      (pos 5)
      (template (codes "a\n") (codes "b\n") (codes "c\n") (codes "d\n") (codes "{e}"))
      (codes "{{uid}}")
      true
      7
    ≡ codes "a\n"
      ++ ((codes "{{uid}}" ++ codes "\n")
          ++ (codes "b\n"
              ++ (format 7
                  ++ (codes "c\n"
                      ++ (itoa (pos 5) ++ (codes "d\n" ++ (network_flag true ++ codes "{e}")))))))
build_bootstrap_lem_example =
    build_bootstrap_lem (pos 5) 7 true (codes "a\n") (codes "b\n") (codes "c\n") (codes "d\n")
      (codes "{e}") (codes "{{uid}}") (ground arith) (ground arith) (ground arith) (ground arith)

abbrev pub no_calls : Lists
no_calls = record { allowed = []; errno = [] }

default_policy_example :
    Restricts arm64 true (python_lists arm64 [] true).allowed
    × Restricts arm64 true (nodejs_lists arm64 [] true).allowed
default_policy_example = default_policy arm64 true
