-- ===== src/Tests/Setup.antt =====
-- The start of the server: the configuration, the libraries of Python, its packages.
use dify_sandbox.Base.{
  ◌≡◌, pos, pos_part, All, range_from, refl, false, [], ◌∷◌, none, some, codes, eqb, if◌then◌else◌,
}
use dify_sandbox.Discovery.{
  Files, DiscoveryResult, build_python_lib_paths, dedupe_paths, contains_path, checked_paths,
  normalize_absolute_path, normalized, is_canonical_json_relative_path, resolve_python_path,
}
use dify_sandbox.Text.FilePath.{clean, is_abs}
use dify_sandbox.Discovery.Paths.{Complete, build-Complete}
use dify_sandbox.Seccomp.Tables.{amd64}
use dify_sandbox.Config.{
  Configuration, Host, init_config, with_app_env, with_run_env, with_syscalls, with_proxies,
  finish_config, discover_python_lib_paths, system_paths, string_or, int_or, bool_or,
}
use dify_sandbox.Config.Workers.{with_workers}
use dify_sandbox.Config.{good}
use dify_sandbox.Text.Decimal.{atoi}
use dify_sandbox.Middleware.{try_acquire}
use dify_sandbox.UidPool.{new_uid_pool}
use dify_sandbox.Serving.{Service, init, admitted, Reach, start, next, arrive, admit}
use dify_sandbox.Serving.NoWorkers.{workerless, IsUnserved, unread_workers}
use dify_sandbox.Tests.Runs.{from_file}

-- A system where every file is there and can be executed.
abbrev every_file : Files
every_file = record {
  stat = λ p. some (record { is_dir = false; perm = 493 });
  eval_symlinks = λ p. some p;
}

abbrev one_root : DiscoveryResult
one_root = record {
  paths = [];
  stdlib = codes "/py";
  platstdlib = [];
  stdlib_zip_paths = [];
  json_relative_path = codes "json";
  json_root = codes "/py";
}

build-Complete_example : Complete every_file one_root [] (codes "/py" ∷ [])
unfolding build_python_lib_paths checked_paths normalize_absolute_path normalized contains_path
    dedupe_paths is_canonical_json_relative_path clean is_abs
build-Complete_example = build-Complete every_file one_root [] (codes "/py" ∷ []) refl

-- Only the system paths are set in the environment.
abbrev host : Host
host = record {
  arch = amd64;
  env = λ name. if eqb name (codes "SYSTEM_LIB_REQUIREMENTS") then codes "/py, ," else [];
  fs = every_file;
  look_path = λ p. none;
  run_script = λ p. some one_root;
}

abbrev loaded : Configuration
loaded = record from_file {
  python_lib_paths = codes "/py" ∷ [];
  python_deps_update_interval = codes "30m";
  nodejs_path = codes "/usr/local/bin/node";
}

loads : init_config host (some from_file) ≡ good loaded
unfolding init_config with_app_env with_run_env with_syscalls with_proxies finish_config
    discover_python_lib_paths system_paths string_or int_or bool_or resolve_python_path
    build_python_lib_paths checked_paths normalize_absolute_path normalized contains_path
    dedupe_paths is_canonical_json_relative_path clean is_abs eqb
loads = refl

-- MAX_WORKERS is set to a text that is no number, and a request has been admitted.
abbrev waits_for_worker : Service
waits_for_worker = record (init (pos 5) 0 (record { pool = 7 ∷ []; min = 7; max = 8 })) {
  current = pos 1;
  jobs = admitted ∷ [];
}

waits_for_worker-Reach :
    Reach (pos 5) (pos_part (workerless loaded).max_workers) 7 8 waits_for_worker
unfolding new_uid_pool range_from try_acquire
waits_for_worker-Reach = next (next (start refl) arrive) (admit [] [] refl refl)

unread_workers_example :
    (init_config (with_workers (codes "four") host) (some from_file) ≡ good (workerless loaded))
    × All IsUnserved (admitted ∷ [])
unfolding atoi
unread_workers_example =
    unread_workers (codes "four") host from_file loaded loads (λ e. cc) refl waits_for_worker-Reach
