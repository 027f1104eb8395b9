-- ===== src/Tests/Start.antt =====
-- The release of the libraries, the filter program, and the packages.
use dify_sandbox.Tests.Runs.{from_file, no_copy, no_calls}
use dify_sandbox.Base.{
  true, Bytes, Option, ◌↔◌, has_prefix, ◌≡◌, ◌⊎◌, ◌≤◌, ◌<◌, inr, length, take, eqb, if◌then◌else◌,
  refl, pos, true, false, [], ◌∷◌, none, some, codes, arith,
}
use dify_sandbox.Runner.Project.{
  EmbedFs, Disk, mkdir, remove_all, on_disk, under, lib_path, release_lib_binary,
}
use dify_sandbox.Runner.Project.Copy.{
  Tree, leaf, file, dir, listing, Contents, run_ops, release_ops, release-run_ops,
}
use dify_sandbox.Runner.Environment.{
  EnvCalls, Prepared, prepare_python_dependencies_env, prepare-Prepared,
}
use dify_sandbox.Runner.WorkDir.{entered, started, Execution, child_in_other_dir}
use dify_sandbox.Seccomp.Program.{SockFilter, Calls, seccomp}
use dify_sandbox.Seccomp.{Op}
use dify_sandbox.Seccomp.Order.{sequence}
use dify_sandbox.Seccomp.{Lists, python_lists, nodejs_lists}
use dify_sandbox.Seccomp.Tables.{amd64}
use dify_sandbox.Seccomp.Locked.{
  entered, IsLocked, python_dify_seccomp, nodejs_dify_seccomp, dify_seccomp_enters,
}
use dify_sandbox.Seccomp.Loading.{IsFilter, Exports, program_bytes, Loads, seccomp-Loads}
use dify_sandbox.Dependencies.{
  Pip, installed, fails, built_in, get_dependency, requirement_lines, install_dependencies,
}
use dify_sandbox.Server.{
  UpdateCalls, update_python_dependencies, ticks, init_dependencies, update_ticker,
}
use dify_sandbox.Server.Updates.{performed, any_installs, after_updates, updates_settle}

-- One file below one directory, and a disk that refuses the second directory.
abbrev one_file : Tree
one_file = dir (codes "node_temp") (file (codes "a.js") (codes "1") leaf) leaf

abbrev embedded : EmbedFs
embedded = record {
  read_dir = λ p.
      if eqb p (codes "dependens")
      then inr (listing one_file)
      else inr (listing (file (codes "a.js") (codes "1") leaf));
  read_file = λ p. inr (codes "1");
}

abbrev one_dir : Disk
one_dir done (mkdir p) = some (codes "full")
one_dir done _ = none

release-run_ops_example :
    release_lib_binary embedded one_dir (codes "so") 2
    ≡ run_ops one_dir
        (release_ops (codes "so") one_file)
        ((on_disk one_dir (remove_all lib_path) []).1)
unfolding eqb Contents under
release-run_ops_example =
    release-run_ops embedded one_dir (codes "so") one_file 2 refl (refl, (refl, tt), tt)
      (omega arith)

-- The script fails on the second of two paths.
abbrev no_second : EnvCalls
no_second = record {
  write_script = none;
  stat = λ p. true;
  run = λ p. if eqb p (codes "/b") then some (codes "cp") else none;
}

prepare-Prepared_example :
    Prepared no_copy no_second
      (codes "/a" ∷ codes "/b" ∷ [])
      (prepare_python_dependencies_env no_copy no_second (codes "/a" ∷ codes "/b" ∷ []))
prepare-Prepared_example = prepare-Prepared no_copy no_second (codes "/a" ∷ codes "/b" ∷ [])

-- A filter of one instruction that allows everything, in a kernel that loads it.
abbrev allow_all : SockFilter
allow_all = record { code = 6; jt = 0; jf = 0; k = 2147418112 }

abbrev loads : Calls
loads = record {
  new_filter = none;
  pipe = none;
  export = λ ls. program_bytes (allow_all ∷ []);
  read = none;
  seccomp = λ fs n. inr 0;
}

-- A kernel that cannot attach the filter to the thread 7.
abbrev unsynchronised : Calls
unsynchronised = record loads { seccomp = λ fs n. inr 7 }

unsynchronised-Exports : {ls : Lists} → Exports unsynchronised ls (allow_all ∷ [])
unsynchronised-Exports = record {
  filter_made = refl;
  pipe_made = refl;
  pipe_read = refl;
  exported = refl;
}

loads-Exports : {ls : Lists} → Exports loads ls (allow_all ∷ [])
loads-Exports = record { filter_made = refl; pipe_made = refl; pipe_read = refl; exported = refl }

allow_all-IsFilter : IsFilter allow_all
allow_all-IsFilter = record {
  code_u16 = omega arith;
  jt_u8 = omega arith;
  jf_u8 = omega arith;
  k_u32 = omega arith;
}

seccomp-Loads_example :
    (length (allow_all ∷ []) ≤ 512) × Loads loads (allow_all ∷ []) (seccomp loads no_calls)
    ⊎ (512 < length (allow_all ∷ []))
      × Loads loads (take 512 (allow_all ∷ [])) (seccomp loads no_calls)
seccomp-Loads_example =
    seccomp-Loads loads no_calls allow_all [] loads-Exports (allow_all-IsFilter, tt)

abbrev one_call : Lists
one_call = python_lists amd64 (codes "1") true

abbrev all_granted : Op → Option Bytes
all_granted o = none

dify_seccomp_enters_example :
    ((python_dify_seccomp unsynchronised all_granted amd64 (codes "1") 10000 1000 true
        ≡ entered (sequence one_call 10000 1000))
      ↔ IsLocked unsynchronised all_granted one_call 10000 1000
          (sequence one_call 10000 1000)
          (allow_all ∷ []))
    × ((nodejs_dify_seccomp unsynchronised all_granted amd64 (codes "1") 10000 1000 true
          ≡ entered (sequence one_call 10000 1000))
        ↔ IsLocked unsynchronised all_granted
            (nodejs_lists amd64 (codes "1") true)
            10000
            1000
            (sequence one_call 10000 1000)
            (allow_all ∷ []))
dify_seccomp_enters_example =
    dify_seccomp_enters unsynchronised all_granted amd64 (codes "1") 10000 1000 true
      (sequence one_call 10000 1000) allow_all allow_all [] [] unsynchronised-Exports
      unsynchronised-Exports (allow_all-IsFilter, tt) (allow_all-IsFilter, tt)

-- The first installation succeeds, and then an update whose pip fails.
abbrev update : Pip → UpdateCalls
update p = record {
  pip = p;
  temp = no_copy;
  env = record { write_script = none; stat = λ q. false; run = λ q. none };
}

updates_settle_example :
    get_dependency
      (codes "httpx")
      ((codes "jinja2", []) ∷ (codes "httpx", codes "1") ∷ (codes "requests", []) ∷ [])
    ≡ after_updates
        (any_installs (
          performed
            (update_ticker (λ s. some (pos 1800)) from_file)
            (update installed)
            (update (fails []) ∷ [])))
        (codes "httpx")
        (requirement_lines (codes "httpx==1"))
        (get_dependency (codes "httpx") built_in)
unfolding init_dependencies has_prefix update_python_dependencies ticks install_dependencies
    prepare_python_dependencies_env
updates_settle_example =
    updates_settle (codes "httpx==1") (codes "httpx") (λ e. cc) (λ s. some (pos 1800)) from_file
      (update installed) (update (fails []) ∷ []) built_in
      ((codes "jinja2", []) ∷ (codes "httpx", codes "1") ∷ (codes "requests", []) ∷ []) refl

child_in_other_dir_example : Execution (codes "/") (record {
  cwd = codes "/tmp/b";
  tasks = started (codes "/tmp/a") (codes "/tmp/b") ∷ entered (codes "/tmp/b") ∷ [];
})
child_in_other_dir_example = child_in_other_dir (codes "/") (codes "/tmp/a") (codes "/tmp/b")
