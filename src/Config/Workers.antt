-- ===== src/Config/Workers.antt =====
-- MAX_WORKERS in `InitConfig` of internal/static/config.go: `MaxWorkers, _ = strconv.Atoi(max_workers)`.
use dify_sandbox.Base.{
  ◌≡◌, refl, ap, ◌∙◌, ℤ, Bool, true, false, not, List, [], some, Bytes, codes, eqb, if◌then◌else◌,
}
use dify_sandbox.Discovery.{resolve_python_path, Resolved, path, refused}
use dify_sandbox.Text.Split.{split}
use dify_sandbox.Config.{
  Configuration, Host, Checked, good, bad, init_config, finish_config, with_run_env, with_app_env,
  with_proxies, with_syscalls, then_proxies, put_syscalls, read_syscalls, string_or, int_or,
  with_python, with_libraries, discover_python_lib_paths, system_paths,
}

-- The environment with another value of MAX_WORKERS.
abbrev pub with_workers : Bytes → Host → Host
with_workers text h = record h {
  env = λ name. if eqb name (codes "MAX_WORKERS") then text else h.env name;
}

-- The result with another number of workers.
abbrev pub workers_set : ℤ → Checked Configuration → Checked Configuration
workers_set w (bad e) = bad e
workers_set w (good c) = good (record c { max_workers = w })

module _ (w : ℤ) where
  with_proxies-workers :
      (env : Bytes → Bytes) (c : Configuration)
      → with_proxies env (record c { max_workers = w })
        ≡ record (with_proxies env c) { max_workers = w }
  unfolding with_proxies
  with_proxies-workers env c = chosen c.enable_network
    where
      chosen :
          (b : Bool)
          → (if b
              then record c {
                max_workers = w;
                socks5 = string_or (env (codes "SOCKS5_PROXY")) c.socks5;
                https = string_or (env (codes "HTTPS_PROXY")) c.https;
                http = string_or (env (codes "HTTP_PROXY")) c.http;
              }
              else record c { max_workers = w })
            ≡ record (if b
                then record c {
                  socks5 = string_or (env (codes "SOCKS5_PROXY")) c.socks5;
                  https = string_or (env (codes "HTTPS_PROXY")) c.https;
                  http = string_or (env (codes "HTTP_PROXY")) c.http;
                }
                else c) { max_workers = w }
      chosen true = refl
      chosen false = refl

  then_proxies-workers :
      (env : Bytes → Bytes) (r : Checked Configuration)
      → then_proxies env (workers_set w r) ≡ workers_set w (then_proxies env r)
  then_proxies-workers env (bad e) = refl
  then_proxies-workers env (good c) = ap good (with_proxies-workers env c)

  with_syscalls-workers :
      (value : Bytes) (c : Configuration)
      → with_syscalls value (record c { max_workers = w }) ≡ workers_set w (with_syscalls value c)
  unfolding with_syscalls
  with_syscalls-workers value c = read (not (eqb value [])) (read_syscalls (split b',' value))
    where
      read :
          (b : Bool) (r : Checked (List ℤ))
          → (if b
              then put_syscalls (record c { max_workers = w }) r
              else good (record c { max_workers = w }))
            ≡ workers_set w (if b then put_syscalls c r else good c)
      read false r = refl
      read true (bad e) = refl
      read true (good ns) = refl

  finish_config-workers :
      (env : Bytes → Bytes) (c : Configuration)
      → finish_config env (record c { max_workers = w }) ≡ workers_set w (finish_config env c)
  unfolding finish_config with_run_env
  finish_config-workers env c =
      ap (then_proxies env)
        (with_syscalls-workers (env (codes "ALLOWED_SYSCALLS")) (with_run_env env c))
      ∙ then_proxies-workers env
          (with_syscalls (env (codes "ALLOWED_SYSCALLS")) (with_run_env env c))

  module _ (text : Bytes) (h : Host) where
    same_env :
        (c : Configuration) → finish_config (with_workers text h).env c ≡ finish_config h.env c
    unfolding finish_config with_run_env with_proxies eqb
    same_env c = refl

    with_libraries-workers :
        (c : Configuration) (p : Bytes) (r : Checked (List Bytes))
        → with_libraries (with_workers text h) (record c { max_workers = w }) p r
          ≡ workers_set w (with_libraries h c p r)
    with_libraries-workers c p (bad e) = refl
    with_libraries-workers c p (good paths) =
        same_env (record c { max_workers = w; python_path = p; python_lib_paths = paths })
        ∙ finish_config-workers h.env (record c { python_path = p; python_lib_paths = paths })

    with_python-workers :
        (c : Configuration) (r : Resolved)
        → with_python (with_workers text h) (record c { max_workers = w }) r
          ≡ workers_set w (with_python h c r)
    unfolding eqb
    with_python-workers c (refused e) = refl
    with_python-workers c (path p) = with_libraries-workers c p (
        discover_python_lib_paths h.fs h.run_script p
          (system_paths h.arch (h.env (codes "SYSTEM_LIB_REQUIREMENTS"))))

-- Only the number of workers depends on MAX_WORKERS.
pub init_config-workers :
    (text : Bytes) (h : Host) (c0 : Configuration)
    → init_config (with_workers text h) (some c0)
      ≡ workers_set (int_or text c0.max_workers) (init_config h (some c0))
unfolding init_config with_app_env eqb
init_config-workers text h c0 =
    with_python-workers (int_or text c0.max_workers) text h (with_app_env h.env c0)
      (resolve_python_path h.fs h.look_path (with_app_env h.env c0).python_path)
