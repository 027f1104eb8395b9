-- ===== src/Tests/Child.antt =====
-- The scripts of two runs, and what a child finds in its environment.

use dify_sandbox.Runner.Script.{
  FileOp, target, bootstrap_path, run_script_ops, exited, scripts_apart,
}
use dify_sandbox.Config.{Configuration}
use dify_sandbox.Runner.{python_env, nodejs_env}
use dify_sandbox.Runner.ChildEnv.{Sees, children_see}
use dify_sandbox.Base.{
  ℕ, ap, ◌≢◌, inl, pos, All, Option, Bytes, true, arith, refl, [], ◌∷◌, none, some, codes, inr,
}
use dify_sandbox.Tests.Runs.{from_file}

-- The UUIDs of two runs differ in their first digit, and the child of the second has exited.
abbrev none_fails : FileOp → Option Bytes
none_fails op = none

abbrev first_code : Bytes → ℕ
first_code [] = 0
first_code (c ∷ s) = c

scripts_apart_example :
    All
      (λ op. target op ≢ bootstrap_path (codes "0-1"))
      (run_script_ops exited none_fails (pos 1000) [] (codes "2-1") [] true 7)
scripts_apart_example =
    scripts_apart exited none_fails (pos 1000) [] [] true 7 (codes "0-1") (codes "2-1")
      (inr (inl (omega arith)), (inl refl, (inr (inl (omega arith)), tt)))
      (inr (inl (omega arith)), (inl refl, (inr (inl (omega arith)), tt)))
      (λ e. absurd (omega (arith, ap first_code e)))

abbrev proxied : Configuration
proxied = record from_file { socks5 = codes "socks5://proxy"; https = codes "https://proxy" }

differs : (k : Bytes) → first_code k ≢ 75 → k ≢ codes "KEY"
differs k h e = h (ap first_code e)

children_see_example :
    Sees
      (some (codes "socks5://proxy"))
      (some (codes "socks5://proxy"))
      none
      (codes "KEY")
      (python_env proxied)
    × Sees none none none (codes "KEY") (nodejs_env proxied)
children_see_example = children_see proxied (codes "KEY") (omega arith) (
  differs (codes "GODEBUG") (omega arith),
  (
    differs (codes "HTTPS_PROXY") (omega arith),
    (
      differs (codes "HTTP_PROXY") (omega arith),
      (differs (codes "ALLOWED_SYSCALLS") (omega arith), tt),
    ),
  ),
)
