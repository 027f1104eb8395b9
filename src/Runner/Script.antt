-- ===== src/Runner/Script.antt =====
-- `InitializeEnvironment` and `Run` of internal/core/runner/python/python.go where the library is
-- there: the script of a run, which all runs write to one directory, until its removal. The name comes
-- from a random UUID, which is an argument.
use mathlib.Core.List.{append_cancel_left, append_cancel_right}
use dify_sandbox.Base.{
  ℕ, ◌≤◌, ◌≡◌, ◌≢◌, refl, sym, ◌∙◌, ◌⊎◌, inl, inr, ℤ, Bool, List, [], ◌∷◌, ◌++◌, append-nil, Option,
  none, some, Bytes, codes, Lacks, All, All-append, All-imp, subst, ◌==◌, if◌then◌else◌, arith,
}
use dify_sandbox.Text.Decimal.{format}
use dify_sandbox.Runner.{build_bootstrap}
use dify_sandbox.Runner.Project.{python_lib_path}

-- `strings.ReplaceAll` of one byte by one.
unfoldable pub replace_code : ℕ → ℕ → Bytes → Bytes
replace_code old new [] = []
replace_code old new (c ∷ s) = (if c == old then new else c) ∷ replace_code old new s

unfoldable pub temp_code_name : Bytes → Bytes
unfolding replace_code
temp_code_name uuid = replace_code b'/' b'.' (replace_code b'-' b'_' uuid)

abbrev pub script_dir : Bytes
script_dir = python_lib_path ++ codes "/tmp"

unfoldable pub bootstrap_path : Bytes → Bytes
unfolding temp_code_name
bootstrap_path uuid = script_dir ++ (b'/' ∷ (temp_code_name uuid ++ codes ".py"))

-- What is asked of the file system.
pub data FileOp : Type 0 where
  mkdir_all : Bytes → FileOp
  write_file : Bytes → Bytes → FileOp
  chown : Bytes → ℕ → ℤ → FileOp
  remove : Bytes → FileOp

abbrev pub target : FileOp → Bytes
target (mkdir_all p) = p
target (write_file p content) = p
target (chown p u g) = p
target (remove p) = p

abbrev pub chown_error : ℕ → Bytes → Bytes
chown_error uid e = codes "chown script to uid " ++ (format uid ++ (codes ": " ++ e))

-- What was asked, and the error or the path of the script; the library is there.
unfoldable pub place_script :
    (FileOp → Option Bytes) → ℕ → ℤ → Bytes → Bytes → List FileOp × (Bytes ⊎ Bytes)
place_script fails uid gid text path =
    let made = mkdir_all script_dir in
    let written = write_file path text in
    let owned = chown path uid gid in
    elim (fails made) [
      | some e ↦ (made ∷ [], inl e)
      | none ↦ elim (fails written) [
        | some e ↦ (made ∷ written ∷ [], inl e)
        | none ↦ elim (fails owned) [
          | some e ↦ (made ∷ written ∷ owned ∷ remove path ∷ [], inl (chown_error uid e))
          | none ↦ (made ∷ written ∷ owned ∷ [], inr path)
        ]
      ]
    ]

unfoldable pub python_initialize_environment :
    (FileOp → Option Bytes) → ℤ → Bytes → Bytes → Bytes → Bool → ℕ → List FileOp × (Bytes ⊎ Bytes)
unfolding place_script bootstrap_path build_bootstrap
python_initialize_environment fails gid sandbox_fs uuid preload enable_network uid =
    place_script fails uid gid (build_bootstrap gid sandbox_fs preload enable_network uid)
      (bootstrap_path uuid)

-- How `Run` goes on behind `InitializeEnvironment`: without a pipe, without a child, with a child that
-- runs, or with one that has exited, where the hook is called.
pub data Rest : Type 0 where
  no_pipe no_start captured exited : Rest

-- `os.Remove(bootstrapPath)`, behind both errors and in the hook.
abbrev pub removed_by : Rest → Bytes → List FileOp
removed_by captured path = []
removed_by _ path = remove path ∷ []

abbrev pub with_rest : Rest → List FileOp × (Bytes ⊎ Bytes) → List FileOp
with_rest rest (asked, inl e) = asked
with_rest rest (asked, inr path) = asked ++ removed_by rest path

-- What a run of Python with the identifier `uid` asks of the file system.
unfoldable pub run_script_ops :
    Rest → (FileOp → Option Bytes) → ℤ → Bytes → Bytes → Bytes → Bool → ℕ → List FileOp
unfolding python_initialize_environment
run_script_ops rest fails gid sandbox_fs uuid preload enable_network uid =
    with_rest rest
      (python_initialize_environment fails gid sandbox_fs uuid preload enable_network uid)

replace_code-inj :
    (a b : ℕ) (s t : Bytes)
    → Lacks b s
    → Lacks b t
    → replace_code a b s ≡ replace_code a b t
    → s ≡ t
unfolding replace_code
replace_code-inj a b [] [] hs ht e = refl
replace_code-inj a b [] (d ∷ t) hs ht e = absurd (ground arith)
replace_code-inj a b (c ∷ s) [] hs ht e = absurd (ground arith)
replace_code-inj a b (c ∷ s) (d ∷ t) (hc, hs) (hd, ht) e =
    ground (arith, replace_code-inj a b s t hs ht)

Lacks-replace_code : (a b k : ℕ) (s : Bytes) → b ≢ k → Lacks k s → Lacks k (replace_code a b s)
unfolding replace_code
Lacks-replace_code a b k [] ne h = tt
Lacks-replace_code a b k (c ∷ s) ne (hc, h) = ground (arith, Lacks-replace_code a b k s ne h)

-- The text of a UUID has hexadecimal digits and dashes.
abbrev pub IsUuidCode : ℕ → Type 0
IsUuidCode c = (c ≡ b'-') ⊎ ((b'0' ≤ c) × (c ≤ b'9')) ⊎ ((b'a' ≤ c) × (c ≤ b'f'))

not_score : (c : ℕ) → IsUuidCode c → c ≢ b'_'
not_score c h = λ e. ground arith

not_dot : (c : ℕ) → IsUuidCode c → c ≢ b'.'
not_dot c h = λ e. ground arith

temp_code_name-inj :
    (u v : Bytes)
    → All IsUuidCode u
    → All IsUuidCode v
    → temp_code_name u ≡ temp_code_name v
    → u ≡ v
unfolding temp_code_name
temp_code_name-inj u v hu hv e =
    replace_code-inj b'-' b'_' u v (All-imp not_score u hu) (All-imp not_score v hv) (
      replace_code-inj b'/' b'.' _ _
        (Lacks-replace_code b'-' b'_' b'.' u (λ q. ground arith) (All-imp not_dot u hu))
        (Lacks-replace_code b'-' b'_' b'.' v (λ q. ground arith) (All-imp not_dot v hv)) e)

bootstrap_path-inj :
    (u v : Bytes)
    → All IsUuidCode u
    → All IsUuidCode v
    → bootstrap_path u ≡ bootstrap_path v
    → u ≡ v
unfolding bootstrap_path
bootstrap_path-inj u v hu hv e = temp_code_name-inj u v hu hv (
    append_cancel_right (temp_code_name u) (temp_code_name v) (codes ".py")
      (append_cancel_left (script_dir ++ (b'/' ∷ [])) _ _ e))

dir-ne-script : (u : Bytes) → script_dir ≢ bootstrap_path u
unfolding bootstrap_path
dir-ne-script u e = cc (append_cancel_left script_dir [] _ (append-nil script_dir ∙ e))

place_script-targets :
    (P : Bytes → Type 0) (fails : FileOp → Option Bytes) (uid : ℕ) (gid : ℤ) (text path : Bytes)
    → P script_dir
    → P path
    → All (λ op. P (target op)) (place_script fails uid gid text path).0
unfolding place_script
place_script-targets P fails uid gid text path hd hp = ground arith

place_script-path :
    (fails : FileOp → Option Bytes) (uid : ℕ) (gid : ℤ) (text path p : Bytes)
    → (place_script fails uid gid text path).1 ≡ inr p
    → p ≡ path
unfolding place_script
place_script-path fails uid gid text path p h = ground arith

removed_by-targets :
    (P : Bytes → Type 0) (rest : Rest) (path : Bytes)
    → P path
    → All (λ op. P (target op)) (removed_by rest path)
removed_by-targets P no_pipe path h = (h, tt)
removed_by-targets P no_start path h = (h, tt)
removed_by-targets P captured path h = tt
removed_by-targets P exited path h = (h, tt)

with_rest-targets :
    (P : Bytes → Type 0) (rest : Rest) (asked : List FileOp) (result : Bytes ⊎ Bytes)
    → All (λ op. P (target op)) asked
    → ((path : Bytes) → result ≡ inr path → P path)
    → All (λ op. P (target op)) (with_rest rest (asked, result))
with_rest-targets P rest asked (inl e) h k = h
with_rest-targets P rest asked (inr path) h k =
    All-append (λ op. P (target op)) asked (removed_by rest path) h
      (removed_by-targets P rest path (k path refl))

-- Whatever fails, and however it goes on, a run that finds the library there, and whose UUID differs
-- from that of another run, asks for no operation on the script of the other, from the write of its own
-- script to its removal.
pub scripts_apart :
    (rest : Rest) (fails : FileOp → Option Bytes) (gid : ℤ) (sandbox_fs preload : Bytes)
    (enable_network : Bool) (uid : ℕ) (u v : Bytes)
    → All IsUuidCode u
    → All IsUuidCode v
    → u ≢ v
    → All
        (λ op. target op ≢ bootstrap_path u)
        (run_script_ops rest fails gid sandbox_fs v preload enable_network uid)
unfolding run_script_ops python_initialize_environment
scripts_apart rest fails gid sandbox_fs preload enable_network uid u v hu hv ne =
    let other : bootstrap_path v ≢ bootstrap_path u =
      λ e. ne (bootstrap_path-inj u v hu hv (sym e)) in
    let text = build_bootstrap gid sandbox_fs preload enable_network uid in
    with_rest-targets (λ p. p ≢ bootstrap_path u) rest
      (place_script fails uid gid text (bootstrap_path v)).0
      (place_script fails uid gid text (bootstrap_path v)).1
      (place_script-targets (λ p. p ≢ bootstrap_path u) fails uid gid text (bootstrap_path v)
        (dir-ne-script u) other)
      (λ path h.
        let own = place_script-path fails uid gid text (bootstrap_path v) path h in
        subst (λ p. p ≢ bootstrap_path u) (sym own) other)
