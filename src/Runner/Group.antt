-- ===== src/Runner/Group.antt =====
-- internal/core/runner/init.go: the sandbox user is made if it is missing, and the variable
-- `SANDBOX_GROUP_ID` of internal/static/user.go is set to its group. What the commands answer is the
-- argument.
use dify_sandbox.Base.{
  ℕ, ◌≡◌, ◌≢◌, refl, ap, ◌∙◌, ◌⊎◌, inl, inr, ℤ, Bool, true, false, [], ◌∷◌, ◌++◌, Option, none,
  some, Bytes, codes, All, arith, if◌then◌else◌, Bool-cases,
}
use dify_sandbox.Text.Split.{is_space, trim_left, trim_right, keep, trim_space}
use dify_sandbox.Text.Decimal.{
  format, itoa, atoi, Parsed, InInt64, atoi-itoa, itoa-All, itoa-ne-nil,
}

abbrev pub sandbox_user : Bytes
sandbox_user = codes "sandbox"

-- Whether `id` finds the user and `useradd` succeeds, and the output of `id -g`.
pub record Commands : Type 0 where
  pub id : Bool
  pub useradd : Bool
  pub id_group : Option Bytes

-- The variable, or the reason of a panic.
pub data Group : Type 0 where
  group : ℤ → Group
  no_user no_group bad_group : Group

abbrev pub parsed_group : Parsed ℤ → Group
parsed_group (n, none) = group n
parsed_group (n, some e) = bad_group

abbrev pub group_of : Option Bytes → Group
group_of none = no_group
group_of (some output) = parsed_group (atoi (trim_space output))

-- `init`
unfoldable pub init_group : Commands → Group
init_group c =
    if c.id then group_of c.id_group else if c.useradd then group_of c.id_group else no_user

-- The command line that makes the user.
unfoldable pub useradd_command : Bytes
unfolding format
useradd_command = codes "useradd -u " ++ (format 65537 ++ (codes " " ++ sandbox_user))

abbrev Solid : Bytes → Type 0
Solid = All (λ c. is_space c ≡ false)

trim_left-Solid : (c : ℕ) (s : Bytes) → is_space c ≡ false → trim_left (c ∷ s) ≡ c ∷ s
unfolding trim_left
trim_left-Solid c s h = rw h refl

trim_right-Solid : (s : Bytes) → Solid s → trim_right (s ++ codes "\n") ≡ s
unfolding trim_right
trim_right-Solid [] h = refl
trim_right-Solid (c ∷ s) (hc, h) = ap (keep c) (trim_right-Solid s h) ∙ kept c s hc
  where
    kept : (c : ℕ) (s : Bytes) → is_space c ≡ false → keep c s ≡ c ∷ s
    kept c [] h = rw h refl
    kept c (d ∷ t) h = refl

trim_space-line : (s : Bytes) → s ≢ [] → Solid s → trim_space (s ++ codes "\n") ≡ s
unfolding trim_space
trim_space-line [] ne h = absurd (ne refl)
trim_space-line (c ∷ s) ne (hc, h) =
    ap trim_right (trim_left-Solid c (s ++ codes "\n") hc) ∙ trim_right-Solid (c ∷ s) (hc, h)

group_of-line : (g : ℤ) → InInt64 g → group_of (some (itoa g ++ codes "\n")) ≡ group g
group_of-line g h =
    ap (λ s. parsed_group (atoi s))
      (trim_space-line (itoa g) (itoa-ne-nil g)
        (itoa-All (λ c. is_space c ≡ false) (λ c d. ground arith) refl g))
    ∙ ap parsed_group (atoi-itoa g h)

-- If `id -g` prints a group of 64 bits on a line, the variable is that group where the user is
-- there or can be made; where neither holds, `init` panics.
init_group_lem :
    (c : Commands) (g : ℤ)
    → InInt64 g
    → c.id_group ≡ some (itoa g ++ codes "\n")
    → ((c.id ≡ true) ⊎ (c.useradd ≡ true)) × (init_group c ≡ group g)
      ⊎ (c.id ≡ false) × (c.useradd ≡ false) × (init_group c ≡ no_user)
unfolding init_group
init_group_lem c g h out =
    let found : group_of c.id_group ≡ group g = ap group_of out ∙ group_of-line g h in
    elim (Bool-cases c.id) [
      | inl e ↦ inl (inl e, rw e found)
      | inr e ↦ elim (Bool-cases c.useradd) [
        | inl k ↦ inl (inr k, rw (e, k) found)
        | inr k ↦ inr (e, k, rw (e, k) refl)
      ]
    ]
