-- ===== src/Base/Perms.antt =====
-- Permutations and the native length; the numbers of a range.
use mathlib.Core.List.{
  List, [], ◌∷◌, Perm, Permᴰ, Mem, Nodup, mem-cons, not-mem-nil, Nodup-cons, Nodup-nil,
}
use mathlib.Core.Logic.{∥∥₁_elim}
use mathlib.Core.Logic.Or
use mathlib.Core.HLevel.{×_prop}
use mathlib.Core.Path.{◌≡◌, refl, ap, ◌∙◌}
use native.Mathlib.Bridge.{le_prop}
use native.Mathlib.Nat.{ℕ_set}
use native.Mathlib.Omega.{arith}
use Prim.Native.Nat.{ℕ, zero, suc, ◌+◌, ◌≤◌, ◌<◌}
use dify_sandbox.Base.Lists.{length}

length-Permᴰ {ℓ} : {A : Type ℓ} {xs ys : List A} → Permᴰ xs ys → length xs ≡ length ys
length-Permᴰ Permᴰ.nil = refl
length-Permᴰ (Permᴰ.cons e p) = ap suc (length-Permᴰ p)
length-Permᴰ (Permᴰ.swap e f) = refl
length-Permᴰ (Permᴰ.trans p q) = length-Permᴰ p ∙ length-Permᴰ q

pub length-Perm {ℓ} : {A : Type ℓ} {xs ys : List A} → Perm xs ys → length xs ≡ length ys
length-Perm {xs = xs} {ys = ys} p = ∥∥₁_elim p (ℕ_set (length xs) (length ys)) length-Permᴰ

-- `for i := from; i < from + n; i++`
unfoldable pub range_from : ℕ → ℕ → List ℕ
range_from from zero = []
range_from from (suc n) = from ∷ range_from (from + 1) n

pub length-range_from : (from n : ℕ) → length (range_from from n) ≡ n
unfolding range_from
length-range_from from zero = refl
length-range_from from (suc n) = ap suc (length-range_from (from + 1) n)

pub mem-range_from : (from n u : ℕ) → Mem u (range_from from n) → (from ≤ u) × (u < from + n)
unfolding range_from
mem-range_from from zero u m = absurd (not-mem-nil m)
mem-range_from from (suc n) u m =
    Or.elim (×_prop le_prop le_prop) (mem-cons.0 m) (λ e. omega arith)
      (λ h. let (a, b) = mem-range_from (from + 1) n u h in omega arith)

pub Nodup-range_from : (from n : ℕ) → Nodup (range_from from n)
unfolding range_from
Nodup-range_from from zero = Nodup-nil
Nodup-range_from from (suc n) = Nodup-cons.1 (
  λ m. let (a, b) = mem-range_from (from + 1) n from m in absurd (omega arith),
  Nodup-range_from (from + 1) n,
)
