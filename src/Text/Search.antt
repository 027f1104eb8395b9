-- ===== src/Text/Search.antt =====
-- `strings.Contains`, `strings.Index`, `strings.Replace(s, old, new, 1)` and `strings.HasSuffix`.
use dify_sandbox.Base.{
  Bool, true, false, ◌||◌, [], ◌∷◌, ◌++◌, ◌≡◌, refl, arith, Bytes, has_prefix, ◌==◌, if◌then◌else◌,
  length, drop, ℕ,
}

-- `strings.Contains(s, p)`
unfoldable pub contains : Bytes → Bytes → Bool
contains [] p = has_prefix [] p
contains (c ∷ s) p = has_prefix (c ∷ s) p || contains s p

-- `strings.HasSuffix(s, "\n")`, the one suffix that the program asks for
unfoldable pub ends_with : Bytes → ℕ → Bool
ends_with [] b = false
ends_with (c ∷ []) b = c == b
ends_with (c ∷ d ∷ s) b = ends_with (d ∷ s) b

-- `strings.Replace(s, old, new, 1)` for a non-empty `old`
unfoldable pub replace_first : Bytes → Bytes → Bytes → Bytes
replace_first [] old new = []
replace_first (c ∷ s) old new =
    if has_prefix (c ∷ s) old then new ++ drop (length old) (c ∷ s) else c ∷ replace_first s old new

pub has_prefix-append : (p t : Bytes) → has_prefix (p ++ t) p ≡ true
unfolding has_prefix
has_prefix-append [] t = refl
has_prefix-append (x ∷ p) t = ground (arith, has_prefix-append p t)

-- A text contains what stands anywhere in it.
pub contains-append : (s p t : Bytes) → contains (s ++ p ++ t) p ≡ true
unfolding contains
contains-append [] [] [] = unfold has_prefix in refl
contains-append [] [] (x ∷ t) = unfold has_prefix in refl
contains-append [] (y ∷ p) t = rw (has_prefix-append (y ∷ p) t)
contains-append (x ∷ s) p t = ground (arith, contains-append s p t)
