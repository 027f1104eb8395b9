-- ===== src/Text/Fields.antt =====
-- `fmt.Sprint` of a slice of integers, `strings.Fields`, `strings.Trim`, and the list of numbers
-- that the runners put together from them.
use dify_sandbox.Base.{
  ℕ, ◌≡◌, refl, ℤ, Bool, ◌||◌, List, [], ◌∷◌, ◌++◌, Bytes, codes, ◌==◌, if◌then◌else◌, map,
}
use dify_sandbox.Text.Split.{grow, join, is_space}
use dify_sandbox.Text.Decimal.{itoa}

-- The parts between single spaces.
unfoldable pub split_spaces : Bytes → List Bytes
split_spaces [] = [] ∷ []
split_spaces (c ∷ s) = let rest = split_spaces s in if is_space c then [] ∷ rest else grow c rest

abbrev pub non_empty : List Bytes → List Bytes
non_empty [] = []
non_empty ([] ∷ ps) = non_empty ps
non_empty ((c ∷ p) ∷ ps) = (c ∷ p) ∷ non_empty ps

-- `strings.Fields`
unfoldable pub fields : Bytes → List Bytes
unfolding split_spaces
fields s = non_empty (split_spaces s)

-- `fmt.Sprint` of a `[]int`
unfoldable pub sprint_ints : List ℤ → Bytes
unfolding join itoa
sprint_ints xs = codes "[" ++ (join (codes " ") (map itoa xs) ++ codes "]")

abbrev pub is_bracket : ℕ → Bool
is_bracket c = c == b'[' || c == b']'

unfoldable pub trim_left_brackets : Bytes → Bytes
trim_left_brackets [] = []
trim_left_brackets (c ∷ s) = let rest = trim_left_brackets s in if is_bracket c then rest else c ∷ s

abbrev pub keep_bracket : ℕ → Bytes → Bytes
keep_bracket c [] = if is_bracket c then [] else c ∷ []
keep_bracket c (d ∷ t) = c ∷ d ∷ t

unfoldable pub trim_right_brackets : Bytes → Bytes
trim_right_brackets [] = []
trim_right_brackets (c ∷ s) = keep_bracket c (trim_right_brackets s)

-- `strings.Trim(s, "[]")`
unfoldable pub trim_brackets : Bytes → Bytes
unfolding trim_left_brackets trim_right_brackets
trim_brackets s = trim_right_brackets (trim_left_brackets s)

-- `strings.Trim(strings.Join(strings.Fields(fmt.Sprint(xs)), ","), "[]")`
unfoldable pub comma_list : List ℤ → Bytes
unfolding sprint_ints fields trim_brackets join
comma_list xs = trim_brackets (join (codes ",") (fields (sprint_ints xs)))

comma_list_three : comma_list (ℤ.pos 1 ∷ ℤ.pos 22 ∷ ℤ.negsuc 2 ∷ []) ≡ codes "1,22,-3"
unfolding comma_list
comma_list_three = refl
