-- ===== src/Text/Split.antt =====
-- `strings.Split` at one byte, `strings.Join`, `strings.TrimSpace` and `strings.ReplaceAll` of the
-- texts that the program replaces.
use dify_sandbox.Base.{
  ℕ, ◌≡◌, ◌≢◌, refl, ap, ◌∙◌, Bool, ◌&&◌, ◌||◌, List, [], ◌∷◌, ◌++◌, Bytes, All, Lacks, leb, ◌==◌,
  if◌then◌else◌, arith,
}

-- A byte in front of the first part.
abbrev pub grow : ℕ → List Bytes → List Bytes
grow c [] = (c ∷ []) ∷ []
grow c (p ∷ ps) = (c ∷ p) ∷ ps

-- `strings.Split(s, sep)` for a separator of one byte
unfoldable pub split : ℕ → Bytes → List Bytes
split sep [] = [] ∷ []
split sep (c ∷ s) = let rest = split sep s in if c == sep then [] ∷ rest else grow c rest

-- `strings.Join(parts, sep)`
unfoldable pub join : Bytes → List Bytes → Bytes
join sep [] = []
join sep (p ∷ []) = p
join sep (p ∷ q ∷ ps) = p ++ (sep ++ join sep (q ∷ ps))

-- A byte that `unicode.IsSpace` counts as a space; the texts here are ASCII.
abbrev pub is_space : ℕ → Bool
is_space c = leb 9 c && leb c 13 || c == 32

unfoldable pub trim_left : Bytes → Bytes
trim_left [] = []
trim_left (c ∷ s) = let rest = trim_left s in if is_space c then rest else c ∷ s

-- A byte in front of a text whose end is trimmed.
abbrev pub keep : ℕ → Bytes → Bytes
keep c [] = if is_space c then [] else c ∷ []
keep c (d ∷ t) = c ∷ d ∷ t

unfoldable pub trim_right : Bytes → Bytes
trim_right [] = []
trim_right (c ∷ s) = keep c (trim_right s)

-- `strings.TrimSpace`
unfoldable pub trim_space : Bytes → Bytes
unfolding trim_left trim_right
trim_space s = trim_right (trim_left s)

split-Lacks : (sep : ℕ) (p : Bytes) → Lacks sep p → split sep p ≡ p ∷ []
unfolding split
split-Lacks sep [] h = refl
split-Lacks sep (c ∷ p) (hc, hp) = ground (arith, split-Lacks sep p hp)

split_at :
    (sep : ℕ) (p rest : Bytes) → Lacks sep p → split sep (p ++ (sep ∷ rest)) ≡ p ∷ split sep rest
unfolding split
split_at sep [] rest h = ground arith
split_at sep (c ∷ p) rest (hc, hp) = ground (arith, split_at sep p rest hp)

-- Splitting what was joined gives the parts back, if there is one and none holds the separator.
pub split-join :
    (sep : ℕ) (ps : List Bytes) → ps ≢ [] → All (Lacks sep) ps → split sep (join (sep ∷ []) ps) ≡ ps
unfolding join
split-join sep [] ne h = absurd (ne refl)
split-join sep (p ∷ []) ne (hp, _) = split-Lacks sep p hp
split-join sep (p ∷ q ∷ ps) ne (hp, hq) =
    split_at sep p _ hp ∙ ap (λ t. p ∷ t) (split-join sep (q ∷ ps) (λ e. cc) hq)

pub join-cons :
    (sep p : Bytes) (ps : List Bytes) → ps ≢ [] → join sep (p ∷ ps) ≡ p ++ (sep ++ join sep ps)
unfolding join
join-cons sep p [] h = absurd (h refl)
join-cons sep p (q ∷ ps) h = refl

join-grow :
    (sep : Bytes) (c : ℕ) (ps : List Bytes) → ps ≢ [] → join sep (grow c ps) ≡ c ∷ join sep ps
unfolding join
join-grow sep c [] h = absurd (h refl)
join-grow sep c (p ∷ []) h = refl
join-grow sep c (p ∷ q ∷ ps) h = refl

pub split-ne-nil : (sep : ℕ) (s : Bytes) → split sep s ≢ []
unfolding split
split-ne-nil sep [] = λ e. cc
split-ne-nil sep (c ∷ s) = ground arith

-- Joining the parts gives the text back.
pub join-split : (sep : ℕ) (s : Bytes) → join (sep ∷ []) (split sep s) ≡ s
unfolding split
join-split sep [] = unfold join in refl
join-split sep (c ∷ s) = ground (
  arith,
  join-split sep s,
  join-cons (sep ∷ []) [] (split sep s) (split-ne-nil sep s),
  join-grow (sep ∷ []) c (split sep s) (split-ne-nil sep s),
)
