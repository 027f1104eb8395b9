-- ===== src/Text/CommaList.antt =====
-- The list of numbers that the runners put together, and how it is taken apart again.
use dify_sandbox.Base.{
  ℕ, ◌≡◌, ◌≢◌, refl, sym, ap, ◌∙◌, ℤ, false, List, [], ◌∷◌, ◌++◌, append_assoc, Bytes, codes, All,
  All-append, Lacks, arith, map,
}
use dify_sandbox.Text.Split.{join, join-cons, is_space, split, split-join}
use dify_sandbox.Text.Decimal.{itoa, itoa-All, itoa-ne-nil, IsDigit}
use dify_sandbox.Text.Fields.{
  split_spaces, non_empty, fields, is_bracket, trim_left_brackets, keep_bracket,
  trim_right_brackets, trim_brackets, comma_list,
}

-- A word of `strings.Fields`: not empty, and no space in it.
abbrev IsWord : Bytes → Type 0
IsWord p = (p ≢ []) × All (λ c. is_space c ≡ false) p

split_spaces_word : (p : Bytes) → All (λ c. is_space c ≡ false) p → split_spaces p ≡ p ∷ []
unfolding split_spaces
split_spaces_word [] h = refl
split_spaces_word (c ∷ p) (hc, hp) = ground (arith, split_spaces_word p hp)

split_spaces_at :
    (p rest : Bytes)
    → All (λ c. is_space c ≡ false) p
    → split_spaces (p ++ (b' ' ∷ rest)) ≡ p ∷ split_spaces rest
unfolding split_spaces
split_spaces_at [] rest h = refl
split_spaces_at (c ∷ p) rest (hc, hp) = ground (arith, split_spaces_at p rest hp)

split_spaces-join :
    (p : Bytes) (ps : List Bytes)
    → All IsWord (p ∷ ps)
    → split_spaces (join (codes " ") (p ∷ ps)) ≡ p ∷ ps
unfolding join
split_spaces-join p [] (hp, _) = split_spaces_word p hp.1
split_spaces-join p (q ∷ ps) (hp, hq) =
    split_spaces_at p (join (codes " ") (q ∷ ps)) hp.1 ∙ ap (λ t. p ∷ t) (split_spaces-join q ps hq)

non_empty_words : (ps : List Bytes) → All IsWord ps → non_empty ps ≡ ps
non_empty_words [] h = refl
non_empty_words ([] ∷ ps) (hp, h) = absurd (hp.0 refl)
non_empty_words ((c ∷ p) ∷ ps) (hp, h) = ap (λ t. (c ∷ p) ∷ t) (non_empty_words ps h)

fields-join :
    (p : Bytes) (ps : List Bytes)
    → All IsWord (p ∷ ps)
    → fields (join (codes " ") (p ∷ ps)) ≡ p ∷ ps
unfolding fields
fields-join p ps h = ap non_empty (split_spaces-join p ps h) ∙ non_empty_words (p ∷ ps) h

-- The parts with a bracket behind the last one.
closed : List Bytes → List Bytes
closed [] = []
closed (p ∷ []) = (p ++ codes "]") ∷ []
closed (p ∷ q ∷ ps) = p ∷ closed (q ∷ ps)

closed-ne-nil : (p : Bytes) (ps : List Bytes) → closed (p ∷ ps) ≢ []
unfolding closed
closed-ne-nil p [] = λ e. cc
closed-ne-nil p (q ∷ ps) = λ e. cc

join-closed :
    (sep p : Bytes) (ps : List Bytes) → join sep (closed (p ∷ ps)) ≡ join sep (p ∷ ps) ++ codes "]"
unfolding join closed
join-closed sep p [] = refl
join-closed sep p (q ∷ ps) =
    join-cons sep p (closed (q ∷ ps)) (closed-ne-nil q ps)
    ∙ ap (λ t. p ++ (sep ++ t)) (join-closed sep q ps)
    ∙ simp append_assoc

closed-All : (ps : List Bytes) → All IsWord ps → All IsWord (closed ps)
unfolding closed
closed-All [] h = tt
closed-All (p ∷ []) (hp, h) =
    ((λ e. snoc-ne-nil p e, All-append (λ c. is_space c ≡ false) p (codes "]") hp.1 (refl, tt)), tt)
  where
    snoc-ne-nil : (p : Bytes) → p ++ codes "]" ≢ []
    snoc-ne-nil [] e = cc
    snoc-ne-nil (c ∷ p) e = cc
closed-All (p ∷ q ∷ ps) (hp, h) = (hp, closed-All (q ∷ ps) h)

-- A bracket in front of the first part.
opened : List Bytes → List Bytes
opened [] = []
opened (p ∷ ps) = (b'[' ∷ p) ∷ ps

join-opened : (sep : Bytes) (ps : List Bytes) → ps ≢ [] → join sep (opened ps) ≡ b'[' ∷ join sep ps
unfolding join opened
join-opened sep [] h = absurd (h refl)
join-opened sep (p ∷ []) h = refl
join-opened sep (p ∷ q ∷ ps) h = refl

opened-All : (ps : List Bytes) → All IsWord ps → All IsWord (opened ps)
unfolding opened
opened-All [] h = tt
opened-All (p ∷ ps) (hp, h) = ((λ e. cc, (refl, hp.1)), h)

itoa-IsWord : (z : ℤ) → IsWord (itoa z)
itoa-IsWord z = (itoa-ne-nil z, itoa-All (λ c. is_space c ≡ false) (λ c d. ground arith) refl z)

map-itoa-All : (xs : List ℤ) → All IsWord (map itoa xs)
map-itoa-All [] = tt
map-itoa-All (x ∷ xs) = (itoa-IsWord x, map-itoa-All xs)

abbrev NoBracket : Bytes → Type 0
NoBracket = All (λ c. is_bracket c ≡ false)

trim_left_at :
    (s : Bytes)
    → NoBracket s
    → trim_left_brackets (b'[' ∷ (s ++ codes "]")) ≡ trim_left_brackets (s ++ codes "]")
unfolding trim_left_brackets
trim_left_at s h = refl

trim_left_none : (c : ℕ) (s : Bytes) → is_bracket c ≡ false → trim_left_brackets (c ∷ s) ≡ c ∷ s
unfolding trim_left_brackets
trim_left_none c s h = ground arith

trim_right_close : (s : Bytes) → NoBracket s → trim_right_brackets (s ++ codes "]") ≡ s
unfolding trim_right_brackets
trim_right_close [] h = refl
trim_right_close (c ∷ s) (hc, h) = ap (keep_bracket c) (trim_right_close s h) ∙ kept c s hc
  where
    kept : (c : ℕ) (s : Bytes) → is_bracket c ≡ false → keep_bracket c s ≡ c ∷ s
    kept c [] h = ground arith
    kept c (d ∷ t) h = refl

trim_brackets_lem : (s : Bytes) → s ≢ [] → NoBracket s → trim_brackets (b'[' ∷ (s ++ codes "]")) ≡ s
unfolding trim_brackets
trim_brackets_lem [] ne h = absurd (ne refl)
trim_brackets_lem (c ∷ s) ne (hc, h) =
    ap trim_right_brackets (trim_left_none c (s ++ codes "]") hc) ∙ trim_right_close (c ∷ s) (hc, h)

itoa-NoBracket : (z : ℤ) → NoBracket (itoa z)
itoa-NoBracket z = itoa-All (λ c. is_bracket c ≡ false) (λ c d. ground arith) refl z

NoBracket-join : (xs : List ℤ) → NoBracket (join (codes ",") (map itoa xs))
unfolding join
NoBracket-join [] = tt
NoBracket-join (x ∷ []) = itoa-NoBracket x
NoBracket-join (x ∷ y ∷ xs) =
    All-append (λ c. is_bracket c ≡ false) (itoa x) _ (itoa-NoBracket x)
      (refl, NoBracket-join (y ∷ xs))

join-ne-nil : (sep : Bytes) (x : ℤ) (xs : List ℤ) → join sep (map itoa (x ∷ xs)) ≢ []
unfolding join
join-ne-nil sep x [] = itoa-ne-nil x
join-ne-nil sep x (y ∷ xs) = λ e. front (itoa x) _ (itoa-ne-nil x) e
  where
    front : (s t : Bytes) → s ≢ [] → s ++ t ≡ [] → ⊥
    front [] t h q = h refl
    front (c ∷ s) t h q = cc

wrapped : ℤ → List ℤ → List Bytes
wrapped x xs = opened (closed (map itoa (x ∷ xs)))

join-wrapped :
    (sep : Bytes) (x : ℤ) (xs : List ℤ)
    → join sep (wrapped x xs) ≡ b'[' ∷ (join sep (map itoa (x ∷ xs)) ++ codes "]")
unfolding wrapped
join-wrapped sep x xs =
    join-opened sep (closed (map itoa (x ∷ xs))) (closed-ne-nil (itoa x) (map itoa xs))
    ∙ ap (λ t. b'[' ∷ t) (join-closed sep (itoa x) (map itoa xs))

fields-words : (ps : List Bytes) → ps ≢ [] → All IsWord ps → fields (join (codes " ") ps) ≡ ps
fields-words [] ne h = absurd (ne refl)
fields-words (p ∷ ps) ne h = fields-join p ps h

wrapped-ne-nil : (x : ℤ) (xs : List ℤ) → wrapped x xs ≢ []
unfolding wrapped opened closed
wrapped-ne-nil x [] e = cc
wrapped-ne-nil x (y ∷ xs) e = cc

-- For a list that is not empty, the text is the numbers with commas between them.
pub comma_list-join :
    (x : ℤ) (xs : List ℤ) → comma_list (x ∷ xs) ≡ join (codes ",") (map itoa (x ∷ xs))
unfolding comma_list
comma_list-join x xs =
    ap (λ t. trim_brackets (join (codes ",") (fields t))) (sym (join-wrapped (codes " ") x xs))
    ∙ ap (λ t. trim_brackets (join (codes ",") t))
        (fields-words (wrapped x xs) (wrapped-ne-nil x xs)
          (unfold wrapped in opened-All _ (closed-All _ (map-itoa-All (x ∷ xs)))))
    ∙ ap trim_brackets (join-wrapped (codes ",") x xs)
    ∙ trim_brackets_lem _ (join-ne-nil (codes ",") x xs) (NoBracket-join (x ∷ xs))

digit-ne-comma : (c : ℕ) → IsDigit c → c ≢ b','
digit-ne-comma c d = omega arith

minus-ne-comma : ◌≢◌ {A = ℕ} b'-' b','
minus-ne-comma = omega arith

itoa-Lacks_comma : (x : ℤ) → Lacks b',' (itoa x)
itoa-Lacks_comma x = itoa-All (λ c. c ≢ b',') digit-ne-comma minus-ne-comma x

map-itoa-Lacks_comma : (xs : List ℤ) → All (Lacks b',') (map itoa xs)
map-itoa-Lacks_comma [] = tt
map-itoa-Lacks_comma (x ∷ xs) = (itoa-Lacks_comma x, map-itoa-Lacks_comma xs)

-- Splitting the text at its commas gives the decimal prints back.
pub split-comma_list : (x : ℤ) (xs : List ℤ) → split b',' (comma_list (x ∷ xs)) ≡ map itoa (x ∷ xs)
split-comma_list x xs =
    ap (split b',') (comma_list-join x xs)
    ∙ split-join b',' (map itoa (x ∷ xs)) (λ e. cc) (map-itoa-Lacks_comma (x ∷ xs))

-- The text of a list that is not empty is not empty.
pub comma_list-ne-nil : (x : ℤ) (xs : List ℤ) → comma_list (x ∷ xs) ≢ []
comma_list-ne-nil x xs e = join-ne-nil (codes ",") x xs (sym (comma_list-join x xs) ∙ e)
