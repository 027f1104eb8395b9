-- ===== src/Dependencies/Lines.antt =====
-- How the requirements are read.
use dify_sandbox.Base.{
  ℕ, ◌≡◌, ◌≢◌, ◌∙◌, refl, ap, sym, true, List, [], ◌∷◌, ◌++◌, append_assoc, Bytes, codes, All,
  All-append, Lacks, arith,
}
use dify_sandbox.Text.Search.{contains, contains-append}
use dify_sandbox.Text.Split.{split, join, split-join}
use dify_sandbox.Dependencies.{
  split_two, two_parts, extract_with, extract_oneline_depency, crlf_to_lf, cr_to_lf,
  requirement_lines,
}

split_two-Lacks : (a b : ℕ) (p : Bytes) → Lacks a p → split_two a b p ≡ p ∷ []
unfolding split_two
split_two-Lacks a b [] h = refl
split_two-Lacks a b (c ∷ []) h = refl
split_two-Lacks a b (c ∷ d ∷ s) (hc, h) = ground (arith, split_two-Lacks a b (d ∷ s) h)

split_two_at :
    (a b : ℕ) (p rest : Bytes)
    → Lacks a p
    → split_two a b (p ++ (a ∷ b ∷ rest)) ≡ p ∷ split_two a b rest
unfolding split_two
split_two_at a b [] rest h = ground arith
split_two_at a b (c ∷ []) rest (hc, h) = ground (arith, split_two_at a b [] rest h)
split_two_at a b (c ∷ d ∷ s) rest (hc, h) = ground (arith, split_two_at a b (d ∷ s) rest h)

extract_first :
    (a b : ℕ) (ds : List (ℕ × ℕ)) (line : Bytes)
    → contains line (a ∷ b ∷ []) ≡ true
    → extract_with ((a, b) ∷ ds) line ≡ two_parts (split_two a b line)
unfolding extract_with
extract_first a b ds line h = rw h

-- A line `name==version`, where neither text has an equality sign, gives the name and the version;
-- blanks and comments stay in them.
extract_pinned :
    (name version : Bytes)
    → Lacks b'=' name
    → Lacks b'=' version
    → extract_oneline_depency (name ++ (codes "==" ++ version)) ≡ (name, version)
unfolding extract_oneline_depency
extract_pinned name version hn hv =
    extract_first b'=' b'=' ((b'>', b'=') ∷ (b'<', b'=') ∷ (b'~', b'=') ∷ [])
      (name ++ (codes "==" ++ version))
      (sym (ap (λ l. contains l (codes "==")) (append_assoc name (codes "==") version))
        ∙ contains-append name (codes "==") version)
    ∙ ap two_parts (
        split_two_at b'=' b'=' name version hn
        ∙ ap (λ ps. name ∷ ps) (split_two-Lacks b'=' b'=' version hv))

crlf_to_lf-lf : (s : Bytes) → Lacks 13 s → crlf_to_lf s ≡ s
unfolding crlf_to_lf
crlf_to_lf-lf [] h = refl
crlf_to_lf-lf (c ∷ []) h = refl
crlf_to_lf-lf (c ∷ d ∷ s) (hc, h) = ground (arith, crlf_to_lf-lf (d ∷ s) h)

crlf_at : (p s : Bytes) → Lacks 13 p → crlf_to_lf (p ++ (13 ∷ 10 ∷ s)) ≡ p ++ (10 ∷ crlf_to_lf s)
unfolding crlf_to_lf
crlf_at [] s h = ground arith
crlf_at (c ∷ []) s (hc, h) = ground (arith, crlf_at [] s h)
crlf_at (c ∷ d ∷ p) s (hc, h) = ground (arith, crlf_at (d ∷ p) s h)

crlf-join :
    (ls : List Bytes) → All (Lacks 13) ls → crlf_to_lf (join (13 ∷ 10 ∷ []) ls) ≡ join (10 ∷ []) ls
unfolding join
crlf-join [] h = unfold crlf_to_lf in refl
crlf-join (l ∷ []) (hl, h) = crlf_to_lf-lf l hl
crlf-join (l ∷ k ∷ ls) (hl, h) =
    crlf_at l (join (13 ∷ 10 ∷ []) (k ∷ ls)) hl ∙ ap (λ t. l ++ (10 ∷ t)) (crlf-join (k ∷ ls) h)

cr_to_lf-lf : (s : Bytes) → Lacks 13 s → cr_to_lf s ≡ s
unfolding cr_to_lf
cr_to_lf-lf [] h = refl
cr_to_lf-lf (c ∷ s) (hc, h) = ground (arith, cr_to_lf-lf s h)

Lacks-join : (ls : List Bytes) → All (Lacks 13) ls → Lacks 13 (join (10 ∷ []) ls)
unfolding join
Lacks-join [] h = tt
Lacks-join (l ∷ []) (hl, h) = hl
Lacks-join (l ∷ k ∷ ls) (hl, h) =
    All-append (λ c. c ≢ 13) l _ hl ((λ e. ground arith), Lacks-join (k ∷ ls) h)

-- The lines of requirements are found whether they end as on Linux or as on Windows: at least one
-- line, none of which holds a line feed or a carriage return, comes back from the text with either
-- between them.
requirement_lines-join :
    (ls : List Bytes)
    → ls ≢ []
    → All (Lacks 13) ls
    → All (Lacks 10) ls
    → (requirement_lines (join (10 ∷ []) ls) ≡ ls)
      × (requirement_lines (join (13 ∷ 10 ∷ []) ls) ≡ ls)
unfolding requirement_lines
requirement_lines-join ls ne cr lf = (
  ap (λ t. split 10 (cr_to_lf t)) (crlf_to_lf-lf _ (Lacks-join ls cr)) ∙ lines,
  ap (λ t. split 10 (cr_to_lf t)) (crlf-join ls cr) ∙ lines,
)
  where
    lines : split 10 (cr_to_lf (join (10 ∷ []) ls)) ≡ ls
    lines = ap (split 10) (cr_to_lf-lf _ (Lacks-join ls cr)) ∙ split-join 10 ls ne lf
