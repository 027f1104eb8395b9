-- ===== src/Runner/Bootstrap.antt =====
-- The script that the Python runner writes, from its template.
use dify_sandbox.Base.{
  ℕ, ◌≡◌, refl, ap, ◌∙◌, ℤ, Bool, false, [], ◌∷◌, ◌++◌, Bytes, codes, has_prefix, length, drop,
  Lacks, All-imp, ◌≢◌, arith, if◌then◌else◌,
}
use dify_sandbox.Text.Search.{replace_first, has_prefix-append}
use dify_sandbox.Text.Decimal.{format, itoa, format-IsDigit, itoa-All}
use dify_sandbox.Runner.{build_bootstrap}

-- No occurrence of `p` begins in `s`, where `t` follows.
abbrev pub Avoids : Bytes → Bytes → Bytes → Type 0
Avoids p [] t = Unit
Avoids p (c ∷ s) t = (has_prefix (c ∷ (s ++ t)) p ≡ false) × Avoids p s t

drop-length-append : (s t : Bytes) → drop (length s) (s ++ t) ≡ t
drop-length-append [] t = refl
drop-length-append (c ∷ s) t = drop-length-append s t

replace_here : (c : ℕ) (p new t : Bytes) → replace_first ((c ∷ p) ++ t) (c ∷ p) new ≡ new ++ t
unfolding replace_first
replace_here c p new t =
    rw (has_prefix-append (c ∷ p) t) (ap (λ r. new ++ r) (drop-length-append p t))

-- What stands in front of the first occurrence stays.
replace_behind :
    (s t : Bytes) (p new : Bytes)
    → Avoids p s t
    → replace_first (s ++ t) p new ≡ s ++ replace_first t p new
unfolding replace_first
replace_behind [] t p new h = refl
replace_behind (c ∷ s) t p new (hc, h) = rw hc (ap (λ r. c ∷ r) (replace_behind s t p new h))

-- A text without an opening brace holds no placeholder.
Avoids-Lacks : (p s t : Bytes) → Lacks b'{' s → Avoids (b'{' ∷ p) s t
unfolding has_prefix
Avoids-Lacks p [] t h = tt
Avoids-Lacks p (c ∷ s) t (hc, h) = (ground arith, Avoids-Lacks p s t h)

module _ (p new : Bytes) where
  -- A placeholder is replaced behind a text without braces, ...
  replace_plain :
      (s t : Bytes)
      → Lacks b'{' s
      → replace_first (s ++ ((b'{' ∷ p) ++ t)) (b'{' ∷ p) new ≡ s ++ (new ++ t)
  replace_plain s t h =
      replace_behind s ((b'{' ∷ p) ++ t) (b'{' ∷ p) new (Avoids-Lacks p s ((b'{' ∷ p) ++ t) h)
      ∙ ap (λ r. s ++ r) (replace_here b'{' p new t)

  -- ... and the search for it passes over such a text, ...
  pass_plain :
      (s t u : Bytes)
      → Lacks b'{' s
      → replace_first t (b'{' ∷ p) new ≡ u
      → replace_first (s ++ t) (b'{' ∷ p) new ≡ s ++ u
  pass_plain s t u h e =
      replace_behind s t (b'{' ∷ p) new (Avoids-Lacks p s t h) ∙ ap (λ r. s ++ r) e

  -- ... and over another placeholder.
  pass_other :
      (s t u : Bytes)
      → Avoids (b'{' ∷ p) s t
      → replace_first t (b'{' ∷ p) new ≡ u
      → replace_first (s ++ t) (b'{' ∷ p) new ≡ s ++ u
  pass_other s t u h e = replace_behind s t (b'{' ∷ p) new h ∙ ap (λ r. s ++ r) e

abbrev pub network_flag : Bool → Bytes
network_flag net = if net then codes "1" else codes "0"

-- The template of prescript.py: four texts without braces around the placeholders, and a last one.
abbrev pub template : Bytes → Bytes → Bytes → Bytes → Bytes → Bytes
template a b c d e =
    a
    ++ (codes "{{preload}}"
        ++ (b
            ++ (codes "{{uid}}"
                ++ (c ++ (codes "{{gid}}" ++ (d ++ (codes "{{enable_network}}" ++ e)))))))

preload-Avoids_uid : (t : Bytes) → Avoids (codes "{{uid}}") (codes "{{preload}}") t
unfolding has_prefix
preload-Avoids_uid t =
    (refl, (refl, (refl, (refl, (refl, (refl, (refl, (refl, (refl, (refl, (refl, tt)))))))))))

preload-Avoids_gid : (t : Bytes) → Avoids (codes "{{gid}}") (codes "{{preload}}") t
unfolding has_prefix
preload-Avoids_gid t =
    (refl, (refl, (refl, (refl, (refl, (refl, (refl, (refl, (refl, (refl, (refl, tt)))))))))))

preload-Avoids_network : (t : Bytes) → Avoids (codes "{{enable_network}}") (codes "{{preload}}") t
unfolding has_prefix
preload-Avoids_network t =
    (refl, (refl, (refl, (refl, (refl, (refl, (refl, (refl, (refl, (refl, (refl, tt)))))))))))

format-Lacks_brace : (n : ℕ) → Lacks b'{' (format n)
format-Lacks_brace n = All-imp (λ c d. omega arith) (format n) (format-IsDigit n)

minus-ne-brace : ◌≢◌ {A = ℕ} b'-' b'{'
minus-ne-brace = omega arith

itoa-Lacks_brace : (z : ℤ) → Lacks b'{' (itoa z)
itoa-Lacks_brace z = itoa-All (λ c. c ≢ b'{') (λ c d. omega arith) minus-ne-brace z

module _ (a b : Bytes) (ha : Lacks b'{' a) (hb : Lacks b'{' b) where
  -- Behind the placeholder of the preload and two texts.
  in_front :
      (p new t u : Bytes)
      → Avoids (b'{' ∷ p) (codes "{{preload}}") (b ++ t)
      → replace_first (b ++ t) (b'{' ∷ p) new ≡ u
      → replace_first (a ++ (codes "{{preload}}" ++ (b ++ t))) (b'{' ∷ p) new
        ≡ a ++ (codes "{{preload}}" ++ u)
  in_front p new t u h eq =
      pass_plain p new a _ _ ha (pass_other p new (codes "{{preload}}") (b ++ t) u h eq)

module _ (a b c d e : Bytes) (ha : Lacks b'{' a) (hb : Lacks b'{' b) where
  uid_replaced :
      (u : Bytes)
      → replace_first (template a b c d e) (codes "{{uid}}") u
        ≡ a
          ++ (codes "{{preload}}"
              ++ (b ++ (u ++ (c ++ (codes "{{gid}}" ++ (d ++ (codes "{{enable_network}}" ++ e)))))))
  uid_replaced u =
      let t = c ++ (codes "{{gid}}" ++ (d ++ (codes "{{enable_network}}" ++ e))) in
      in_front a b ha hb (codes "{uid}}") u (codes "{{uid}}" ++ t) (b ++ (u ++ t))
        (preload-Avoids_uid (b ++ (codes "{{uid}}" ++ t))) (replace_plain (codes "{uid}}") u b t hb)

  gid_replaced :
      (u g : Bytes)
      → Lacks b'{' c
      → Lacks b'{' u
      → replace_first
          (a
            ++ (codes "{{preload}}"
                ++ (b
                    ++ (u
                        ++ (c ++ (codes "{{gid}}" ++ (d ++ (codes "{{enable_network}}" ++ e))))))))
          (codes "{{gid}}")
          g
        ≡ a
          ++ (codes "{{preload}}"
              ++ (b ++ (u ++ (c ++ (g ++ (d ++ (codes "{{enable_network}}" ++ e)))))))
  gid_replaced u g hc hu =
      let t = d ++ (codes "{{enable_network}}" ++ e) in
      let p = codes "{gid}}" in
      let rest = u ++ (c ++ (codes "{{gid}}" ++ t)) in
      in_front a b ha hb p g rest (b ++ (u ++ (c ++ (g ++ t)))) (preload-Avoids_gid (b ++ rest)) (
        pass_plain p g b rest (u ++ (c ++ (g ++ t))) hb (
          pass_plain p g u (c ++ (codes "{{gid}}" ++ t)) (c ++ (g ++ t)) hu
            (replace_plain p g c t hc)))

  network_replaced :
      (u g n : Bytes)
      → Lacks b'{' c
      → Lacks b'{' u
      → Lacks b'{' g
      → Lacks b'{' d
      → replace_first
          (a
            ++ (codes "{{preload}}"
                ++ (b ++ (u ++ (c ++ (g ++ (d ++ (codes "{{enable_network}}" ++ e))))))))
          (codes "{{enable_network}}")
          n
        ≡ a ++ (codes "{{preload}}" ++ (b ++ (u ++ (c ++ (g ++ (d ++ (n ++ e)))))))
  network_replaced u g n hc hu hg hd =
      let p = codes "{enable_network}}" in
      let rest = u ++ (c ++ (g ++ (d ++ (codes "{{enable_network}}" ++ e)))) in
      in_front a b ha hb p n rest (b ++ (u ++ (c ++ (g ++ (d ++ (n ++ e))))))
        (preload-Avoids_network (b ++ rest))
        (pass_plain p n b rest (u ++ (c ++ (g ++ (d ++ (n ++ e))))) hb (
          pass_plain p n u (c ++ (g ++ (d ++ (codes "{{enable_network}}" ++ e))))
            (c ++ (g ++ (d ++ (n ++ e)))) hu
            (pass_plain p n c (g ++ (d ++ (codes "{{enable_network}}" ++ e))) (g ++ (d ++ (n ++ e)))
              hc
              (pass_plain p n g (d ++ (codes "{{enable_network}}" ++ e)) (d ++ (n ++ e)) hg
                (replace_plain p n d e hd)))))

-- Where the text in front of the last placeholder has no opening brace of its own, the script
-- made of a template names the user, the group and the network flag in their places, and has the
-- preload text as it is, also where that holds placeholders itself.
pub build_bootstrap_lem :
    (gid : ℤ) (uid : ℕ) (net : Bool) (a b c d e preload : Bytes)
    → Lacks b'{' a
    → Lacks b'{' b
    → Lacks b'{' c
    → Lacks b'{' d
    → build_bootstrap gid (template a b c d e) preload net uid
      ≡ a
        ++ ((preload ++ codes "\n")
            ++ (b ++ (format uid ++ (c ++ (itoa gid ++ (d ++ (network_flag net ++ e)))))))
unfolding build_bootstrap
build_bootstrap_lem gid uid net a b c d e preload ha hb hc hd =
    let u = format uid in
    let g = itoa gid in
    let n = network_flag net in
    let hu = format-Lacks_brace uid in
    let put = λ (s : Bytes). replace_first s (codes "{{preload}}") (preload ++ codes "\n") in
    let net_put = λ (s : Bytes). put (replace_first s (codes "{{enable_network}}") n) in
    ap (λ s. net_put (replace_first s (codes "{{gid}}") g)) (uid_replaced a b c d e ha hb u)
    ∙ ap net_put (gid_replaced a b c d e ha hb u g hc hu)
    ∙ ap put (network_replaced a b c d e ha hb u g n hc hu (itoa-Lacks_brace gid) hd)
    ∙ replace_plain (codes "{preload}}") (preload ++ codes "\n") a
        (b ++ (u ++ (c ++ (g ++ (d ++ (n ++ e)))))) ha
