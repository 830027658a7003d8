-- ===== src/Text/Trim.antt =====
-- What `strings.TrimSpace` leaves alone, and how it meets `strings.ToLower`.
use mathlib.Core.List.{reverse-append, reverse-reverse}
use brosettlement_mpc_core.Base.{
  ℕ, zero, suc, ◌≤◌, ◌≡◌, ◌≢◌, refl, sym, ap, ◌∙◌, true, List, [], ◌∷◌, ◌++◌, map, reverse, Bytes,
  arith,
}
use brosettlement_mpc_core.Text.{
  has_prefix, prefix_length, strip, spaces, trim_left, trim_right, trim_space,
}

-- No entry starts with the byte, and none is empty.
abbrev pub Avoids : ℕ → List Bytes → Type 0
Avoids c [] = Unit {0}
Avoids c ([] ∷ ps) = ⊥
Avoids c ((d ∷ p) ∷ ps) = (d ≢ c) × Avoids c ps

prefix_length-Avoids :
    (c : ℕ) (s : Bytes) (ps : List Bytes) → Avoids c ps → prefix_length ps (c ∷ s) ≡ 0
unfolding prefix_length has_prefix
prefix_length-Avoids c s [] h = refl
prefix_length-Avoids c s ([] ∷ ps) h = absurd h
prefix_length-Avoids c s ((d ∷ p) ∷ ps) (hd, hs) = ground (arith, prefix_length-Avoids c s ps hs)

strip-zero : (ps : List Bytes) (s : Bytes) → prefix_length ps s ≡ 0 → strip ps 0 s ≡ s
unfolding strip
strip-zero ps [] h = refl
strip-zero ps (c ∷ s) h = rw (h, strip)

-- A byte that begins no space character, read from either side.
abbrev pub IsSolid : ℕ → Type 0
unfolding spaces
IsSolid c = Avoids c spaces × Avoids c (map reverse spaces)

pub graphic-IsSolid : (c : ℕ) → 33 ≤ c → c ≤ 126 → IsSolid c
unfolding spaces
graphic-IsSolid c h k = omega arith

-- A string that starts and ends with visible ASCII is left as it is.
pub trim_space-IsSolid :
    (c d : ℕ) (s t : Bytes)
    → IsSolid c
    → IsSolid d
    → reverse (c ∷ s) ≡ d ∷ t
    → trim_space (c ∷ s) ≡ c ∷ s
unfolding trim_space trim_left trim_right spaces
trim_space-IsSolid c d s t hc hd e =
    rw (strip-zero spaces (c ∷ s) (prefix_length-Avoids c s spaces hc.0), e)
      (rw
        (strip-zero (map reverse spaces) (d ∷ t)
          (prefix_length-Avoids d t (map reverse spaces) hd.1))
        (ap reverse (sym e) ∙ reverse-reverse (c ∷ s)))

pub trim_space_between :
    (c d : ℕ) (s t u : Bytes)
    → s ≡ c ∷ t
    → s ≡ u ++ d ∷ []
    → IsSolid c
    → IsSolid d
    → trim_space s ≡ s
trim_space_between c d s t u e f hc hd = rw e (
    trim_space-IsSolid c d t (reverse u) hc hd (ap reverse (sym e ∙ f) ∙ reverse-append u (d ∷ [])))

prefix_length-nil : (ps : List Bytes) → prefix_length ps [] ≡ 0
unfolding prefix_length has_prefix
prefix_length-nil [] = refl
prefix_length-nil ([] ∷ ps) = refl
prefix_length-nil ((c ∷ p) ∷ ps) = prefix_length-nil ps

strip-fixed : (ps : List Bytes) (k : ℕ) (s : Bytes) → prefix_length ps (strip ps k s) ≡ 0
unfolding strip
strip-fixed ps k [] = prefix_length-nil ps
strip-fixed ps (suc k) (c ∷ s) = strip-fixed ps k s
strip-fixed ps zero (c ∷ s) = go (prefix_length ps (c ∷ s)) refl (λ k. strip-fixed ps k s)
  where
    go :
        (n : ℕ)
        → prefix_length ps (c ∷ s) ≡ n
        → ((k : ℕ) → prefix_length ps (strip ps k s) ≡ 0)
        → prefix_length ps (strip ps 0 (c ∷ s)) ≡ 0
    go zero e ih = rw (e, strip) e
    go (suc k) e ih = rw (e, strip) (ih k)

-- What is stripped stood in front.
strip-suffix : (ps : List Bytes) (k : ℕ) (s : Bytes) → (pre : Bytes) × (s ≡ pre ++ strip ps k s)
unfolding strip
strip-suffix ps k [] = ([], refl)
strip-suffix ps (suc k) (c ∷ s) = let (pre, e) = strip-suffix ps k s in (c ∷ pre, ap (◌∷◌ c) e)
strip-suffix ps zero (c ∷ s) = go (prefix_length ps (c ∷ s)) refl (λ k. strip-suffix ps k s)
  where
    go :
        (n : ℕ)
        → prefix_length ps (c ∷ s) ≡ n
        → ((k : ℕ) → (pre : Bytes) × (s ≡ pre ++ strip ps k s))
        → (pre : Bytes) × (c ∷ s ≡ pre ++ strip ps 0 (c ∷ s))
    go zero e ih = ([], sym (strip-zero ps (c ∷ s) e))
    go (suc k) e ih = let (pre, h) = ih k in (c ∷ pre, rw (e, strip) (ap (◌∷◌ c) h))

has_prefix-append : (p s t : Bytes) → has_prefix p s ≡ true → has_prefix p (s ++ t) ≡ true
unfolding has_prefix
has_prefix-append [] s t h = refl
has_prefix-append (c ∷ p) [] t h = cc
has_prefix-append (c ∷ p) (d ∷ s) t h = ground (arith, has_prefix-append p s t)

prefix_length-append :
    (ps : List Bytes) (s t : Bytes) → prefix_length ps (s ++ t) ≡ 0 → prefix_length ps s ≡ 0
unfolding prefix_length
prefix_length-append [] s t h = refl
prefix_length-append ([] ∷ ps) s t h = unfold has_prefix in refl
prefix_length-append ((c ∷ p) ∷ ps) s t h =
    ground (arith, has_prefix-append (c ∷ p) s t, prefix_length-append ps s t)

trim_right-prefix : (s : Bytes) → (post : Bytes) × (s ≡ trim_right s ++ post)
unfolding trim_right
trim_right-prefix s =
    let (pre, e) = strip-suffix (map reverse spaces) 0 (reverse s) in
    (
      reverse pre,
      sym (reverse-reverse s)
          ∙ ap reverse e
          ∙ reverse-append pre (strip (map reverse spaces) 0 (reverse s)),
    )

trim_right_idem : (s : Bytes) → trim_right (trim_right s) ≡ trim_right s
unfolding trim_right
trim_right_idem s =
    let t = strip (map reverse spaces) 0 (reverse s) in
    ap reverse {x = strip (map reverse spaces) 0 (reverse (reverse t))} {y = t} (
      rw (reverse-reverse t)
        (strip-zero (map reverse spaces) t (strip-fixed (map reverse spaces) 0 (reverse s))))

-- Trimming twice is trimming once, for every string.
pub trim_space_idem : (s : Bytes) → trim_space (trim_space s) ≡ trim_space s
unfolding trim_space trim_left
trim_space_idem s =
    let t = strip spaces 0 s in
    let (post, e) = trim_right-prefix t in
    let fixed : prefix_length spaces (trim_right t) ≡ 0 =
      prefix_length-append spaces (trim_right t) post (rw (← e) (strip-fixed spaces 0 s)) in
    rw (strip-zero spaces (trim_right t) fixed) (trim_right_idem t)
