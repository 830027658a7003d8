-- ===== src/Text/Lower.antt =====
-- `strings.ToLower` on ASCII, and how it meets `strings.TrimSpace`.
use mathlib.Core.List.{map-append, reverse-cons}
use brosettlement_mpc_core.Base.{
  ℕ, zero, suc, ◌<◌, ◌≡◌, refl, sym, ap, ◌∙◌, ◌⊎◌, true, List, [], ◌∷◌, ◌++◌, map, reverse, Bytes,
  arith,
}
use brosettlement_mpc_core.Text.{
  has_prefix, prefix_length, strip, spaces, trim_left, trim_right, trim_space, lower_byte, is_ascii,
  to_lower,
}

-- No byte of the string is a letter.
abbrev pub NoLetters : Bytes → Type 0
NoLetters [] = Unit {0}
NoLetters (c ∷ s) = ((c < b'A') ⊎ (b'z' < c)) × NoLetters s

abbrev AllNoLetters : List Bytes → Type 0
AllNoLetters [] = Unit {0}
AllNoLetters (p ∷ ps) = NoLetters p × AllNoLetters ps

has_prefix-lower : (p s : Bytes) → NoLetters p → has_prefix p (map lower_byte s) ≡ has_prefix p s
unfolding has_prefix
has_prefix-lower [] s h = refl
has_prefix-lower (c ∷ p) [] h = refl
has_prefix-lower (c ∷ p) (d ∷ s) (hc, hp) = ground (arith, has_prefix-lower p s hp)

prefix_length-lower :
    (ps : List Bytes) (s : Bytes)
    → AllNoLetters ps
    → prefix_length ps (map lower_byte s) ≡ prefix_length ps s
unfolding prefix_length
prefix_length-lower [] s h = refl
prefix_length-lower (p ∷ ps) s (hp, hs) = rw (has_prefix-lower p s hp, prefix_length-lower ps s hs)

strip-lower :
    (ps : List Bytes) (k : ℕ) (s : Bytes)
    → AllNoLetters ps
    → strip ps k (map lower_byte s) ≡ map lower_byte (strip ps k s)
unfolding strip
strip-lower ps k [] h = refl
strip-lower ps (suc k) (c ∷ s) h = strip-lower ps k s h
strip-lower ps zero (c ∷ s) h =
    go (prefix_length ps (c ∷ s)) refl (prefix_length-lower ps (c ∷ s) h) λ k. strip-lower ps k s h
  where
    go :
        (n : ℕ)
        → prefix_length ps (c ∷ s) ≡ n
        → prefix_length ps (map lower_byte (c ∷ s)) ≡ prefix_length ps (c ∷ s)
        → ((k : ℕ) → strip ps k (map lower_byte s) ≡ map lower_byte (strip ps k s))
        → strip ps 0 (map lower_byte (c ∷ s)) ≡ map lower_byte (strip ps 0 (c ∷ s))
    go zero e f ih = rw (f ∙ e, e, strip)
    go (suc k) e f ih = rw (f ∙ e, e, strip) (ih k)

map-reverse : (f : ℕ → ℕ) (s : Bytes) → map f (reverse s) ≡ reverse (map f s)
map-reverse f [] = refl
map-reverse f (c ∷ s) =
    ap (map f) (reverse-cons c s)
    ∙ map-append f (reverse s) (c ∷ [])
    ∙ ap (λ t. t ++ f c ∷ []) (map-reverse f s)
    ∙ sym (reverse-cons (f c) (map f s))

trim_left-lower : (s : Bytes) → trim_left (map lower_byte s) ≡ map lower_byte (trim_left s)
unfolding trim_left spaces
trim_left-lower s = strip-lower spaces 0 s (omega arith)

trim_right-lower : (s : Bytes) → trim_right (map lower_byte s) ≡ map lower_byte (trim_right s)
unfolding trim_right spaces
trim_right-lower s =
    ap reverse (
      ap (strip (map reverse spaces) 0) (sym (map-reverse lower_byte s))
      ∙ strip-lower (map reverse spaces) 0 (reverse s) (omega arith))
    ∙ sym (map-reverse lower_byte (strip (map reverse spaces) 0 (reverse s)))

-- Lowering ASCII letters makes and removes no space.
pub trim_space-lower : (s : Bytes) → trim_space (map lower_byte s) ≡ map lower_byte (trim_space s)
unfolding trim_space
trim_space-lower s = ap trim_right (trim_left-lower s) ∙ trim_right-lower (trim_left s)

lower_idem : (s : Bytes) → map lower_byte (map lower_byte s) ≡ map lower_byte s
lower_idem [] = refl
lower_idem (c ∷ s) = ground (arith, lower_idem s)

is_ascii-lower : (s : Bytes) → is_ascii s ≡ true → is_ascii (map lower_byte s) ≡ true
unfolding is_ascii
is_ascii-lower [] h = refl
is_ascii-lower (c ∷ s) h = ground (arith, is_ascii-lower s)

-- On ASCII the parameter of `to_lower` plays no part, and lowering twice is lowering once.
pub to_lower_idem :
    (wide : Bytes → Bytes) (s : Bytes)
    → is_ascii s ≡ true
    → to_lower wide (to_lower wide s) ≡ to_lower wide s
unfolding to_lower
to_lower_idem wide s h = rw (h, is_ascii-lower s h) (lower_idem s)

pub trim_space-to_lower :
    (wide : Bytes → Bytes) (s : Bytes)
    → is_ascii s ≡ true
    → trim_space s ≡ s
    → trim_space (to_lower wide s) ≡ to_lower wide s
unfolding to_lower
trim_space-to_lower wide s h e = rw h (trim_space-lower s ∙ ap (map lower_byte) e)
