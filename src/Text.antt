-- ===== src/Text.antt =====
-- What the code uses of Go's `strings` and `strconv`, over byte strings.
-- `ToLower` on a string with a byte of 0x80 or more follows Unicode's case tables, which are not
-- reproduced: that case is the parameter `wide` of `to_lower`. The other functions are complete.
pub mod Trim
pub mod Lower
pub mod Split
pub mod Decimal
pub mod Sort
mod Tests
use brosettlement_mpc_core.Base.{
  ℕ, zero, suc, ◌+◌, Bool, true, false, ◌&&◌, ◌||◌, not, List, [], ◌∷◌, ◌++◌, reverse, Bytes, codes,
  leb, ltb, ◌==◌, if◌then◌else◌, length, map,
}

-- `strings.HasPrefix(s, p)`
unfoldable pub has_prefix : Bytes → Bytes → Bool
has_prefix [] s = true
has_prefix (c ∷ p) [] = false
has_prefix (c ∷ p) (d ∷ s) = (c == d) && has_prefix p s

-- what `strings.TrimPrefix` keeps of a string that has the prefix
unfoldable pub drop_prefix : Bytes → Bytes → Bytes
drop_prefix [] s = s
drop_prefix (c ∷ p) [] = []
drop_prefix (c ∷ p) (d ∷ s) = drop_prefix p s

-- `strings.TrimPrefix(s, p)`
unfoldable pub trim_prefix : Bytes → Bytes → Bytes
unfolding has_prefix drop_prefix
trim_prefix p s = if has_prefix p s then drop_prefix p s else s

-- `strings.HasSuffix(s, p)` and `strings.TrimSuffix(s, p)` for a suffix of one byte.
unfoldable pub ends_with : ℕ → Bytes → Bool
ends_with c [] = false
ends_with c (d ∷ []) = d == c
ends_with c (d ∷ e ∷ s) = ends_with c (e ∷ s)

unfoldable pub drop_last : Bytes → Bytes
drop_last [] = []
drop_last (d ∷ []) = []
drop_last (d ∷ e ∷ s) = d ∷ drop_last (e ∷ s)

unfoldable pub trim_suffix : ℕ → Bytes → Bytes
unfolding ends_with drop_last
trim_suffix c s = if ends_with c s then drop_last s else s

-- `bytes.IndexByte(s, c) >= 0`
unfoldable pub contains : ℕ → Bytes → Bool
contains c [] = false
contains c (d ∷ s) = (d == c) || contains c s

-- `strings.ContainsAny(s, chars)`, for ASCII `chars`
unfoldable pub contains_any : Bytes → Bytes → Bool
unfolding contains
contains_any chars [] = false
contains_any chars (c ∷ s) = contains c chars || contains_any chars s

-- `strings.ToLower`
abbrev pub lower_byte : ℕ → ℕ
lower_byte c = if leb b'A' c && leb c b'Z' then c + 32 else c

unfoldable pub is_ascii : Bytes → Bool
is_ascii [] = true
is_ascii (c ∷ s) = ltb c 128 && is_ascii s

unfoldable pub to_lower : (Bytes → Bytes) → Bytes → Bytes
unfolding is_ascii
to_lower wide s = if is_ascii s then map lower_byte s else wide s

-- The UTF-8 encodings of the characters for which `unicode.IsSpace` holds.
unfoldable pub spaces : List Bytes
spaces =
    (9 ∷ [])
    ∷ (10 ∷ [])
    ∷ (11 ∷ [])
    ∷ (12 ∷ [])
    ∷ (13 ∷ [])
    ∷ (32 ∷ [])
    ∷ (0xc2 ∷ 0x85 ∷ [])
    ∷ (0xc2 ∷ 0xa0 ∷ [])
    ∷ (0xe1 ∷ 0x9a ∷ 0x80 ∷ [])
    ∷ (0xe2 ∷ 0x80 ∷ 0x80 ∷ [])
    ∷ (0xe2 ∷ 0x80 ∷ 0x81 ∷ [])
    ∷ (0xe2 ∷ 0x80 ∷ 0x82 ∷ [])
    ∷ (0xe2 ∷ 0x80 ∷ 0x83 ∷ [])
    ∷ (0xe2 ∷ 0x80 ∷ 0x84 ∷ [])
    ∷ (0xe2 ∷ 0x80 ∷ 0x85 ∷ [])
    ∷ (0xe2 ∷ 0x80 ∷ 0x86 ∷ [])
    ∷ (0xe2 ∷ 0x80 ∷ 0x87 ∷ [])
    ∷ (0xe2 ∷ 0x80 ∷ 0x88 ∷ [])
    ∷ (0xe2 ∷ 0x80 ∷ 0x89 ∷ [])
    ∷ (0xe2 ∷ 0x80 ∷ 0x8a ∷ [])
    ∷ (0xe2 ∷ 0x80 ∷ 0xa8 ∷ [])
    ∷ (0xe2 ∷ 0x80 ∷ 0xa9 ∷ [])
    ∷ (0xe2 ∷ 0x80 ∷ 0xaf ∷ [])
    ∷ (0xe2 ∷ 0x81 ∷ 0x9f ∷ [])
    ∷ (0xe3 ∷ 0x80 ∷ 0x80 ∷ [])
    ∷ []

-- The length of the first entry that is a prefix, 0 if none is.
unfoldable pub prefix_length : List Bytes → Bytes → ℕ
unfolding has_prefix
prefix_length [] s = 0
prefix_length (p ∷ ps) s = if has_prefix p s then length p else prefix_length ps s

-- Drops entries from the front as long as there is one; the number counts bytes still to drop.
unfoldable pub strip : List Bytes → ℕ → Bytes → Bytes
unfolding prefix_length
strip ps k [] = []
strip ps (suc k) (c ∷ s) = strip ps k s
strip ps zero (c ∷ s) = elim (prefix_length ps (c ∷ s)) [ zero ↦ c ∷ s | suc k ↦ strip ps k s ]

unfoldable pub trim_left : Bytes → Bytes
unfolding strip spaces
trim_left s = strip spaces 0 s

unfoldable pub trim_right : Bytes → Bytes
unfolding strip spaces
trim_right s = reverse (strip (map reverse spaces) 0 (reverse s))

-- `strings.TrimSpace`
unfoldable pub trim_space : Bytes → Bytes
unfolding trim_left trim_right
trim_space s = trim_right (trim_left s)

-- `strings.Split(s, sep)` for a separator of one byte
abbrev pub cons_head : ℕ → List Bytes → List Bytes
cons_head c [] = (c ∷ []) ∷ []
cons_head c (p ∷ ps) = (c ∷ p) ∷ ps

unfoldable pub split : ℕ → Bytes → List Bytes
split sep [] = [] ∷ []
split sep (c ∷ s) = let rest = split sep s in if c == sep then [] ∷ rest else cons_head c rest

-- `strings.Join(parts, sep)` for a separator of one byte
unfoldable pub join : ℕ → List Bytes → Bytes
join sep [] = []
join sep (p ∷ []) = p
join sep (p ∷ q ∷ ps) = p ++ sep ∷ join sep (q ∷ ps)
