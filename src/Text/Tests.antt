-- ===== src/Text/Tests.antt =====
-- Runs of the string functions on concrete inputs.
use brosettlement_mpc_core.Base.{[], ◌∷◌, codes, ◌≡◌, refl, none}
use brosettlement_mpc_core.Text.{trim_space, split}
use brosettlement_mpc_core.Text.Decimal.{parse_uint32, format_uint}

trims : trim_space (codes "  m/44'\n") ≡ codes "m/44'"
unfolding trim_space
trims = refl

trims_wide : trim_space (0xe2 ∷ 0x80 ∷ 0x8a ∷ 97 ∷ 0xc2 ∷ 0xa0 ∷ []) ≡ 97 ∷ []
unfolding trim_space
trims_wide = refl

splits : split b'/' (codes "a//b") ≡ codes "a" ∷ [] ∷ codes "b" ∷ []
unfolding split
splits = refl

prints : format_uint 2147483647 ≡ codes "2147483647"
unfolding format_uint
prints = refl

overflows : parse_uint32 (codes "4294967296") ≡ none
unfolding parse_uint32
overflows = refl
