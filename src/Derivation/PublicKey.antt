-- ===== src/Derivation/PublicKey.antt =====
-- internal/tss/derivation/public_key.go and the hexadecimal decoding it uses.
-- The curve is tss-lib's: `is_point` says whether 65 bytes are the SEC1 encoding of a point of
-- secp256k1 other than (0, 0).
use brosettlement_mpc_core.Base.{
  ℕ, ◌+◌, ◌-◌, ◌*◌, Bool, not, ◌&&◌, ◌||◌, Option, none, some, [], ◌∷◌, Bytes, codes, leb, ◌==◌,
  ◌=?◌, if◌then◌else◌, Result, ok, err, length, get_or,
}
use brosettlement_mpc_core.Text.{has_prefix, to_lower}
use brosettlement_mpc_core.Derivation.Errors.{Error, invalid_context}

-- What the code takes from elsewhere: Unicode's case tables and the curve.
pub record Platform : Type 0 where
  pub wide : Bytes → Bytes
  pub is_point : Bytes → Bool

unfoldable pub hex_digit : ℕ → Option ℕ
hex_digit c =
    if leb b'0' c && leb c b'9'
    then some (c - b'0')
    else if leb b'a' c && leb c b'f'
    then some (c - b'a' + 10)
    else if leb b'A' c && leb c b'F'
    then some (c - b'A' + 10)
    else none

abbrev pub pair_digits : Option ℕ → Option ℕ → Option Bytes → Option Bytes
pair_digits none low rest = none
pair_digits (some h) none rest = none
pair_digits (some h) (some l) none = none
pair_digits (some h) (some l) (some bs) = some ((h * 16 + l) ∷ bs)

-- `hex.DecodeString`; an odd length is an error.
unfoldable pub hex_decode : Bytes → Option Bytes
unfolding hex_digit
hex_decode [] = some []
hex_decode (c ∷ []) = none
hex_decode (c ∷ d ∷ s) = pair_digits (hex_digit c) (hex_digit d) (hex_decode s)

check_point : Platform → Option Bytes → Result Error (Unit {0})
check_point p none = err invalid_context
check_point p (some decoded) =
    if not (length decoded == 65) || not (get_or decoded 0 0 == 4)
    then err invalid_context
    else if not (p.is_point decoded)
    then err invalid_context
    else ok tt

unfoldable pub validate_uncompressed_secp256k1_hex : Platform → Bytes → Result Error (Unit {0})
unfolding check_point
validate_uncompressed_secp256k1_hex p input =
    if input =? []
    then ok tt
    else if has_prefix (codes "0x") input
        || not (to_lower p.wide input =? input)
        || not (length input == 130)
    then err invalid_context
    else check_point p (hex_decode input)
