-- ===== src/Derivation/Ecdsa.antt =====
-- internal/tss/derivation/ecdsa.go and the encoding of a point (public_key.go): the chain code of a
-- key generation, the child key of a derivation context and the share that signs with it. The curve
-- and the derivation are those of tss-lib, the parameter `Ckd`; a point is its two coordinates.
pub mod Prepared
use brosettlement_mpc_core.Base.{
  ℕ, Bool, true, false, not, ◌&&◌, ◌||◌, ◌==◌, Option, none, some, List, [], ◌∷◌, ◌++◌, Bytes,
  codes, ◌=?◌, if◌then◌else◌, Result, ok, err, ◌>>=◌, length,
}
use brosettlement_mpc_core.BigInt.{fill_bytes}
use brosettlement_mpc_core.Text.{trim_space, to_lower, has_prefix}
use brosettlement_mpc_core.Derivation.Errors.{
  Error, invalid_context, unsupported_scheme, path_invalid, context_mismatch, chain_code_missing,
  chain_code_invalid, unsupported_algorithm_curve,
}
use brosettlement_mpc_core.Derivation.Path.{normalize_child_path}
use brosettlement_mpc_core.Derivation.PublicKey.{Platform, hex_decode}
use brosettlement_mpc_core.Derivation.Hash.{hex_encode}
use brosettlement_mpc_core.Derivation.Context.{
  Context, normalize_context, algorithm_ecdsa, curve_secp256k1, scheme_bip32_secp256k1,
}

pub record DkgMaterial : Type 0 where
  pub chain_code : Bytes
  pub derivation_scheme : Bytes

pub record Ckd (Share : Type 0) : Type 0 where
  pub is_on_curve : ℕ → ℕ → Bool
  -- `DeriveChildKeyFromHierarchy` from a parent key at depth 0: the sum of the tweaks and the child
  pub derive_child_key : List ℕ → ℕ × ℕ → Bytes → Option (ℕ × (ℕ × ℕ))
  -- `UpdatePublicKeyAndAdjustBigXj` on one share
  pub adjust_share : ℕ → Share → ℕ × ℕ → Option Share
  pub ecdsa_pub : Share → Option (ℕ × ℕ)

pub record EcdsaChildKey : Type 0 where
  pub public_key : ℕ × ℕ
  pub public_key_hex : Bytes
  pub key_derivation_delta : ℕ

pub record PreparedEcdsaSigningShare (Share : Type 0) : Type 0 where
  pub share : Share
  pub derived_public_key : Bytes
  pub key_derivation_delta : ℕ

unfoldable pub is_ecdsa_algorithm : (Bytes → Bytes) → Bytes → Bool
is_ecdsa_algorithm wide algorithm =
    let alg = to_lower wide (trim_space algorithm) in (alg =? []) || (alg =? algorithm_ecdsa)

abbrev pub decoded_chain_code : Option Bytes → Result Error Bytes
decoded_chain_code none = err chain_code_invalid
decoded_chain_code (some decoded) =
    if not (length decoded == 32) then err chain_code_invalid else ok decoded

unfoldable pub parse_chain_code_hex : (Bytes → Bytes) → Bytes → Result Error Bytes
parse_chain_code_hex wide input =
    if not (length input == 64)
      || has_prefix (codes "0x") input
      || not (to_lower wide input =? input)
    then err chain_code_invalid
    else decoded_chain_code (hex_decode input)

-- The chain code and the scheme; both are empty for another algorithm.
unfoldable pub validate_dkg_material :
    (Bytes → Bytes) → Bytes → DkgMaterial → Result Error (Bytes × Bytes)
unfolding is_ecdsa_algorithm parse_chain_code_hex
validate_dkg_material wide algorithm material =
    if not (is_ecdsa_algorithm wide algorithm)
    then ok ([], [])
    else if trim_space material.chain_code =? []
    then err chain_code_missing
    else let scheme = to_lower wide (trim_space material.derivation_scheme) in
      if not (scheme =? scheme_bip32_secp256k1)
      then err unsupported_scheme
      else do chain_code ← parse_chain_code_hex wide material.chain_code; ok (chain_code, scheme)

-- `elliptic.Marshal` in hexadecimal; empty for a point off the curve.
unfoldable pub encode_uncompressed_secp256k1 : (ℕ → ℕ → Bool) → ℕ × ℕ → Bytes
encode_uncompressed_secp256k1 is_on_curve (x, y) =
    if not (is_on_curve x y) then [] else hex_encode (4 ∷ fill_bytes 32 x ++ fill_bytes 32 y)

unfoldable pub encode_ec_point_uncompressed_secp256k1 :
    (ℕ → ℕ → Bool) → Option (ℕ × ℕ) → Result Error Bytes
unfolding encode_uncompressed_secp256k1
encode_ec_point_uncompressed_secp256k1 is_on_curve none = err invalid_context
encode_ec_point_uncompressed_secp256k1 is_on_curve (some point) =
    let encoded = encode_uncompressed_secp256k1 is_on_curve point in
    if encoded =? [] then err invalid_context else ok encoded

unfoldable pub parse_child_path : Bytes → Result Error (List ℕ)
parse_child_path raw = do (path, indices) ← normalize_child_path raw; ok indices

unfoldable pub check_algorithm : Context → Result Error (Unit {0})
check_algorithm n =
    if not (n.algorithm =? algorithm_ecdsa) || not (n.curve =? curve_secp256k1)
    then err unsupported_algorithm_curve
    else ok tt

unfoldable pub check_derived_public_key : Context → EcdsaChildKey → Result Error (Unit {0})
check_derived_public_key n child =
    if not (n.derived_public_key =? []) && not (n.derived_public_key =? child.public_key_hex)
    then err context_mismatch
    else ok tt

module _ {Share : Type 0} where
  abbrev pub child_key : Ckd Share → Option (ℕ × (ℕ × ℕ)) → Result Error EcdsaChildKey
  child_key ckd none = err path_invalid
  child_key ckd (some (delta, child)) = ok (record {
    public_key = child;
    public_key_hex = encode_uncompressed_secp256k1 ckd.is_on_curve child;
    key_derivation_delta = delta;
  })

  unfoldable pub derive_ecdsa_child_key :
      Ckd Share → Option (ℕ × ℕ) → Bytes → List ℕ → Result Error EcdsaChildKey
  derive_ecdsa_child_key ckd none chain_code indices = err invalid_context
  derive_ecdsa_child_key ckd (some (x, y)) chain_code indices =
      if length chain_code == 0
      then err chain_code_missing
      else if not (length chain_code == 32)
      then err chain_code_invalid
      else if not (ckd.is_on_curve x y)
      then err invalid_context
      else child_key ckd (ckd.derive_child_key indices (x, y) chain_code)

  unfoldable pub derive_ecdsa_child_key_for_context :
      Platform → Ckd Share → Option (ℕ × ℕ) → Bytes → Context → Result Error EcdsaChildKey
  unfolding parse_child_path
  derive_ecdsa_child_key_for_context p ckd account_pub chain_code ctx = do
    n ← normalize_context p ctx
    _ ← check_algorithm n
    indices ← parse_child_path n.child_path
    child ← derive_ecdsa_child_key ckd account_pub chain_code indices
    _ ← check_derived_public_key n child
    ok child

  abbrev pub adjusted :
      EcdsaChildKey → Option Share → Result Error (PreparedEcdsaSigningShare Share)
  adjusted child none = err invalid_context
  adjusted child (some share) = ok (record {
    share = share;
    derived_public_key = child.public_key_hex;
    key_derivation_delta = child.key_derivation_delta;
  })

  unfoldable pub prepare_ecdsa_signing_share :
      Platform
      → Ckd Share
      → Share
      → Bytes
      → Context
      → Result Error (PreparedEcdsaSigningShare Share)
  prepare_ecdsa_signing_share p ckd share chain_code ctx = do
    child ← derive_ecdsa_child_key_for_context p ckd (ckd.ecdsa_pub share) chain_code ctx
    adjusted child (ckd.adjust_share child.key_derivation_delta share child.public_key)
