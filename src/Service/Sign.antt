-- ===== src/Service/Sign.antt =====
-- internal/tss/service/sign.go: the checks of the stored key material and of the context hash that a
-- derived signature makes; Service/Signing puts them into the session.
use brosettlement_mpc_core.Base.{
  ◌≡◌, inl, inr, Bool, false, not, ◌||◌, ◌==◌, [], Bytes, codes, ◌=?◌, =?_iff, if◌then◌else◌,
  Result, ok, err, Bool-cases, length,
}
use brosettlement_mpc_core.Text.{trim_space, to_lower}
use brosettlement_mpc_core.Derivation.Errors.{
  Error, invalid_context, chain_code_missing, unsupported_scheme, context_mismatch,
}
use brosettlement_mpc_core.Derivation.Context.{
  scheme_bip32_secp256k1, public_key_format_uncompressed_hex,
}

-- The fields of the stored material that are checked.
pub record KeyMaterial : Type 0 where
  pub chain_code : Bytes
  pub derivation_scheme : Bytes
  pub public_key_format : Bytes

-- `IsECDSA` of tss/utils/helpers.go
unfoldable pub is_ecdsa : (Bytes → Bytes) → Bytes → Bool
is_ecdsa wide algorithm =
    let alg = to_lower wide (trim_space algorithm) in (alg =? []) || (alg =? codes "ecdsa")

unfoldable pub check_material : KeyMaterial → Result Error (Unit {0})
check_material m =
    if not (length m.chain_code == 32)
    then err chain_code_missing
    else if not (m.derivation_scheme =? scheme_bip32_secp256k1)
    then err unsupported_scheme
    else if not (m.public_key_format =? public_key_format_uncompressed_hex)
    then err invalid_context
    else ok tt

unfoldable pub check_hash : Bytes → Bytes → Result Error (Unit {0})
check_hash hash expected =
    if (hash =? []) || not (hash =? expected) then err context_mismatch else ok tt

pub check_hash-ok :
    (hash expected : Bytes)
    → check_hash hash expected ≡ ok tt
    → ((hash =? []) ≡ false) × (hash ≡ expected)
unfolding check_hash
check_hash-ok hash expected h = elim (Bool-cases (hash =? [])) [
  | inl empty ↦ absurd (cc (rw empty at h))
  | inr given ↦ elim (Bool-cases (hash =? expected)) [
    | inl same ↦ (given, (=?_iff hash expected).0 same)
    | inr differ ↦ absurd (cc (rw (given, differ) at h))
  ]
]
