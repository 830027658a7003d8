-- ===== src/Service/Tests.antt =====
-- Runs of the services on concrete inputs, and the instances of the theorems about them.
use brosettlement_mpc_core.Base.{◌≡◌, refl, true, false, some, [], ◌∷◌, Bytes, codes, ◌=?◌, ok}
use brosettlement_mpc_core.Text.{trim_space, split, trim_prefix, has_prefix, contains_any}
use brosettlement_mpc_core.Text.Decimal.{parse_uint32}
use brosettlement_mpc_core.Derivation.Path.{
  normalize_child_path, parse_child_indices, parse_child_index,
}
use brosettlement_mpc_core.Derivation.Ecdsa.{
  Ckd, EcdsaChildKey, PreparedEcdsaSigningShare, check_algorithm, check_derived_public_key,
  parse_child_path, derive_ecdsa_child_key, derive_ecdsa_child_key_for_context,
  prepare_ecdsa_signing_share, encode_uncompressed_secp256k1,
}
use brosettlement_mpc_core.Derivation.Ecdsa.Prepared.{IsNamed, prepare_ecdsa_signing_share-IsNamed}
use brosettlement_mpc_core.Service.Wallet.{system, wallet, wallet_normalizes}
use brosettlement_mpc_core.Service.Runs.{
  begin_dkg_run, end_dkg_run, begin_call, end_call, after_calls, begin_dkg_run-once,
}
use brosettlement_mpc_core.Service.Sign.{KeyMaterial}

begin_dkg_run-once_example :
    ((begin_dkg_run
        (after_calls
          (begin_dkg_run [] (codes "s", codes "a")).0
          (begin_call (codes "s", codes "b") ∷ end_call (codes "s", codes "b") ∷ []))
        (codes "s", codes "a")).1
      ≡ false)
    × ((begin_dkg_run
          (end_dkg_run
            (after_calls
              (begin_dkg_run [] (codes "s", codes "a")).0
              (begin_call (codes "s", codes "b") ∷ end_call (codes "s", codes "b") ∷ []))
            (codes "s", codes "a"))
          (codes "s", codes "a")).1
        ≡ true)
unfolding ◌=?◌
begin_dkg_run-once_example =
    begin_dkg_run-once [] (codes "s", codes "a")
      (begin_call (codes "s", codes "b") ∷ end_call (codes "s", codes "b") ∷ []) refl

abbrev material : KeyMaterial
material = record {
  chain_code = codes "0123456789abcdef0123456789abcdef";
  derivation_scheme = codes "bip32_secp256k1";
  public_key_format = codes "uncompressed_hex";
}

-- A curve with every point on it, and a derivation that gives one child.
abbrev ckd : Ckd Bytes
ckd = record {
  is_on_curve = λ x y. true;
  derive_child_key = λ indices point chain_code. some (1, (8, 9));
  adjust_share = λ delta share child. some (codes "adjusted");
  ecdsa_pub = λ share. some (6, 7);
}

abbrev prepared : PreparedEcdsaSigningShare Bytes
prepared = record {
  share = codes "adjusted";
  derived_public_key = encode_uncompressed_secp256k1 ckd.is_on_curve (8, 9);
  key_derivation_delta = 1;
}

share_prepared :
    prepare_ecdsa_signing_share system ckd (codes "share") material.chain_code wallet ≡ ok prepared
unfolding prepare_ecdsa_signing_share derive_ecdsa_child_key_for_context check_algorithm
    parse_child_path derive_ecdsa_child_key check_derived_public_key normalize_child_path trim_space
    has_prefix trim_prefix split parse_child_indices parse_child_index contains_any parse_uint32
    ◌=?◌
share_prepared = rw wallet_normalizes refl

prepare_ecdsa_signing_share-IsNamed_example :
    (child : EcdsaChildKey) × (IsNamed system ckd (some (6, 7)) material.chain_code wallet child
      × ((some (codes "adjusted") ≡ some prepared.share)
          × ((prepared.derived_public_key ≡ child.public_key_hex)
              × (prepared.key_derivation_delta ≡ child.key_derivation_delta))))
prepare_ecdsa_signing_share-IsNamed_example =
    prepare_ecdsa_signing_share-IsNamed system ckd (codes "share") material.chain_code wallet
      prepared share_prepared
