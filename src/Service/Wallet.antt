-- ===== src/Service/Wallet.antt =====
-- A derivation context for the tests, with its normal form and its hash.
use brosettlement_mpc_core.Base.{◌≡◌, refl, true, [], Bytes, codes, ◌=?◌, ok}
use brosettlement_mpc_core.Text.{
  to_lower, trim_space, split, join, trim_prefix, has_prefix, contains_any, ends_with, trim_suffix,
}
use brosettlement_mpc_core.Text.Decimal.{parse_uint32, format_uint}
use brosettlement_mpc_core.Derivation.Path.{
  normalize_account_path, normalize_components, normalize_child_path,
  normalize_account_path_component, normalize_full_path, parse_child_indices, parse_child_index,
  canonical_full_path, trim_right_slashes,
}
use brosettlement_mpc_core.Derivation.PublicKey.{Platform, validate_uncompressed_secp256k1_hex}
use brosettlement_mpc_core.Derivation.Context.{
  Context, normalize_context, trimmed, with_defaults, dispatch_algorithm, normalize_ecdsa_context,
  normalize_ecdsa_scheme, normalize_paths, check_full_path,
}
use brosettlement_mpc_core.Derivation.Hash.{
  hash_v1, canonical_hash_payload_v1, all_valid_utf8, valid_utf8, following, hex_encode,
}

abbrev pub digest : Bytes → Bytes
digest s = codes "Z"

abbrev pub system : Platform
system = record { wide = λ s. s; is_point = λ s. true }

abbrev pub wallet : Context
wallet = record {
  profile_id = codes "p1";
  profile_template_id = [];
  chain = codes "bitcoin";
  algorithm = [];
  curve = [];
  scheme = codes "bip32_public";
  public_key_format = [];
  account_path = codes "m/84'/0'";
  child_path = codes "/0/7";
  full_path = [];
  address_encoding = [];
  expected_address = [];
  derived_public_key = [];
  descriptor = [];
  descriptor_version = 1;
  profile_version = 1;
  key_version = 1;
}

abbrev pub wallet_normal : Context
wallet_normal = record wallet {
  algorithm = codes "ecdsa";
  curve = codes "secp256k1";
  scheme = codes "bip32_secp256k1";
  public_key_format = codes "uncompressed_hex";
  full_path = codes "m/84'/0'/0/7";
}

pub wallet_normalizes : normalize_context system wallet ≡ ok wallet_normal
unfolding normalize_context trimmed with_defaults dispatch_algorithm normalize_ecdsa_context
    normalize_ecdsa_scheme validate_uncompressed_secp256k1_hex normalize_paths check_full_path
    to_lower normalize_account_path normalize_components normalize_child_path
    normalize_account_path_component trim_space split join parse_child_indices parse_child_index
    trim_prefix has_prefix contains_any ends_with trim_suffix parse_uint32 format_uint ◌=?◌
    canonical_full_path trim_right_slashes
wallet_normalizes = refl

pub normal_normalizes : normalize_context system wallet_normal ≡ ok wallet_normal
unfolding normalize_context trimmed with_defaults dispatch_algorithm normalize_ecdsa_context
    normalize_ecdsa_scheme validate_uncompressed_secp256k1_hex normalize_paths check_full_path
    to_lower normalize_account_path normalize_components normalize_child_path
    normalize_account_path_component trim_space split join parse_child_indices parse_child_index
    trim_prefix has_prefix contains_any ends_with trim_suffix parse_uint32 format_uint ◌=?◌
    canonical_full_path trim_right_slashes normalize_full_path
normal_normalizes = refl

pub wallet_hash : hash_v1 system digest wallet_normal ≡ ok (codes "5a")
unfolding hash_v1 canonical_hash_payload_v1 all_valid_utf8 valid_utf8 following hex_encode
wallet_hash = rw normal_normalizes refl
