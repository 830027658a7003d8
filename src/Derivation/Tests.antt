-- ===== src/Derivation/Tests.antt =====
-- Runs of the derivation code on concrete inputs, and the instances of its theorems.
use brosettlement_mpc_core.Base.{arith, ◌∷◌, List, ℕ, Bytes, true, [], codes, ◌≡◌, refl, ok, ◌=?◌}
use brosettlement_mpc_core.Text.{
  is_ascii, to_lower, trim_space, split, join, trim_prefix, has_prefix, contains_any, ends_with,
  trim_suffix,
}
use brosettlement_mpc_core.Text.Decimal.{parse_uint32, format_uint}
use brosettlement_mpc_core.Derivation.Path.{
  normalize_full_path, normalize_account_path, normalize_components, normalize_child_path,
  normalize_account_path_component, parse_child_indices, parse_child_index, canonical_full_path,
  trim_right_slashes,
}
use brosettlement_mpc_core.Derivation.Path.Account.{IsAccount, normalize_account_path-IsAccount}
use brosettlement_mpc_core.Derivation.Path.Segment.{print_segment}
use brosettlement_mpc_core.Derivation.Path.Marks.{marked, normalize_account_path_component_stacked}
use brosettlement_mpc_core.Derivation.Path.Child.{IsChild, normalize_child_path-IsChild}
use brosettlement_mpc_core.Derivation.Path.Full.{
  normalize_full_path_canonical, normalize_full_path_sound,
}
use brosettlement_mpc_core.Derivation.PublicKey.{Platform}
use brosettlement_mpc_core.Derivation.Context.Canonical.{IsCanonical, normalize_context-IsCanonical}
use brosettlement_mpc_core.Derivation.Context.Idempotence.{normalize_context_idem}
use brosettlement_mpc_core.Derivation.Hash.{
  canonical_hash_payload_v1, write_payload, all_valid_utf8, valid_utf8, following, hash_v1,
}
use brosettlement_mpc_core.Derivation.Hash.Payload.{
  SameHashed, canonical_hash_payload_v1-injective, hash_v1-normalize_context,
}
use brosettlement_mpc_core.Derivation.Context.{
  Context, normalize_context, trimmed, with_defaults, dispatch_algorithm, normalize_eddsa_context,
  normalize_paths, check_full_path,
}

normalizes_account : normalize_account_path (codes " m/44h/060'/0 ") ≡ ok (codes "m/44'/60'/0")
unfolding normalize_account_path normalize_components normalize_account_path_component trim_space
    split join trim_prefix has_prefix contains_any ends_with trim_suffix parse_uint32 format_uint
    ◌=?◌
normalizes_account = refl

normalizes_full :
    normalize_full_path (codes "m/44H/60/0'/1/2147483647") ≡ ok (codes "m/44'/60/0'/1/2147483647")
unfolding normalize_full_path normalize_account_path normalize_components normalize_child_path
    normalize_account_path_component trim_space split join parse_child_indices parse_child_index
    trim_prefix has_prefix contains_any ends_with trim_suffix parse_uint32 format_uint ◌=?◌
    canonical_full_path trim_right_slashes
normalizes_full = refl

abbrev plain : Platform
plain = record { wide = λ s. s; is_point = λ s. true }

abbrev sample : Context
sample = record {
  profile_id = codes " p1 ";
  profile_template_id = [];
  chain = codes "solana";
  algorithm = codes "EdDSA";
  curve = codes "ed25519";
  scheme = codes "slip10_ed25519";
  public_key_format = codes "HEX";
  account_path = codes "m/44h/501H";
  child_path = codes " /0/7";
  full_path = codes "m/44'/501h/0/7";
  address_encoding = [];
  expected_address = [];
  derived_public_key = [];
  descriptor = [];
  descriptor_version = 1;
  profile_version = 2;
  key_version = 3;
}

abbrev normal : Context
normal = record sample {
  profile_id = codes "p1";
  algorithm = codes "eddsa";
  public_key_format = codes "hex";
  account_path = codes "m/44'/501'";
  child_path = codes "/0/7";
  full_path = codes "m/44'/501'/0/7";
}

sample_normalizes : normalize_context plain sample ≡ ok normal
unfolding normalize_context trimmed with_defaults dispatch_algorithm normalize_eddsa_context
    normalize_paths check_full_path to_lower normalize_full_path normalize_account_path
    normalize_components normalize_child_path normalize_account_path_component trim_space split join
    parse_child_indices parse_child_index trim_prefix has_prefix contains_any ends_with trim_suffix
    parse_uint32 format_uint ◌=?◌ canonical_full_path trim_right_slashes
sample_normalizes = refl

sample_payload : canonical_hash_payload_v1 plain sample ≡ ok (write_payload normal)
unfolding canonical_hash_payload_v1 all_valid_utf8 valid_utf8 following
sample_payload = rw sample_normalizes refl

-- A second context with the same payload.
abbrev variant : Context
variant = record sample { profile_id = codes "p1"; full_path = []; address_encoding = codes "x" }

abbrev normal_variant : Context
normal_variant = record normal { address_encoding = codes "x" }

variant_normalizes : normalize_context plain variant ≡ ok normal_variant
unfolding normalize_context trimmed with_defaults dispatch_algorithm normalize_eddsa_context
    normalize_paths check_full_path to_lower normalize_account_path normalize_components
    normalize_child_path normalize_account_path_component trim_space split join parse_child_indices
    parse_child_index trim_prefix has_prefix contains_any ends_with trim_suffix parse_uint32
    format_uint ◌=?◌ canonical_full_path trim_right_slashes
variant_normalizes = refl

variant_payload : canonical_hash_payload_v1 plain variant ≡ ok (write_payload normal)
unfolding canonical_hash_payload_v1 all_valid_utf8 valid_utf8 following write_payload
variant_payload = rw variant_normalizes refl

canonical_hash_payload_v1-injective_example :
    (na : Context) × ((nb : Context) × ((normalize_context plain sample ≡ ok na)
        × ((normalize_context plain variant ≡ ok nb) × SameHashed na nb)))
canonical_hash_payload_v1-injective_example =
    canonical_hash_payload_v1-injective plain sample variant (write_payload normal) sample_payload
      variant_payload

is_ascii_format : is_ascii (trim_space sample.public_key_format) ≡ true
unfolding trim_space is_ascii
is_ascii_format = refl

hash_v1-normalize_context_example : hash_v1 plain (λ s. s) sample ≡ hash_v1 plain (λ s. s) normal
hash_v1-normalize_context_example =
    hash_v1-normalize_context plain (λ s. s) sample normal is_ascii_format sample_normalizes

normalize_context-IsCanonical_example :
    IsCanonical plain normal
    × (normal.public_key_format ≡ (with_defaults (trimmed plain sample)).public_key_format)
normalize_context-IsCanonical_example =
    normalize_context-IsCanonical plain sample normal sample_normalizes

normalize_context_idem_example : normalize_context plain normal ≡ ok normal
normalize_context_idem_example =
    normalize_context_idem plain sample normal is_ascii_format sample_normalizes

normalizes_child : normalize_child_path (codes " /0/7") ≡ ok (codes "/0/7", 0 ∷ 7 ∷ [])
unfolding normalize_child_path trim_space split join parse_child_indices parse_child_index
    trim_prefix has_prefix contains_any parse_uint32 format_uint ◌=?◌
normalizes_child = refl

sample-IsAccount : IsAccount (codes "m/44'/60'/0")
sample-IsAccount =
    normalize_account_path-IsAccount (codes " m/44h/060'/0 ") (codes "m/44'/60'/0")
      normalizes_account

sample-IsChild : IsChild (codes "/0/7") (0 ∷ 7 ∷ [])
sample-IsChild =
    normalize_child_path-IsChild (codes " /0/7") (codes "/0/7") (0 ∷ 7 ∷ []) normalizes_child

normalize_child_path-IsChild_example : IsChild (codes "/0/7") (0 ∷ 7 ∷ [])
normalize_child_path-IsChild_example =
    normalize_child_path-IsChild (codes " /0/7") (codes "/0/7") (0 ∷ 7 ∷ []) normalizes_child

normalize_full_path_canonical_example :
    normalize_full_path (canonical_full_path (codes "m/44'/60'/0") (codes "/0/7"))
    ≡ ok (canonical_full_path (codes "m/44'/60'/0") (codes "/0/7"))
normalize_full_path_canonical_example =
    normalize_full_path_canonical (codes "m/44'/60'/0") (codes "/0/7") (0 ∷ 7 ∷ []) sample-IsAccount
      sample-IsChild

normalize_full_path_sound_example :
    (account : Bytes) × (child : Bytes) × (indices : List ℕ) × (IsAccount account)
    × (IsChild child indices)
    × (codes "m/44'/60/0'/1/2147483647" ≡ canonical_full_path account child)
normalize_full_path_sound_example =
    normalize_full_path_sound (codes "m/44H/60/0'/1/2147483647") (codes "m/44'/60/0'/1/2147483647")
      normalizes_full

normalize_account_path_component_stacked_example :
    normalize_account_path_component (marked (format_uint 44) true true true)
    ≡ ok (print_segment 44 true)
normalize_account_path_component_stacked_example =
    normalize_account_path_component_stacked 44 true true true (omega arith)
