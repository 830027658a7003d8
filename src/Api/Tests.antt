-- ===== src/Api/Tests.antt =====
-- Requests of an application, and the instances of the theorems about such requests.
use brosettlement_mpc_core.Base.{◌≡◌, refl, true, some, [], ◌∷◌, Bytes, codes, ◌=?◌, ok}
use brosettlement_mpc_core.Text.{trim_space, to_lower, has_prefix}
use brosettlement_mpc_core.Derivation.PublicKey.{hex_decode, hex_digit}
use brosettlement_mpc_core.Derivation.Ecdsa.{
  is_ecdsa_algorithm, parse_chain_code_hex, validate_dkg_material,
}
use brosettlement_mpc_core.Requests.{validate_dkg, is_valid_session_descriptor}
use brosettlement_mpc_core.Service.Dkg.{
  NormalizedDkgMaterial, resolve_dkg_output_key_id, normalize_dkg_material,
}
use brosettlement_mpc_core.Api.{
  DkgSessionRequest, check_algorithm_curve, check_key_id, validate_dkg_session_request,
  build_dkg_input,
}
use brosettlement_mpc_core.Api.Checked.{validate_dkg_session_request-resolved}
use brosettlement_mpc_core.Derivation.Context.{Context}
use brosettlement_mpc_core.Service.Wallet.{wallet_normal}
use brosettlement_mpc_core.Api.{SignSessionRequest}

abbrev ascii : Bytes → Bytes
ascii s = s

abbrev request : DkgSessionRequest
request = record {
  session = record {
    session_id = codes "s";
    org_id = codes "o";
    key_id = codes "k";
    parties = codes "a" ∷ codes "b" ∷ [];
    threshold = 2;
    algorithm = codes "ECDSA";
    curve = [];
  };
  local_party_id = codes "a";
  opaque_descriptor_fingerprint = [];
  derivation_material = some (record {
    chain_code = codes "0000000000000000000000000000000000000000000000000000000000000000";
    derivation_scheme = codes "bip32_secp256k1";
  });
  has_transport = true;
}

request_valid : validate_dkg_session_request ascii request ≡ ok tt
unfolding validate_dkg_session_request validate_dkg is_valid_session_descriptor trim_space to_lower
    has_prefix check_algorithm_curve check_key_id is_ecdsa_algorithm parse_chain_code_hex
    validate_dkg_material hex_decode hex_digit ◌=?◌
request_valid = refl

validate_dkg_session_request-resolved_example :
    ((key_id : Bytes) × (resolve_dkg_output_key_id ascii (build_dkg_input request) ≡ ok key_id))
    × ((n : NormalizedDkgMaterial) × (normalize_dkg_material ascii (build_dkg_input request)
          ≡ ok n))
validate_dkg_session_request-resolved_example =
    validate_dkg_session_request-resolved ascii request request_valid

abbrev sign_request : SignSessionRequest
sign_request = record {
  session = record {
    session_id = codes "s";
    org_id = codes "o";
    key_id = codes "k";
    parties = codes "b" ∷ codes "a" ∷ [];
    threshold = 2;
    algorithm = codes "ecdsa";
    curve = [];
    chain = codes "bitcoin";
  };
  local_party_id = codes "a";
  digest = 7 ∷ [];
  derivation_context = some wallet_normal;
  has_transport = true;
}
