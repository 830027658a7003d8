-- ===== src/Api.antt =====
-- tss/service.go and tss/derivation.go: the validation of the requests of an application, and what
-- a key generation hands to the inner service. A transport is there or not; the session gets it as a
-- part of its runner. The public context has the fields of the inner one, so the conversions are the
-- identity.
pub mod Checked
pub mod Sessions
pub mod Signed
mod Tests
use brosettlement_mpc_core.Base.{
  ℕ, Bool, true, false, not, ◌&&◌, ◌||◌, Option, none, some, List, [], Bytes, ◌=?◌, if◌then◌else◌,
  Result, ok, err, ◌>>=◌,
}
use brosettlement_mpc_core.Text.{trim_space, to_lower}
use brosettlement_mpc_core.Derivation.Errors.{context_required, unsupported_algorithm_curve}
use brosettlement_mpc_core.Derivation.PublicKey.{Platform}
use brosettlement_mpc_core.Derivation.Context.{
  Context, normalize_context, match_session, algorithm_ecdsa, algorithm_eddsa, curve_secp256k1,
  curve_ed25519,
}
use brosettlement_mpc_core.Derivation.Ecdsa.{DkgMaterial, is_ecdsa_algorithm, validate_dkg_material}
use brosettlement_mpc_core.Requests as requests
use brosettlement_mpc_core.Requests.{RequestError}
use brosettlement_mpc_core.Service.Errors.{
  ServiceError, key_id_required, missing_dkg_public_key, request_error, derivation_error,
}
use brosettlement_mpc_core.Service.Dkg.{DkgInput, with_derivation}

pub record DkgSessionDescriptor : Type 0 where
  pub session_id : Bytes
  pub org_id : Bytes
  pub key_id : Bytes
  pub parties : List Bytes
  pub threshold : ℕ  -- uint32
  pub algorithm : Bytes
  pub curve : Bytes

pub record SignSessionDescriptor : Type 0 where
  pub session_id : Bytes
  pub org_id : Bytes
  pub key_id : Bytes
  pub parties : List Bytes
  pub threshold : ℕ  -- uint32
  pub algorithm : Bytes
  pub curve : Bytes
  pub chain : Bytes

pub record DkgSessionRequest : Type 0 where
  pub session : DkgSessionDescriptor
  pub local_party_id : Bytes
  pub opaque_descriptor_fingerprint : Bytes
  pub derivation_material : Option DkgMaterial
  pub has_transport : Bool

pub record SignSessionRequest : Type 0 where
  pub session : SignSessionDescriptor
  pub local_party_id : Bytes
  pub digest : Bytes
  pub derivation_context : Option Context
  pub has_transport : Bool

abbrev pub accepted : Option RequestError → Result ServiceError (Unit {0})
accepted none = ok tt
accepted (some x) = err (request_error x)

-- `derivationMaterialChainCode` and `derivationMaterialScheme`
abbrev pub material_or_empty : Option DkgMaterial → DkgMaterial
material_or_empty none = record { chain_code = []; derivation_scheme = [] }
material_or_empty (some material) = material

unfoldable pub check_algorithm_curve :
    (Bytes → Bytes) → Bytes → Bytes → Result ServiceError (Unit {0})
check_algorithm_curve wide raw_algorithm raw_curve =
    let given = to_lower wide (trim_space raw_algorithm) in
    let algorithm = if given =? [] then algorithm_ecdsa else given in
    let named = to_lower wide (trim_space raw_curve) in
    let curve =
      if (named =? []) && (algorithm =? algorithm_ecdsa) then curve_secp256k1 else named in
    if (not (algorithm =? algorithm_ecdsa) || not (curve =? curve_secp256k1))
      && (not (algorithm =? algorithm_eddsa) || not (curve =? curve_ed25519))
    then err (derivation_error unsupported_algorithm_curve)
    else ok tt

unfoldable pub check_key_id : (Bytes → Bytes) → Bytes → Bytes → Result ServiceError (Unit {0})
check_key_id wide algorithm key_id =
    if is_ecdsa_algorithm wide algorithm && (trim_space key_id =? [])
    then err key_id_required
    else ok tt

abbrev pub dkg_descriptor : DkgSessionDescriptor → requests.SessionDescriptor
dkg_descriptor s = record {
  session_id = s.session_id;
  org_id = s.org_id;
  key_id = s.key_id;
  parties = s.parties;
  threshold = s.threshold;
}

unfoldable pub validate_dkg_session_request :
    (Bytes → Bytes) → DkgSessionRequest → Result ServiceError (Unit {0})
validate_dkg_session_request wide r = do
  _ ← accepted (
      requests.validate_dkg (record {
        session = dkg_descriptor r.session;
        local_party_id = r.local_party_id;
        has_transport = r.has_transport;
      }))
  _ ← check_algorithm_curve wide r.session.algorithm r.session.curve
  _ ← check_key_id wide r.session.algorithm r.session.key_id
  _ ←
      with_derivation
        (validate_dkg_material wide r.session.algorithm (material_or_empty r.derivation_material))
  ok tt

abbrev pub sign_descriptor : SignSessionDescriptor → requests.SessionDescriptor
sign_descriptor s = record {
  session_id = s.session_id;
  org_id = s.org_id;
  key_id = s.key_id;
  parties = s.parties;
  threshold = s.threshold;
}

unfoldable pub validate_derivation_context_for_session :
    Platform → Context → SignSessionDescriptor → Result ServiceError (Unit {0})
validate_derivation_context_for_session p ctx session = do
  normalized ← with_derivation (normalize_context p ctx)
  with_derivation (
      match_session p normalized
        (record { algorithm = session.algorithm; curve = session.curve; chain = session.chain }))

abbrev pub check_given_context :
    Platform → SignSessionDescriptor → Option Context → Result ServiceError (Unit {0})
check_given_context p session none = err (derivation_error context_required)
check_given_context p session (some ctx) = validate_derivation_context_for_session p ctx session

unfoldable pub validate_sign_session_request :
    Platform → SignSessionRequest → Result ServiceError (Unit {0})
validate_sign_session_request p r = do
  _ ← accepted (
      requests.validate_sign (record {
        session = sign_descriptor r.session;
        local_party_id = r.local_party_id;
        digest = r.digest;
        has_transport = r.has_transport;
      }))
  check_given_context p r.session r.derivation_context

abbrev pub build_dkg_input : DkgSessionRequest → DkgInput
build_dkg_input r = record {
  session_id = r.session.session_id;
  local_party_id = r.local_party_id;
  org_id = r.session.org_id;
  key_id = r.session.key_id;
  opaque_descriptor_fingerprint = r.opaque_descriptor_fingerprint;
  parties = r.session.parties;
  threshold = r.session.threshold;
  curve = r.session.curve;
  algorithm = r.session.algorithm;
  derivation_material = material_or_empty r.derivation_material;
  empty_key_err = key_id_required;
  missing_pub = some missing_dkg_public_key;
}
