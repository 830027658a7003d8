-- ===== src/Service/Dkg.antt =====
-- internal/tss/service: a session of the key generation (`runDKGSession` of service.go, dkg.go,
-- `AttachPreParams` of preparams.go, and internal/tss/runtime/share_runtime.go). The interfaces of
-- the service are records of operations on a state of their own. What `defer` runs is run on every
-- path. The log is left out.
pub mod Session
pub mod Ended
pub mod Supplied
pub mod Stored
pub mod Persisted
mod Tests
use brosettlement_mpc_core.Base.{
  ℕ, Bool, true, false, not, ◌&&◌, Option, none, some, List, [], ◌∷◌, Bytes, ◌=?◌, if◌then◌else◌,
  Result, ok, err,
}
use brosettlement_mpc_core.Text.{trim_space, to_lower}
use brosettlement_mpc_core.Derivation.Errors as derivation
use brosettlement_mpc_core.Derivation.Context.{
  scheme_bip32_secp256k1, public_key_format_uncompressed_hex,
}
use brosettlement_mpc_core.Derivation.Ecdsa.{
  DkgMaterial, Ckd, validate_dkg_material, encode_ec_point_uncompressed_secp256k1,
}
use brosettlement_mpc_core.Execution.Errors.{Error}
use brosettlement_mpc_core.Flow.{TssLib}
use brosettlement_mpc_core.Runner.{DkgJob}
use brosettlement_mpc_core.Shares.{
  CodecError, EcdsaKeyMaterial, Gob, SaveShareInput, marshal_key_material,
}
use brosettlement_mpc_core.Service.Errors.{
  ServiceError, duplicate_dkg_run, share_writer_required, derivation_error, codec_error,
  other_error,
}
use brosettlement_mpc_core.Service.Runs.{RunKey, begin_dkg_run, end_dkg_run}
use brosettlement_mpc_core.Service.Sign.{is_ecdsa}

pub record DkgInput : Type 0 where
  pub session_id : Bytes
  pub local_party_id : Bytes
  pub org_id : Bytes
  pub key_id : Bytes
  pub opaque_descriptor_fingerprint : Bytes
  pub parties : List Bytes
  pub threshold : ℕ  -- uint32
  pub curve : Bytes
  pub algorithm : Bytes
  pub derivation_material : DkgMaterial
  pub empty_key_err : ServiceError
  pub missing_pub : Option ServiceError

pub record DkgOutput : Type 0 where
  pub key_id : Bytes
  pub public_key : Bytes
  pub chain_code : Bytes
  pub public_key_format : Bytes
  pub derivation_scheme : Bytes

pub record NormalizedDkgMaterial : Type 0 where
  pub chain_code : Bytes
  pub chain_code_hex : Bytes
  pub scheme : Bytes

abbrev pub with_derivation {ℓ} : {A : Type ℓ} → Result derivation.Error A → Result ServiceError A
with_derivation (err x) = err (derivation_error x)
with_derivation (ok a) = ok a

abbrev pub run_key : DkgInput → RunKey
run_key input = (input.session_id, input.local_party_id)

-- `NormalizeKeyID` of tss/utils/share_helpers.go
unfoldable pub normalize_key_id : Bytes → ServiceError → Result ServiceError Bytes
normalize_key_id raw empty_err =
    let key_id = trim_space raw in if key_id =? [] then err empty_err else ok key_id

unfoldable pub resolve_dkg_output_key_id : (Bytes → Bytes) → DkgInput → Result ServiceError Bytes
unfolding normalize_key_id
resolve_dkg_output_key_id wide input =
    if is_ecdsa wide input.algorithm
    then normalize_key_id input.key_id input.empty_key_err
    else let key_id = trim_space input.key_id in
      if key_id =? [] then ok input.session_id else ok key_id

abbrev pub normalized_material :
    Bytes → Result derivation.Error (Bytes × Bytes) → Result ServiceError NormalizedDkgMaterial
normalized_material hex (err x) = err (derivation_error x)
normalized_material hex (ok (chain_code, scheme)) =
    ok (record { chain_code = chain_code; chain_code_hex = hex; scheme = scheme })

unfoldable pub normalize_dkg_material :
    (Bytes → Bytes) → DkgInput → Result ServiceError NormalizedDkgMaterial
normalize_dkg_material wide input =
    normalized_material (to_lower wide (trim_space input.derivation_material.chain_code))
      (validate_dkg_material wide input.algorithm input.derivation_material)

-- A missing or invalid public key is reported as `MissingPub` if that is given.
abbrev pub public_key_error : Option ServiceError → derivation.Error → ServiceError
public_key_error none x = derivation_error x
public_key_error (some y) x = y

-- The interfaces `ShareWriter` and `PreParamsPool`; a source may be a `TryPreParamsPool` too.
pub record ShareWriter (W : Type 0) : Type 0 where
  pub save_share : W → SaveShareInput → W × Option Error

pub record PreParamsSource (P PreParams : Type 0) : Type 0 where
  pub acquire : P → P × Result Error PreParams
  pub try_acquire : Option (P → P × Result Error PreParams)

unfoldable pub resolve_pre_params_source :
    {P PreParams : Type 0}
    → Option (PreParamsSource P PreParams)
    → Option (PreParamsSource P PreParams)
    → Option (PreParamsSource P PreParams)
resolve_pre_params_source (some external) fallback = some external
resolve_pre_params_source none fallback = fallback

module _ (tl : TssLib) where
  -- The part of `Runner` that key generations use.
  pub record DkgRunner (R : Type 0) : Type 0 where
    pub run_dkg : R → DkgJob tl → R × Option Error
    pub export_temporary_ecdsa_dkg_share : R → RunKey → Result Error tl.library.KeyShare
    pub delete_temporary_ecdsa_dkg_share : R → RunKey → R

  abbrev pub build_dkg_job : DkgInput → DkgJob tl
  build_dkg_job input = record {
    session_id = input.session_id;
    local_party_id = input.local_party_id;
    org_id = input.org_id;
    parties = input.parties;
    threshold = input.threshold;
    curve = input.curve;
    algorithm = input.algorithm;
    ecdsa_pre_params = none;
  }

  abbrev pub dkg_output :
      DkgInput
      → Bytes
      → NormalizedDkgMaterial
      → tl.library.KeyShare
      → Result derivation.Error Bytes
      → Result ServiceError (DkgOutput × tl.library.KeyShare)
  dkg_output input key_id material share (err x) = err (public_key_error input.missing_pub x)
  dkg_output input key_id material share (ok public_key) = ok (
    record {
      key_id = key_id;
      public_key = public_key;
      chain_code = material.chain_code_hex;
      public_key_format = public_key_format_uncompressed_hex;
      derivation_scheme = scheme_bip32_secp256k1;
    },
    share,
  )

  abbrev pub exported :
      Ckd tl.library.KeyShare
      → DkgInput
      → Bytes
      → NormalizedDkgMaterial
      → Result Error tl.library.KeyShare
      → Result ServiceError (DkgOutput × tl.library.KeyShare)
  exported ckd input key_id material (err x) = err (other_error x)
  exported ckd input key_id material (ok share) =
      dkg_output input key_id material share
        (encode_ec_point_uncompressed_secp256k1 ckd.is_on_curve (ckd.ecdsa_pub share))

  -- What is stored of a key generation.
  abbrev pub dkg_key_material :
      NormalizedDkgMaterial → tl.library.KeyShare → EcdsaKeyMaterial tl.library.KeyShare
  dkg_key_material material share = record {
    share = share;
    chain_code = material.chain_code;
    public_key_format = public_key_format_uncompressed_hex;
    derivation_scheme = material.scheme;
  }

  abbrev pub save_input : DkgInput → Bytes → Bytes → SaveShareInput
  save_input input key_id blob = record {
    session_id = input.session_id;
    key_id = key_id;
    local_party_id = input.local_party_id;
    opaque_descriptor_fingerprint = input.opaque_descriptor_fingerprint;
    codec_blob = blob;
  }
