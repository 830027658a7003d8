-- ===== src/Service/Signing.antt =====
-- internal/tss/service: a signing session (`RunSignSession` of service.go, and sign.go), over the
-- runner of internal/tssbnb/runner. The store of shares is a parameter; reading from it changes
-- nothing. The log is left out.
pub mod Signed
pub mod Sample
mod Tests
use brosettlement_mpc_core.Base.{
  ℕ, Bool, true, false, not, Option, none, some, List, [], Bytes, if◌then◌else◌, Result, ok, err,
  ◌>>=◌,
}
use mathlib.Core.Option
use brosettlement_mpc_core.Derivation.Errors.{derived_signing_unsupported}
use brosettlement_mpc_core.Derivation.PublicKey.{Platform}
use brosettlement_mpc_core.Derivation.Context.{Context}
use brosettlement_mpc_core.Derivation.Hash.{hash_v1}
use brosettlement_mpc_core.Derivation.Ecdsa.{
  Ckd, PreparedEcdsaSigningShare, prepare_ecdsa_signing_share,
}
use brosettlement_mpc_core.Execution.Errors.{Error}
use brosettlement_mpc_core.Execution.Run.{Choice}
use brosettlement_mpc_core.Flow.{TssLib, SignatureData}
use brosettlement_mpc_core.Runner.{SignJob, BnbRunner, export_ecdsa_signature, run_sign}
use brosettlement_mpc_core.Shares.{CodecError, EcdsaKeyMaterial, Gob, unmarshal_key_material}
use brosettlement_mpc_core.Shares.RoundTrip.{stored_material}
use brosettlement_mpc_core.Service.Errors.{
  ServiceError, share_reader_required, derivation_error, codec_error, other_error,
}
use brosettlement_mpc_core.Service.Sign.{is_ecdsa, check_material, check_hash}
use brosettlement_mpc_core.Service.Dkg.{with_derivation, normalize_key_id}

pub record SignInput : Type 0 where
  pub session_id : Bytes
  pub local_party_id : Bytes
  pub org_id : Bytes
  pub key_id : Bytes
  pub parties : List Bytes
  pub digest : Bytes
  pub algorithm : Bytes
  pub curve : Bytes
  pub chain : Bytes
  pub derivation_context : Context
  pub derivation_context_hash : Bytes
  pub empty_key_err : ServiceError

-- `ShareReader`; the blob of a key.
abbrev pub ShareReader : Type 0
ShareReader = Bytes → Result Error Bytes

abbrev pub with_codec {ℓ} : {A : Type ℓ} → Result CodecError A → Result ServiceError A
with_codec (err x) = err (codec_error x)
with_codec (ok a) = ok a

abbrev pub with_other {ℓ} : {A : Type ℓ} → Result Error A → Result ServiceError A
with_other (err x) = err (other_error x)
with_other (ok a) = ok a

abbrev pub load_from : Option ShareReader → Bytes → Result ServiceError Bytes
load_from none key_id = err share_reader_required
load_from (some read) key_id = with_other (read key_id)

-- What a signing session is made of, but for its runner.
pub record SignParts (tl : TssLib) : Type 0 where
  pub platform : Platform
  pub ckd : Ckd tl.library.KeyShare
  pub gob : Gob tl.library.KeyShare
  pub share_reader : Option ShareReader

module _ {tl : TssLib} (svc : SignParts tl) where
  unfoldable pub load_ecdsa_key_material :
      SignInput → Result ServiceError (EcdsaKeyMaterial tl.library.KeyShare)
  load_ecdsa_key_material input = do
    key_id ← normalize_key_id input.key_id input.empty_key_err
    blob ← load_from svc.share_reader key_id
    with_codec (unmarshal_key_material svc.gob blob)

  abbrev pub sign_job : SignInput → PreparedEcdsaSigningShare tl.library.KeyShare → SignJob tl
  sign_job input prepared = record {
    session_id = input.session_id;
    local_party_id = input.local_party_id;
    org_id = input.org_id;
    key_id = input.key_id;
    parties = input.parties;
    digest = input.digest;
    algorithm = input.algorithm;
    chain = input.chain;
    key_share = prepared.share;
    key_derivation_delta = some prepared.key_derivation_delta;
    derivation_context_hash = input.derivation_context_hash;
  }

  -- The job that is run; one that comes with an error is dropped.
  unfoldable pub prepare_derived_ecdsa_sign_job : SignInput → Result ServiceError (SignJob tl)
  unfolding load_ecdsa_key_material
  prepare_derived_ecdsa_sign_job input =
      if not (is_ecdsa svc.platform.wide input.algorithm)
      then err (derivation_error derived_signing_unsupported)
      else do
        material ← load_ecdsa_key_material input
        _ ← with_derivation (check_material (stored_material material))
        expected ← with_derivation (hash_v1 svc.platform tl.library.sha256 input.derivation_context)
        _ ← with_derivation (check_hash input.derivation_context_hash expected)
        prepared ← with_derivation (
            prepare_ecdsa_signing_share svc.platform svc.ckd material.share material.chain_code
              input.derivation_context)
        ok (sign_job input prepared)

  abbrev pub found : BnbRunner tl → Result Error SignatureData → Option ServiceError
  found r (err x) = some (other_error x)
  found r (ok sig) = none

  abbrev pub check_exported :
      Bytes → BnbRunner tl × Option Error → BnbRunner tl × Option ServiceError
  check_exported session_id (r, some x) = (r, some (other_error x))
  check_exported session_id (r, none) = (r, found r (export_ecdsa_signature tl r session_id))

  abbrev pub run_prepared :
      BnbRunner tl
      → Bytes
      → Bytes
      → ℕ
      → List (Choice tl.library)
      → Result ServiceError (SignJob tl)
      → Option (BnbRunner tl × Option ServiceError)
  run_prepared r session_id id now choices (err x) = some (r, some x)
  run_prepared r session_id id now choices (ok job) =
      Option.map (check_exported session_id) (run_sign tl r job id now choices)

  unfoldable pub run_sign_session :
      BnbRunner tl
      → SignInput
      → Bytes
      → ℕ
      → List (Choice tl.library)
      → Option (BnbRunner tl × Option ServiceError)
  unfolding prepare_derived_ecdsa_sign_job
  run_sign_session r input correlation_id now choices =
      run_prepared r input.session_id correlation_id now choices
        (prepare_derived_ecdsa_sign_job input)
