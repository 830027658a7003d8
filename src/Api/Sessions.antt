-- ===== src/Api/Sessions.antt =====
-- tss/service.go: the sessions of key generation and of signing, from a request to the inner service.
use brosettlement_mpc_core.Base.{ℕ, Option, none, some, List, Bytes, Result, ok, err, ◌>>=◌}
use brosettlement_mpc_core.Derivation.Errors.{context_required}
use brosettlement_mpc_core.Derivation.Context.{Context, normalize_context}
use brosettlement_mpc_core.Flow.{TssLib}
use brosettlement_mpc_core.Execution.Run.{Choice}
use brosettlement_mpc_core.Derivation.Hash.{hash_v1}
use brosettlement_mpc_core.Preparams.Handle.{Handle, Store, invalid_handle}
use brosettlement_mpc_core.Runner.{BnbRunner}
use brosettlement_mpc_core.Service.Signing as signing
use brosettlement_mpc_core.Service.Signing.{SignInput, SignParts}
use brosettlement_mpc_core.Service.Dkg.Supplied.{run_dkg_session_with_pre_params}
use brosettlement_mpc_core.Service.Errors.{
  ServiceError, share_not_found, derivation_error, handle_error,
}
use brosettlement_mpc_core.Service.Dkg.{DkgOutput, with_derivation}
use brosettlement_mpc_core.Service.Dkg.Session.{State, Parts, run_dkg_session}
use brosettlement_mpc_core.Api.{
  DkgSessionRequest, SignSessionRequest, validate_dkg_session_request,
  validate_sign_session_request, build_dkg_input,
}

module _ {tl : TssLib} {R W P : Type 0} (svc : Parts tl R W P) where
  -- `RunDKGSession`: the inner session of a request that is valid.
  unfoldable pub run_dkg_session_request :
      State R W P → DkgSessionRequest → State R W P × Result ServiceError DkgOutput
  run_dkg_session_request s r = elim (validate_dkg_session_request tl.wide r) [
    | err x ↦ (s, err x)
    | ok u ↦ run_dkg_session svc s (build_dkg_input r)
  ]

  -- `RunDKGSessionWithPreParams`; a handle that is nil, or of another implementation, is none.
  abbrev pub with_handle :
      ℕ
      → State R W P
      → DkgSessionRequest
      → Option (Handle tl.PreParams)
      → Store
      → Option (Handle tl.PreParams × Store) × (State R W P × Result ServiceError DkgOutput)
  with_handle binding s r none store = (none, (s, err (handle_error invalid_handle)))
  with_handle binding s r (some handle) store =
      let out = run_dkg_session_with_pre_params svc binding s (build_dkg_input r) handle store in
      (some out.0, out.1)

  unfoldable pub run_dkg_session_request_with_pre_params :
      ℕ
      → State R W P
      → DkgSessionRequest
      → Option (Handle tl.PreParams)
      → Store
      → Option (Handle tl.PreParams × Store) × (State R W P × Result ServiceError DkgOutput)
  run_dkg_session_request_with_pre_params binding s r handle store =
      elim (validate_dkg_session_request tl.wide r) [
        | err x ↦ (none, (s, err x))
        | ok u ↦ with_handle binding s r handle store
      ]

module _ {tl : TssLib} (svc : SignParts tl) where
  abbrev pub build_sign_input : SignSessionRequest → Context → Bytes → SignInput
  build_sign_input r normalized hash = record {
    session_id = r.session.session_id;
    local_party_id = r.local_party_id;
    org_id = r.session.org_id;
    key_id = r.session.key_id;
    parties = r.session.parties;
    digest = r.digest;
    algorithm = r.session.algorithm;
    curve = r.session.curve;
    chain = r.session.chain;
    derivation_context = normalized;
    derivation_context_hash = hash;
    empty_key_err = share_not_found;
  }

  -- The input of the inner session, or the error of the request.
  abbrev pub hashed_input : SignSessionRequest → Option Context → Result ServiceError SignInput
  hashed_input r none = err (derivation_error context_required)
  hashed_input r (some ctx) = do
    normalized ← with_derivation (normalize_context svc.platform ctx)
    hash ← with_derivation (hash_v1 svc.platform tl.library.sha256 normalized)
    ok (build_sign_input r normalized hash)

  unfoldable pub sign_input : SignSessionRequest → Result ServiceError SignInput
  sign_input r = do
    _ ← validate_sign_session_request svc.platform r
    hashed_input r r.derivation_context

  abbrev pub run_input :
      BnbRunner tl
      → Bytes
      → ℕ
      → List (Choice tl.library)
      → Result ServiceError SignInput
      → Option (BnbRunner tl × Option ServiceError)
  run_input runner id now choices (err x) = some (runner, some x)
  run_input runner id now choices (ok input) =
      signing.run_sign_session svc runner input id now choices

  -- `RunSignSession`
  unfoldable pub run_sign_session_request :
      BnbRunner tl
      → SignSessionRequest
      → Bytes
      → ℕ
      → List (Choice tl.library)
      → Option (BnbRunner tl × Option ServiceError)
  unfolding sign_input
  run_sign_session_request runner r correlation_id now choices =
      run_input runner correlation_id now choices (sign_input r)
