-- ===== src/Api/Signed.antt =====
-- A signing session from the request of an application to the stored signature (tss/service.go).
use brosettlement_mpc_core.Base.{ℕ, ◌≡◌, some, List, Bytes, ok}
use brosettlement_mpc_core.Derivation.Context.{Context, normalize_context, match_session}
use brosettlement_mpc_core.Derivation.Hash.{hash_v1}
use brosettlement_mpc_core.Flow.{TssLib}
use brosettlement_mpc_core.Execution.Run.{Choice}
use brosettlement_mpc_core.Runner.{BnbRunner, SignJob}
use brosettlement_mpc_core.Service.Signing.{SignInput, SignParts}
use brosettlement_mpc_core.Service.Signing.Signed.{IsSigned, IsRun}
use brosettlement_mpc_core.Api.{SignSessionRequest, SignSessionDescriptor}
use brosettlement_mpc_core.Api.Sessions.{build_sign_input}

module _ {tl : TssLib} (svc : SignParts tl) where
  -- The input of the session is the request, over the normal form of its context and its hash.
  abbrev pub IsInputOf : SignSessionRequest → Context → SignInput → Type 0
  IsInputOf r ctx input =
      (normalize_context svc.platform ctx ≡ ok input.derivation_context)
      × ((hash_v1 svc.platform tl.library.sha256 input.derivation_context
            ≡ ok input.derivation_context_hash)
          × (input ≡ build_sign_input svc r input.derivation_context input.derivation_context_hash))

  -- The context of the request, in its normal form, names the algorithm, curve and chain of its
  -- session.
  abbrev pub FitsSession : SignSessionDescriptor → Context → Type 0
  FitsSession session n =
      match_session svc.platform n
        (record { algorithm = session.algorithm; curve = session.curve; chain = session.chain })
      ≡ ok tt

  -- A signature over the digest of the request, under its session and its key; and the run of a job
  -- of the request, with the stored share adjusted to a child key that the context names.
  abbrev pub IsAnswered :
      SignSessionRequest
      → Bytes
      → ℕ
      → List (Choice tl.library)
      → BnbRunner tl
      → BnbRunner tl
      → Context
      → SignInput
      → Type 0
  IsAnswered r id now choices runner runner' ctx input =
      (r.derivation_context ≡ some ctx)
      × (IsInputOf r ctx input
          × (FitsSession r.session input.derivation_context
              × (IsSigned tl svc input runner'
                  × ((job : SignJob tl) × IsRun tl svc input id now choices runner runner' job))))
