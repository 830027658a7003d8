-- ===== src/Flow/Sign/Signed.antt =====
-- What a run of the signing flow hands to its callback (internal/tssbnb/flow/sign.go).
use brosettlement_mpc_core.Base.{
  ℕ, ◌≡◌, ◌≢◌, refl, ap, ◌⊎◌, inl, inr, ◌==◌, ==_iff, Option, none, some, List, [], ◌∷◌, Bytes,
  codes, subst, ◌>>=◌, >>=-eq-ok, Result, ok, err, Bool-cases, length,
}
use mathlib.Core.Option.{map-eq-some_iff}
use brosettlement_mpc_core.RunnerConfig.{RunnerConfig}
use brosettlement_mpc_core.Execution.Errors.{Error, flow_sign_digest_mismatch}
use brosettlement_mpc_core.Execution.State.{ProtocolExecution, new_execution}
use brosettlement_mpc_core.Execution.Inbound.{TerminalState}
use brosettlement_mpc_core.Execution.Run.{ProtocolResult, Choice, run}
use brosettlement_mpc_core.Execution.Run.Events.{Delivers, IsPending, new_execution-IsPending}
use brosettlement_mpc_core.Execution.Run.Outcome.{IsOutcome, run-IsOutcome}
use brosettlement_mpc_core.Flow.{TssLib, SignatureData, Outcome}
use brosettlement_mpc_core.BigInt.{set_bytes}
use brosettlement_mpc_core.Flow.Params.{build_params}
use brosettlement_mpc_core.Flow.Sign.{
  SignRunJob, plain, deliver_signature, is_other_algorithm, after_run, finish_sign, sign_params,
  new_sign_execution, build_sign, run_built, refused, run_sign,
}

module _ (tl : TssLib) where
  -- What becomes of the result of the protocol: a signature whose `M` is the digest as a number is
  -- handed on with the bytes of the digest; another one is an error and is not handed on.
  abbrev pub IsDelivery :
      Bytes → Option tl.library.Signature → Option Error → Option SignatureData → Type 0
  IsDelivery digest none e d = (e ≡ none) × (d ≡ none)
  IsDelivery digest (some sig) e d =
      ((set_bytes (tl.signature_data sig).m ≡ set_bytes digest)
        × ((e ≡ none) × (d ≡ some (record (tl.signature_data sig) { m = digest }))))
      ⊎ ((set_bytes (tl.signature_data sig).m ≢ set_bytes digest)
          × ((e ≡ some (flow_sign_digest_mismatch ∷ [])) × (d ≡ none)))

  abbrev pub IsSigned : SignRunJob → List (Choice tl.library) → Outcome SignatureData → Type 0
  IsSigned job choices out =
      ((x : Error) × ((out.error ≡ some x) × (out.delivered ≡ none)))
      ⊎ ((result : ProtocolResult tl.library) × (Delivers result choices
            × IsDelivery job.digest result.signature out.error out.delivered))

  after_run-IsDelivery :
      (digest : Bytes) (o : Option tl.library.Signature)
      → IsDelivery digest o (after_run tl digest o none).0 (after_run tl digest o none).1
  unfolding after_run deliver_signature
  after_run-IsDelivery digest none = (refl, refl)
  after_run-IsDelivery digest (some sig) =
      elim (Bool-cases (set_bytes (tl.signature_data sig).m == set_bytes digest)) [
        | inl same ↦ rw same (inl ((==_iff _ _).0 same, (refl, refl)))
        | inr differ ↦
            rw differ (inr ((λ q. absurd (let e = (==_iff _ _).1 q in cc)), (refl, refl)))
      ]

  finish_sign-IsSigned :
      (job : SignRunJob) (choices : List (Choice tl.library))
      (r : ProtocolExecution tl.library × (TerminalState × Option Error))
      → IsOutcome choices r
      → IsSigned job choices (finish_sign tl job r)
  unfolding finish_sign
  finish_sign-IsSigned job choices (e, (state, o)) (inl (x, failed, bad, empty)) =
      unfold after_run in rw failed (inl (x, (refl, refl)))
  finish_sign-IsSigned job choices (e, (state, o)) (inr (result, found, (ended, kept))) =
      rw (ap (λ v. v.1) ended, ap (λ v. v.1.1) kept)
        (inr (result, (found, after_run-IsDelivery job.digest result.signature)))

  new_sign_execution-IsPending :
      (job : SignRunJob) (key_share : tl.library.KeyShare) (id : Bytes) (cfg : RunnerConfig)
      (e : ProtocolExecution tl.library)
      → new_sign_execution tl job key_share id cfg ≡ ok e
      → IsPending e
  unfolding new_sign_execution
  new_sign_execution-IsPending job key_share id cfg e h =
      let ((params, (ids, local)), built, h1) =
        >>=-eq-ok
          (plain (
            build_params tl job.parties job.local_party_id (length job.parties) [] (codes "ecdsa")))
          (λ x.
            build_sign tl job.digest x.0 key_share job.key_derivation_delta
            >>= (λ party. ok (new_execution (sign_params tl job x.1.0 party id cfg))))
          h in
      let (party, started, h2) =
        >>=-eq-ok (build_sign tl job.digest params key_share job.key_derivation_delta)
          (λ party. ok (new_execution (sign_params tl job ids party id cfg))) h1 in
      let is : new_execution (sign_params tl job ids party id cfg) ≡ e = cc in
      subst IsPending is (new_execution-IsPending (sign_params tl job ids party id cfg))

  refused-IsSigned :
      (job : SignRunJob) (choices : List (Choice tl.library)) (x : Error)
      (out : Outcome SignatureData)
      → some (refused tl (codes "sign") x) ≡ some out
      → IsSigned job choices out
  refused-IsSigned job choices x out h =
      let is : refused tl (codes "sign") x ≡ out = cc in
      subst (IsSigned job choices) is (inl (x, (refl, refl)))

  built-IsSigned :
      (job : SignRunJob) (now : ℕ) (choices : List (Choice tl.library))
      (b : Result Error (ProtocolExecution tl.library)) (out : Outcome SignatureData)
      → ((e : ProtocolExecution tl.library) → b ≡ ok e → IsPending e)
      → run_built tl job now choices b ≡ some out
      → IsSigned job choices out
  built-IsSigned job now choices (err x) out pending h = refused-IsSigned job choices x out h
  built-IsSigned job now choices (ok e) out pending h =
      let (r, returns, is) = (map-eq-some_iff (finish_sign tl job) (run e now choices)).0 h in
      subst (IsSigned job choices) is (
        finish_sign-IsSigned job choices r (run-IsOutcome e now choices r (pending e refl) returns))

  -- A run of the signing flow that returns has an error and hands nothing on; or the protocol ended
  -- with a result that came while the context lived, and if that has a signature, then either its
  -- `M` is the job's digest as a number and it is handed on with the bytes of the digest, or the
  -- flow ends with the error of a mismatch and hands nothing on.
  pub run_sign-IsSigned :
      (job : SignRunJob) (key_share : tl.library.KeyShare) (correlation_id : Bytes)
      (cfg : RunnerConfig) (now : ℕ) (choices : List (Choice tl.library))
      (out : Outcome SignatureData)
      → run_sign tl job key_share correlation_id cfg now choices ≡ some out
      → IsSigned job choices out
  unfolding run_sign
  run_sign-IsSigned job key_share correlation_id cfg now choices out h =
      elim (Bool-cases (length job.digest == 0)) [
        | inl empty ↦ refused-IsSigned job choices _ out (rw empty at h)
        | inr given ↦ elim (Bool-cases (is_other_algorithm tl.wide job.algorithm)) [
          | inl other ↦ refused-IsSigned job choices _ out (rw (given, other) at h)
          | inr ecdsa ↦
              built-IsSigned job now choices
                (new_sign_execution tl job key_share correlation_id cfg) out
                (new_sign_execution-IsPending job key_share correlation_id cfg)
                (rw (given, ecdsa) at h)
        ]
      ]
