-- ===== src/Flow/Sign.antt =====
-- internal/tssbnb/flow/sign.go: a run of the signing protocol. The digest of the signature that
-- comes out is compared as a number, and the signature is handed on with the digest of the job.
pub mod Signed
use brosettlement_mpc_core.Base.{
  ℕ, ◌≡◌, ◌≢◌, refl, ap, ◌∙◌, ◌⊎◌, inl, inr, Bool, true, false, not, ◌&&◌, ◌==◌, ==_iff, Option,
  none, some, List, [], ◌∷◌, Bytes, codes, ◌=?◌, if◌then◌else◌, Result, ok, err, ◌>>=◌, Bool-cases,
  length,
}
use mathlib.Core.Option
use brosettlement_mpc_core.Text.{trim_space, to_lower}
use brosettlement_mpc_core.RunnerConfig.{RunnerConfig}
use brosettlement_mpc_core.Execution.Errors.{
  Error, flow_sign_digest_required, flow_sign_digest_mismatch, flow_sign_algorithm_unsupported,
  key_derivation_delta_required,
}
use brosettlement_mpc_core.Execution.State.{Params, ProtocolExecution, new_execution}
use brosettlement_mpc_core.Execution.Inbound.{TerminalState}
use brosettlement_mpc_core.Execution.Run.{Choice, run}
use brosettlement_mpc_core.Flow.{
  TssLib, SignatureData, SessionMetric, sessions_started, Outcome, count_outcome,
}
use brosettlement_mpc_core.BigInt.{set_bytes}
use brosettlement_mpc_core.Flow.Params.{build_params}

pub record SignRunJob : Type 0 where
  pub session_id : Bytes
  pub local_party_id : Bytes
  pub key_id : Bytes
  pub parties : List Bytes
  pub digest : Bytes
  pub algorithm : Bytes
  pub key_derivation_delta : Option ℕ
  pub derivation_context_hash : Bytes

-- An error of `BuildParams` is a plain one, which `errors.Is` finds in no sentinel.
abbrev pub plain {ℓ} : {E : Type 0} {A : Type ℓ} → Result E A → Result Error A
plain (err x) = err []
plain (ok a) = ok a

unfoldable pub deliver_signature : SignatureData → Bytes → Result Error SignatureData
deliver_signature signature digest =
    if not (set_bytes signature.m == set_bytes digest)
    then err (flow_sign_digest_mismatch ∷ [])
    else ok (record signature { m = digest })

abbrev pub is_other_algorithm : (Bytes → Bytes) → Bytes → Bool
is_other_algorithm wide algorithm =
    let alg = to_lower wide (trim_space algorithm) in not (alg =? []) && not (alg =? codes "ecdsa")

module _ (tl : TssLib) where
  unfoldable pub build_sign :
      Bytes → tl.Parameters → tl.library.KeyShare → Option ℕ → Result Error tl.library.Party
  build_sign digest params key_share none = err (key_derivation_delta_required ∷ [])
  build_sign digest params key_share (some delta) =
      ok (tl.new_signing_party (set_bytes digest) params key_share delta)

  abbrev pub sign_params :
      SignRunJob
      → List (Bytes × tl.library.PartyId)
      → tl.library.Party
      → Bytes
      → RunnerConfig
      → Params tl.library
  sign_params job party_ids party correlation_id cfg = record {
    session_id = job.session_id;
    local_party_id = job.local_party_id;
    correlation_id = correlation_id;
    stage = codes "sign";
    algorithm = codes "ecdsa";
    derivation_context_hash = job.derivation_context_hash;
    party = party;
    party_ids = party_ids;
    config = cfg;
  }

  unfoldable pub new_sign_execution :
      SignRunJob
      → tl.library.KeyShare
      → Bytes
      → RunnerConfig
      → Result Error (ProtocolExecution tl.library)
  unfolding build_sign
  new_sign_execution job key_share correlation_id cfg = do
    (params, (party_ids, local)) ←
        plain
          (build_params tl job.parties job.local_party_id (length job.parties) [] (codes "ecdsa"))
    party ← build_sign job.digest params key_share job.key_derivation_delta
    ok (new_execution (sign_params job party_ids party correlation_id cfg))

  -- The error of the flow after the protocol, with the signature handed on.
  abbrev pub delivery : Result Error SignatureData → Option Error × Option SignatureData
  delivery (err x) = (some x, none)
  delivery (ok sig) = (none, some sig)

  unfoldable pub after_run :
      Bytes → Option tl.library.Signature → Option Error → Option Error × Option SignatureData
  after_run digest signature (some x) = (some x, none)
  after_run digest none none = (none, none)
  after_run digest (some signature) none =
      delivery (deliver_signature (tl.signature_data signature) digest)

  unfoldable pub finish_sign :
      SignRunJob
      → ProtocolExecution tl.library × (TerminalState × Option Error)
      → Outcome SignatureData
  unfolding after_run
  finish_sign job (e, (state, x)) =
      let r = after_run job.digest e.signature x in
      record {
        error = r.0;
        metrics = count_outcome (codes "sign") r.0 (sessions_started (codes "sign") ∷ []);
        delivered = r.1;
      }

  -- An error before the protocol runs; only the start is counted.
  abbrev pub refused : {A : Type 0} → Bytes → Error → Outcome A
  refused stage x = record {
    error = some x;
    metrics = sessions_started stage ∷ [];
    delivered = none;
  }

  -- The run of what was built; `choices` are those of the scheduler, and none says that they end
  -- before the run does.
  abbrev pub run_built :
      SignRunJob
      → ℕ
      → List (Choice tl.library)
      → Result Error (ProtocolExecution tl.library)
      → Option (Outcome SignatureData)
  run_built job now choices (err x) = some (refused (codes "sign") x)
  run_built job now choices (ok e) = Option.map (finish_sign job) (run e now choices)

  unfoldable pub run_sign :
      SignRunJob
      → tl.library.KeyShare
      → Bytes
      → RunnerConfig
      → ℕ
      → List (Choice tl.library)
      → Option (Outcome SignatureData)
  unfolding new_sign_execution finish_sign
  run_sign job key_share correlation_id cfg now choices =
      if length job.digest == 0
      then some (refused (codes "sign") (flow_sign_digest_required ∷ []))
      else if is_other_algorithm tl.wide job.algorithm
      then some (refused (codes "sign") (flow_sign_algorithm_unsupported ∷ []))
      else run_built job now choices (new_sign_execution job key_share correlation_id cfg)
