-- ===== src/Flow/Dkg.antt =====
-- internal/tssbnb/flow/dkg.go: a run of the key generation. `ValidateWithProof`, whose result the
-- code drops, is left out.
use brosettlement_mpc_core.Base.{
  ℕ, ◌||◌, Option, none, some, List, [], ◌∷◌, Bytes, codes, ◌=?◌, if◌then◌else◌, Result, ok, err,
  ◌>>=◌,
}
use mathlib.Core.Option
use brosettlement_mpc_core.Text.{trim_space, to_lower}
use brosettlement_mpc_core.RunnerConfig.{RunnerConfig}
use brosettlement_mpc_core.Execution.Errors.{Error}
use brosettlement_mpc_core.Execution.State.{ProtocolExecution, new_execution}
use brosettlement_mpc_core.Execution.Inbound.{TerminalState}
use brosettlement_mpc_core.Execution.Run.{Choice, run}
use brosettlement_mpc_core.Flow.{TssLib, sessions_started, Outcome, count_outcome}
use brosettlement_mpc_core.Flow.Params.{build_params}
use brosettlement_mpc_core.Flow.Sign.{plain, refused}

pub record DkgRunJob (tl : TssLib) : Type 0 where
  pub session_id : Bytes
  pub local_party_id : Bytes
  pub parties : List Bytes
  pub threshold : ℕ  -- uint32
  pub curve : Bytes
  pub algorithm : Bytes
  pub ecdsa_pre_params : Option tl.PreParams

-- `NormalizeAlgorithm` of tss/utils/helpers.go
unfoldable pub normalize_algorithm : (Bytes → Bytes) → Bytes → Bytes
normalize_algorithm wide algorithm =
    let alg = to_lower wide (trim_space algorithm) in if alg =? [] then codes "ecdsa" else alg

module _ (tl : TssLib) where
  unfoldable pub build_dkg :
      tl.Parameters → Bytes → Option tl.PreParams → Result Error tl.library.Party
  build_dkg params algorithm pre_params =
      let alg = to_lower tl.wide (trim_space algorithm) in
      if (alg =? []) || (alg =? codes "ecdsa")
      then ok (tl.new_keygen_party params pre_params)
      else if alg =? codes "eddsa"
      then ok (tl.new_eddsa_keygen_party params)
      else err []

  unfoldable pub new_dkg_execution :
      DkgRunJob tl → Bytes → RunnerConfig → Result Error (ProtocolExecution tl.library)
  unfolding build_dkg normalize_algorithm
  new_dkg_execution job correlation_id cfg = do
    (params, (party_ids, local)) ←
        plain (build_params tl job.parties job.local_party_id job.threshold job.curve job.algorithm)
    party ← build_dkg params job.algorithm job.ecdsa_pre_params
    ok (
        new_execution (record {
          session_id = job.session_id;
          local_party_id = job.local_party_id;
          correlation_id = correlation_id;
          stage = codes "dkg";
          algorithm = normalize_algorithm tl.wide job.algorithm;
          derivation_context_hash = [];
          party = party;
          party_ids = party_ids;
          config = cfg;
        }))

  unfoldable pub finish_dkg :
      ProtocolExecution tl.library × (TerminalState × Option Error) → Outcome tl.library.KeyShare
  finish_dkg (e, (state, x)) = record {
    error = x;
    metrics = count_outcome (codes "dkg") x (sessions_started (codes "dkg") ∷ []);
    delivered = elim x [ some y ↦ none | none ↦ e.ecdsa_key_share ];
  }

  abbrev pub run_built :
      ℕ
      → List (Choice tl.library)
      → Result Error (ProtocolExecution tl.library)
      → Option (Outcome tl.library.KeyShare)
  run_built now choices (err x) = some (refused tl (codes "dkg") x)
  run_built now choices (ok e) = Option.map finish_dkg (run e now choices)

  unfoldable pub run_dkg :
      DkgRunJob tl
      → Bytes
      → RunnerConfig
      → ℕ
      → List (Choice tl.library)
      → Option (Outcome tl.library.KeyShare)
  unfolding new_dkg_execution finish_dkg
  run_dkg job correlation_id cfg now choices =
      run_built now choices (new_dkg_execution job correlation_id cfg)
