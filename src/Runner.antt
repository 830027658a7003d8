-- ===== src/Runner.antt =====
-- internal/tssbnb/runner: the runner of the protocols (bnb_runner.go, types.go), with the shares of
-- key generations under their session and party, and the signatures under a session or a key. Each
-- operation on a map is one step under its mutex. A copy of a value is the value.
pub mod Store
pub mod Stored
pub mod Refines
pub mod Sample
mod Tests
use brosettlement_mpc_core.Base.{
  ℕ, ◌≡◌, refl, Bool, true, false, not, ◌&&◌, ◌||◌, ◌==◌, Option, none, some, List, [], ◌∷◌, ◌++◌,
  Bytes, ◌=?◌, if◌then◌else◌, Result, ok, err, length,
}
use mathlib.Core.Option
use brosettlement_mpc_core.Table.{lookup, delete}
use brosettlement_mpc_core.RunnerConfig.{RunnerConfig}
use brosettlement_mpc_core.Execution.Errors.{
  Error, errors_is, key_share_not_found, sign_digest_required, sign_digest_mismatch,
  sign_algorithm_unsupported, flow_sign_digest_required, flow_sign_digest_mismatch,
  flow_sign_algorithm_unsupported,
}
use brosettlement_mpc_core.Execution.Run.{Choice}
use brosettlement_mpc_core.Flow.{TssLib, SignatureData, SessionMetric, Outcome}
use brosettlement_mpc_core.Flow.Sign.{SignRunJob}
use brosettlement_mpc_core.Flow.Dkg.{DkgRunJob}
use brosettlement_mpc_core.Flow.Sign as sign_flow
use brosettlement_mpc_core.Flow.Dkg as dkg_flow
use brosettlement_mpc_core.Service.Runs.{RunKey, same_key}

-- A map with the keys of runs.
module _ {ℓ} {A : Type ℓ} where
  unfoldable pub lookup_run : RunKey → List (RunKey × A) → Option A
  lookup_run key [] = none
  lookup_run key ((k, a) ∷ t) =
      let rest = lookup_run key t in if same_key k key then some a else rest

  unfoldable pub delete_run : RunKey → List (RunKey × A) → List (RunKey × A)
  delete_run key [] = []
  delete_run key ((k, a) ∷ t) =
      let rest = delete_run key t in if same_key k key then rest else (k, a) ∷ rest

abbrev pub is_empty_key : RunKey → Bool
is_empty_key (session_id, local_party_id) = (session_id =? []) || (local_party_id =? [])

abbrev pub found_signature : Option SignatureData → Result Error SignatureData
found_signature none = err []
found_signature (some sig) = ok sig

-- The errors of the flow as those that the runner exports.
unfoldable pub exported_error : Option Error → Option Error
exported_error none = none
exported_error (some x) =
    if errors_is x flow_sign_digest_required
    then some (sign_digest_required ∷ [])
    else if errors_is x flow_sign_digest_mismatch
    then some (sign_digest_mismatch ∷ [])
    else if errors_is x flow_sign_algorithm_unsupported
    then some (sign_algorithm_unsupported ∷ [])
    else some x

module _ (tl : TssLib) where
  pub record DkgJob : Type 0 where
    pub session_id : Bytes
    pub local_party_id : Bytes
    pub org_id : Bytes
    pub parties : List Bytes
    pub threshold : ℕ  -- uint32
    pub curve : Bytes
    pub algorithm : Bytes
    pub ecdsa_pre_params : Option tl.PreParams

  pub record SignJob : Type 0 where
    pub session_id : Bytes
    pub local_party_id : Bytes
    pub org_id : Bytes
    pub key_id : Bytes
    pub parties : List Bytes
    pub digest : Bytes
    pub algorithm : Bytes
    pub chain : Bytes
    pub key_share : tl.library.KeyShare
    pub key_derivation_delta : Option ℕ
    pub derivation_context_hash : Bytes

  pub record BnbRunner : Type 0 where
    pub temporary_ecdsa_dkg_shares : List (RunKey × tl.library.KeyShare)
    pub ecdsa_sigs : List (Bytes × SignatureData)
    pub metrics : List SessionMetric
    pub cfg : RunnerConfig

  -- `NewBnbRunner` with the configuration that its options leave.
  abbrev pub new_bnb_runner : RunnerConfig → BnbRunner
  new_bnb_runner cfg = record {
    temporary_ecdsa_dkg_shares = [];
    ecdsa_sigs = [];
    metrics = [];
    cfg = cfg;
  }

  unfoldable pub set_temporary_ecdsa_dkg_share :
      BnbRunner → RunKey → tl.library.KeyShare → BnbRunner
  set_temporary_ecdsa_dkg_share r key share = if is_empty_key key then r else record r {
    temporary_ecdsa_dkg_shares = (key, share) ∷ delete_run key r.temporary_ecdsa_dkg_shares;
  }

  unfoldable pub delete_temporary_ecdsa_dkg_share : BnbRunner → RunKey → BnbRunner
  delete_temporary_ecdsa_dkg_share r key =
      if is_empty_key key
      then r
      else record r { temporary_ecdsa_dkg_shares = delete_run key r.temporary_ecdsa_dkg_shares }

  abbrev pub found_share : Option tl.library.KeyShare → Result Error tl.library.KeyShare
  found_share none = err (key_share_not_found ∷ [])
  found_share (some share) = ok share

  unfoldable pub export_temporary_ecdsa_dkg_share :
      BnbRunner → RunKey → Result Error tl.library.KeyShare
  export_temporary_ecdsa_dkg_share r key = found_share (lookup_run key r.temporary_ecdsa_dkg_shares)

  unfoldable pub set_ecdsa_signature : BnbRunner → Bytes → Option SignatureData → BnbRunner
  set_ecdsa_signature r key none = r
  set_ecdsa_signature r key (some sig) =
      if key =? [] then r else record r { ecdsa_sigs = (key, sig) ∷ delete key r.ecdsa_sigs }

  unfoldable pub export_ecdsa_signature : BnbRunner → Bytes → Result Error SignatureData
  export_ecdsa_signature r key = found_signature (lookup key r.ecdsa_sigs)

  unfoldable pub is_zero_ecdsa_share : tl.library.KeyShare → Bool
  is_zero_ecdsa_share share =
      not (tl.has_ecdsa_pub share) && ((tl.big_xj_length share == 0) && (tl.ks_length share == 0))

  abbrev pub on_ecdsa_key_share : BnbRunner → RunKey → Option tl.library.KeyShare → BnbRunner
  on_ecdsa_key_share r key none = r
  on_ecdsa_key_share r key (some share) = set_temporary_ecdsa_dkg_share r key share

  unfoldable pub finish_dkg :
      BnbRunner → RunKey → Outcome tl.library.KeyShare → BnbRunner × Option Error
  unfolding set_temporary_ecdsa_dkg_share
  finish_dkg r key out = (
    record (on_ecdsa_key_share r key out.delivered) { metrics = out.metrics ++ r.metrics },
    out.error,
  )

  abbrev pub dkg_run_job : DkgJob → DkgRunJob tl
  dkg_run_job job = record {
    session_id = job.session_id;
    local_party_id = job.local_party_id;
    parties = job.parties;
    threshold = job.threshold;
    curve = job.curve;
    algorithm = job.algorithm;
    ecdsa_pre_params = job.ecdsa_pre_params;
  }

  unfoldable pub run_dkg :
      BnbRunner → DkgJob → Bytes → ℕ → List (Choice tl.library) → Option (BnbRunner × Option Error)
  unfolding finish_dkg
  run_dkg r job correlation_id now choices =
      Option.map (finish_dkg r (job.session_id, job.local_party_id))
        (dkg_flow.run_dkg tl (dkg_run_job job) correlation_id r.cfg now choices)

  -- The callback `OnSignature`.
  unfoldable pub on_signature : BnbRunner → SignJob → Option SignatureData → BnbRunner
  unfolding set_ecdsa_signature
  on_signature r job sig =
      let r1 = set_ecdsa_signature r job.session_id sig in
      if not (job.key_id =? []) then set_ecdsa_signature r1 job.key_id sig else r1

  unfoldable pub finish_sign :
      BnbRunner → SignJob → Outcome SignatureData → BnbRunner × Option Error
  unfolding on_signature exported_error
  finish_sign r job out = (
    record (on_signature r job out.delivered) { metrics = out.metrics ++ r.metrics },
    exported_error out.error,
  )

  abbrev pub sign_run_job : SignJob → SignRunJob
  sign_run_job job = record {
    session_id = job.session_id;
    local_party_id = job.local_party_id;
    key_id = job.key_id;
    parties = job.parties;
    digest = job.digest;
    algorithm = job.algorithm;
    key_derivation_delta = job.key_derivation_delta;
    derivation_context_hash = job.derivation_context_hash;
  }

  unfoldable pub run_sign :
      BnbRunner → SignJob → Bytes → ℕ → List (Choice tl.library) → Option (BnbRunner × Option Error)
  unfolding is_zero_ecdsa_share finish_sign
  run_sign r job correlation_id now choices =
      if is_zero_ecdsa_share job.key_share
      then some (r, some (key_share_not_found ∷ []))
      else Option.map (finish_sign r job)
          (sign_flow.run_sign tl (sign_run_job job) job.key_share correlation_id r.cfg now choices)
