-- ===== src/Flow.antt =====
-- internal/tssbnb/flow: what a run of a protocol builds, runs and reports. The parameter `TssLib`
-- has what the flows call of tss-lib and the tables of Unicode; here are the values that both flows
-- share, the metrics of sessions (internal/tssbnb/support/metrics.go), and internal/tssbnb/utils/
-- classify.go. A nil `Metrics` is a list that nobody reads.
pub mod Params
pub mod Sign
pub mod Dkg
pub mod Toy
mod Tests
use brosettlement_mpc_core.Base.{
  ℕ, ◌*◌, ◌+◌, Bool, true, false, Option, none, some, List, [], ◌∷◌, Bytes, codes, if◌then◌else◌,
}
use brosettlement_mpc_core.Requests.{Curve}
use brosettlement_mpc_core.Execution.Errors.{Error, errors_is, canceled, deadline_exceeded}
use brosettlement_mpc_core.Execution.State.{Library}

-- `common.SignatureData`
pub record SignatureData : Type 0 where
  pub signature : Bytes
  pub signature_recovery : Bytes
  pub r : Bytes
  pub s : Bytes
  pub m : Bytes

pub record TssLib : Type 1 where
  pub library : Library
  pub PeerContext : Type 0
  pub Parameters : Type 0
  pub PreParams : Type 0
  pub new_party_id : Bytes → Bytes → ℕ → library.PartyId
  pub sort_party_ids : List library.PartyId → List library.PartyId
  pub new_peer_context : List library.PartyId → PeerContext
  pub new_parameters : Curve → PeerContext → library.PartyId → ℕ → ℕ → Parameters
  pub new_keygen_party : Parameters → Option PreParams → library.Party
  pub new_eddsa_keygen_party : Parameters → library.Party
  pub new_signing_party : ℕ → Parameters → library.KeyShare → ℕ → library.Party
  pub signature_data : library.Signature → SignatureData
  -- whether a share has its public key, and the lengths of its `BigXj` and `Ks`
  pub has_ecdsa_pub : library.KeyShare → Bool
  pub big_xj_length : library.KeyShare → ℕ
  pub ks_length : library.KeyShare → ℕ
  -- `strings.ToLower` beyond ASCII, and `strings.EqualFold`
  pub wide : Bytes → Bytes
  pub equal_fold : Bytes → Bytes → Bool

pub data ErrorKind : Type 0 where
  kind_success : ErrorKind
  kind_canceled : ErrorKind
  kind_timeout : ErrorKind
  kind_error : ErrorKind

pub data Level : Type 0 where
  level_debug : Level
  level_info : Level
  level_warn : Level
  level_error : Level

unfoldable pub classify_err : Option Error → ErrorKind × (Level × Bool)
classify_err none = (kind_success, (level_info, false))
classify_err (some x) =
    if errors_is x canceled
    then (kind_canceled, (level_debug, false))
    else if errors_is x deadline_exceeded
    then (kind_timeout, (level_warn, true))
    else (kind_error, (level_error, true))

-- The counters of sessions that `Metrics` has, each with its stage; a duration is a clock's.
pub data SessionMetric : Type 0 where
  sessions_started : Bytes → SessionMetric
  sessions_succeeded : Bytes → SessionMetric
  session_duration : Bytes → SessionMetric
  sessions_failed : Bytes → ErrorKind → SessionMetric
  timeouts : Bytes → SessionMetric

-- What a flow leaves: its error, the metrics it counted, the last one first, and the value that it
-- gave to its callback.
pub record Outcome (A : Type 0) : Type 0 where
  pub error : Option Error
  pub metrics : List SessionMetric
  pub delivered : Option A

-- The metrics after the protocol has run, by its error.
abbrev pub count_timeout : Bytes → ErrorKind → List SessionMetric → List SessionMetric
count_timeout stage kind_timeout ms = timeouts stage ∷ ms
count_timeout stage kind ms = ms

unfoldable pub count_outcome : Bytes → Option Error → List SessionMetric → List SessionMetric
unfolding classify_err
count_outcome stage none ms = session_duration stage ∷ sessions_succeeded stage ∷ ms
count_outcome stage (some x) ms =
    let kind = (classify_err (some x)).0 in sessions_failed stage kind ∷ count_timeout stage kind ms
