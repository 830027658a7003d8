-- ===== src/Execution/State.antt =====
-- The state of a run (execution.go, stats.go) and `markProgress` (watchdog.go). tss-lib is the
-- parameter `Library`. Channels, the logger and the debug flag are left out; the counters that
-- `metrics` receives are a list, the last one first.
use brosettlement_mpc_core.Base.{
  ℕ, ◌+◌, ◌%◌, Bool, false, Option, none, some, List, [], ◌∷◌, Bytes, ◌=?◌, ltb, if◌then◌else◌,
  Result,
}
use brosettlement_mpc_core.RunnerConfig.{RunnerConfig}
use brosettlement_mpc_core.Execution.Errors.{Error}
use brosettlement_mpc_core.Execution.Deduper.{Deduper, new_deduper, uint64_size}

-- The routing of a message that tss-lib wants sent.
pub record Routing : Type 0 where
  pub from : Bytes
  pub to : List Bytes
  pub is_broadcast : Bool

-- tss-lib and SHA-256.
pub record Library : Type 1 where
  pub PartyId : Type 0
  pub ParsedMessage : Type 0
  pub Message : Type 0
  pub Party : Type 0
  pub KeyShare : Type 0
  pub Signature : Type 0
  pub parse_wire_message : Bytes → PartyId → Bool → Result Error ParsedMessage
  pub update : Party → ParsedMessage → Party × (Bool × Option Error)
  pub msg_type : Message → Bytes
  pub wire_bytes : Message → Result Error (Bytes × Routing)
  pub sha256 : Bytes → Bytes

pub data Metric : Type 0 where
  frames_sent : Metric
  frames_recv : Metric
  dedup_hits : Metric
  oversized_frames : Metric
  full_queues : Metric
  stalls : Metric

pub record Stats : Type 0 where
  pub sent_frames : ℕ  -- uint64
  pub recv_frames : ℕ  -- uint64
  pub dedup_drops : ℕ  -- uint64

-- `Add(1)` on a uint64.
abbrev pub incremented : ℕ → ℕ
incremented n = (n + 1) % uint64_size

abbrev pub inc_sent : Stats → Stats
inc_sent s = record s { sent_frames = incremented s.sent_frames }

abbrev pub inc_recv : Stats → Stats
inc_recv s = record s { recv_frames = incremented s.recv_frames }

abbrev pub inc_dedup_drop : Stats → Stats
inc_dedup_drop s = record s { dedup_drops = incremented s.dedup_drops }

pub record Params (lib : Library) : Type 0 where
  pub session_id : Bytes
  pub local_party_id : Bytes
  pub correlation_id : Bytes
  pub stage : Bytes
  pub algorithm : Bytes
  pub derivation_context_hash : Bytes
  pub party : lib.Party
  pub party_ids : List (Bytes × lib.PartyId)
  pub config : RunnerConfig

pub record ProtocolExecution (lib : Library) : Type 0 where
  pub session_id : Bytes
  pub local_party_id : Bytes
  pub correlation_id : Bytes
  pub stage : Bytes
  pub algorithm : Bytes
  pub derivation_context_hash : Bytes
  pub party : lib.Party
  pub party_ids : List (Bytes × lib.PartyId)
  pub cfg : RunnerConfig
  pub metrics : List Metric
  pub ecdsa_key_share : Option lib.KeyShare
  pub signature : Option lib.Signature
  pub seq : ℕ  -- uint64
  pub stats : Stats
  pub deduper : Deduper
  pub protocol_done_flag : Bool
  pub last_progress_nanos : ℕ
  pub last_warn_nanos : ℕ
  pub last_msg_type : Option Bytes
  pub last_recv_seq : ℕ
  pub last_sent_seq : ℕ
  pub last_round_hint : ℕ

unfoldable pub new_execution : {lib : Library} → Params lib → ProtocolExecution lib
unfolding new_deduper
new_execution p = record {
  session_id = p.session_id;
  local_party_id = p.local_party_id;
  correlation_id = p.correlation_id;
  stage = p.stage;
  algorithm = p.algorithm;
  derivation_context_hash = p.derivation_context_hash;
  party = p.party;
  party_ids = p.party_ids;
  cfg = p.config;
  metrics = [];
  ecdsa_key_share = none;
  signature = none;
  seq = 0;
  stats = record { sent_frames = 0; recv_frames = 0; dedup_drops = 0 };
  deduper = new_deduper p.config.dedup_ttl p.config.dedup_max_entries p.config.max_frame_bytes;
  protocol_done_flag = false;
  last_progress_nanos = 0;
  last_warn_nanos = 0;
  last_msg_type = none;
  last_recv_seq = 0;
  last_sent_seq = 0;
  last_round_hint = 0;
}

module _ {lib : Library} where
  abbrev pub counted : Metric → ProtocolExecution lib → ProtocolExecution lib
  counted m e = record e { metrics = m ∷ e.metrics }

  unfoldable pub mark_progress : ProtocolExecution lib → ℕ → Bytes → ℕ → ProtocolExecution lib
  mark_progress e now msg_type round_hint = record e {
    last_progress_nanos = now;
    last_msg_type = if msg_type =? [] then e.last_msg_type else some msg_type;
    last_round_hint = if ltb 0 round_hint then round_hint else e.last_round_hint;
  }
