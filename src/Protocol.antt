-- ===== src/Protocol.antt =====
-- protocol/frame.go: the frame that two parties exchange.
use brosettlement_mpc_core.Base.{ℕ, Bool, ◌||◌, [], Bytes, ◌=?◌}

pub record Frame : Type 0 where
  pub session_id : Bytes
  pub stage : Bytes
  pub org_id : Bytes
  pub message_id : Bytes
  pub seq : ℕ  -- uint64
  pub round : ℕ  -- uint32
  pub round_hint : ℕ  -- uint32
  pub broadcast : Bool
  pub protocol : Bytes
  pub message_type : Bytes
  pub payload_hash : Bytes
  pub derivation_context_hash : Bytes
  pub from_party : Bytes
  pub to_party : Bytes
  pub payload : Bytes
  pub correlation_id : Bytes
  pub sent_at : ℕ

unfoldable pub is_broadcast : Frame → Bool
is_broadcast f = f.broadcast || (f.to_party =? [])
