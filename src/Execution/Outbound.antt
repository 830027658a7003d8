-- ===== src/Execution/Outbound.antt =====
-- internal/tssbnb/execution/outbound.go: frames for the messages that tss-lib wants sent. The
-- workers around it, which wait on channels, are left out.
pub mod Sent
pub mod Peers
use brosettlement_mpc_core.Base.{
  ℕ, ◌≡◌, refl, Bool, true, false, not, ◌||◌, ◌==◌, Option, none, some, List, [], ◌∷◌, ◌++◌, Bytes,
  codes, ◌=?◌, ltb, if◌then◌else◌, Result, ok, err, length,
}
use brosettlement_mpc_core.Text.{split}
use brosettlement_mpc_core.Protocol.{Frame}
use brosettlement_mpc_core.Execution.Errors.{Error, frame_too_large}
use brosettlement_mpc_core.Execution.Deduper.{short_hash}
use brosettlement_mpc_core.Execution.State.{
  Library, ProtocolExecution, Routing, counted, oversized_frames, frames_sent, inc_sent,
  incremented, mark_progress,
}

-- What the world does while a frame is sent: `ctx.Err()` just before, the transport's answer.
pub record Transport : Type 0 where
  pub ctx_err : Frame → Option Error
  pub send : Frame → Option Error

abbrev pub last_part : List Bytes → Bytes
last_part [] = []
last_part (p ∷ []) = p
last_part (p ∷ q ∷ ps) = last_part (q ∷ ps)

abbrev pub round_names : List (Bytes × ℕ)
round_names =
    (codes "KGRound1Message", 1)
    ∷ (codes "KGRound2Message1", 2)
    ∷ (codes "KGRound2Message2", 2)
    ∷ (codes "KGRound3Message", 3)
    ∷ (codes "SignRound1Message", 1)
    ∷ (codes "SignRound1Message1", 1)
    ∷ (codes "SignRound1Message2", 1)
    ∷ (codes "SignRound2Message", 2)
    ∷ (codes "SignRound3Message", 3)
    ∷ (codes "SignRound4Message", 4)
    ∷ (codes "SignRound5Message", 5)
    ∷ (codes "SignRound6Message", 6)
    ∷ (codes "SignRound7Message", 7)
    ∷ (codes "SignRound8Message", 8)
    ∷ (codes "SignRound9Message", 9)
    ∷ []

unfoldable pub round_of : Bytes → List (Bytes × ℕ) → ℕ
round_of name [] = 0
round_of name ((n, r) ∷ rest) = let other = round_of name rest in if n =? name then r else other

-- The name after the last dot decides.
unfoldable pub infer_round_hint : Bytes → ℕ
unfolding round_of
infer_round_hint msg_type = round_of (last_part (split b'.' msg_type)) round_names

abbrev pub addressed : Frame → Bytes → Frame
addressed base to = record base { to_party = to }

module _ {lib : Library} where
  -- `newOutboundBaseFrame`, with the identifier that `idgen` makes and the time.
  unfoldable pub base_frame : ProtocolExecution lib → Bytes → ℕ → Bytes → Routing → Bytes → Frame
  unfolding infer_round_hint
  base_frame e message_id now msg_type routing payload = record {
    session_id = e.session_id;
    stage = e.stage;
    org_id = [];
    message_id = message_id;
    seq = incremented e.seq;
    round = 0;
    round_hint = infer_round_hint msg_type;
    broadcast = routing.is_broadcast;
    protocol = e.algorithm;
    message_type = msg_type;
    payload_hash = short_hash lib.sha256 payload;
    derivation_context_hash = e.derivation_context_hash;
    from_party = routing.from;
    to_party = [];
    payload = payload;
    correlation_id = e.correlation_id;
    sent_at = now;
  }

  -- A frame that was sent is counted and noted as progress.
  unfoldable pub note_sent : ProtocolExecution lib → Frame → ℕ → ProtocolExecution lib
  unfolding mark_progress
  note_sent e frame now =
      mark_progress
        (record (counted frames_sent e) { stats = inc_sent e.stats; last_sent_seq = frame.seq }) now
        frame.message_type frame.round_hint

  -- With the frames that the transport took.
  unfoldable pub send_frame :
      ProtocolExecution lib
      → Transport
      → Frame
      → ℕ
      → ProtocolExecution lib × (List Frame × Option Error)
  unfolding note_sent
  send_frame e transport frame now = elim (transport.ctx_err frame) [
    | some x ↦ (e, ([], some x))
    | none ↦ elim (transport.send frame) [
      | some x ↦ (e, ([], some x))
      | none ↦ (note_sent e frame now, (frame ∷ [], none))
    ]
  ]

  -- The loop over `routing.To`; it stops at the first error.
  unfoldable pub send_each :
      ProtocolExecution lib
      → Transport
      → Frame
      → List Bytes
      → ℕ
      → ProtocolExecution lib × (List Frame × Option Error)
  unfolding send_frame
  send_each e transport base [] now = (e, ([], none))
  send_each e transport base (to ∷ rest) now =
      let r = send_frame e transport (addressed base to) now in
      elim r.1.1 [
        | some x ↦ (r.0, (r.1.0, some x))
        | none ↦
            (let more = send_each r.0 transport base rest now in
              (more.0, (r.1.0 ++ more.1.0, more.1.1)))
      ]

  unfoldable pub send_routed :
      ProtocolExecution lib
      → Transport
      → Frame
      → Routing
      → ℕ
      → ProtocolExecution lib × (List Frame × Option Error)
  unfolding send_each
  send_routed e transport base routing now =
      if routing.is_broadcast || (length routing.to == 0)
      then send_frame e transport base now
      else send_each e transport base routing.to now

  unfoldable pub send_payload :
      ProtocolExecution lib
      → Transport
      → Bytes
      → ℕ
      → Bytes
      → Bytes × Routing
      → ProtocolExecution lib × (List Frame × Option Error)
  unfolding send_routed base_frame
  send_payload e transport message_id now msg_type (payload, routing) =
      if ltb e.cfg.max_frame_bytes (length payload)
      then (counted oversized_frames e, ([], some (frame_too_large ∷ [])))
      else send_routed (record e { seq = incremented e.seq }) transport
          (base_frame e message_id now msg_type routing payload) routing now

  -- `ctx_err` is `ctx.Err()` at the start.
  unfoldable pub forward_outgoing :
      ProtocolExecution lib
      → Option Error
      → Transport
      → Bytes
      → ℕ
      → lib.Message
      → ProtocolExecution lib × (List Frame × Option Error)
  unfolding send_payload
  forward_outgoing e (some x) transport message_id now message = (e, ([], some x))
  forward_outgoing e none transport message_id now message = elim (lib.wire_bytes message) [
    | err x ↦ (e, ([], some x))
    | ok encoded ↦ send_payload e transport message_id now (lib.msg_type message) encoded
  ]
