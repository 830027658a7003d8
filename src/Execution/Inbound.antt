-- ===== src/Execution/Inbound.antt =====
-- internal/tssbnb/execution/inbound.go, but for the worker that receives: what a run does with
-- one frame and with an error of the receive loop. The clock readings of one call are one.
pub mod Accepted
use brosettlement_mpc_core.Base.{
  ℕ, ◌≡◌, refl, Bool, true, false, not, ◌||◌, Option, none, some, List, [], ◌∷◌, Bytes, codes, ◌=?◌,
  if◌then◌else◌, Result, ok, err,
}
use brosettlement_mpc_core.Table.{lookup}
use brosettlement_mpc_core.Protocol.{Frame, is_broadcast}
use brosettlement_mpc_core.Execution.Errors.{
  Error, Sentinel, errors_is, duplicate_frame, frame_too_large, queue_full, unknown_sender_party,
  derivation_context_mismatch, eof, canceled,
}
use brosettlement_mpc_core.Execution.Deduper.{should_accept}
use brosettlement_mpc_core.Execution.State.{
  Library, ProtocolExecution, Metric, counted, dedup_hits, oversized_frames, full_queues,
  inc_dedup_drop,
}

-- `errors.Is` on an error that may be nil.
abbrev pub is_err : Option Error → Sentinel → Bool
is_err none s = false
is_err (some e) s = errors_is e s

-- How a run ends; `no_state` is the empty string.
pub data TerminalState : Type 0 where
  no_state : TerminalState
  failed : TerminalState
  success : TerminalState
  canceled_state : TerminalState
  stalled : TerminalState

abbrev pub stage_sign : Bytes
stage_sign = codes "sign"

module _ {lib : Library} where
  unfoldable pub handle_recv_error :
      ProtocolExecution lib
      → Option Error
      → ProtocolExecution lib × (Bool × (TerminalState × Option Error))
  handle_recv_error e none = (e, (true, (failed, some [])))
  handle_recv_error e (some x) =
      if errors_is x canceled
      then if e.protocol_done_flag
        then (e, (true, (success, none)))
        else (e, (true, (canceled_state, some (canceled ∷ []))))
      else if errors_is x queue_full
      then (counted full_queues e, (true, (failed, some x)))
      else if errors_is x frame_too_large
      then (counted oversized_frames e, (true, (failed, some x)))
      else if errors_is x eof
      then (e, (true, (failed, some x)))
      else (e, (true, (failed, some x)))

  unfoldable pub classify_accept :
      ProtocolExecution lib → Bool × Option Error → ProtocolExecution lib × (Bool × Option Error)
  classify_accept e (accepted, x) =
      if is_err x duplicate_frame
      then (
        counted dedup_hits (record e { stats = inc_dedup_drop e.stats }),
        (false, some (duplicate_frame ∷ [])),
      )
      else if is_err x frame_too_large
      then (counted oversized_frames e, (false, x))
      else (e, (accepted, x))

  unfoldable pub should_process_inbound :
      ProtocolExecution lib → Frame → ℕ → ProtocolExecution lib × (Bool × Option Error)
  unfolding classify_accept
  should_process_inbound e frame now =
      let r = should_accept lib.sha256 e.deduper frame now in
      classify_accept (record e { deduper = r.0 }) r.1

  unfoldable pub validate_derivation_context_hash : ProtocolExecution lib → Frame → Option Error
  validate_derivation_context_hash e frame =
      if not (e.stage =? stage_sign)
      then none
      else if (e.derivation_context_hash =? [])
          || not (frame.derivation_context_hash =? e.derivation_context_hash)
      then some (derivation_context_mismatch ∷ [])
      else none

  abbrev pub unless_ok :
      ProtocolExecution lib × (Bool × Option Error) → ProtocolExecution lib × Option Error
  unless_ok (e, (true, x)) = (e, none)
  unless_ok (e, (false, x)) = (e, x)

  unfoldable pub validate_inbound :
      ProtocolExecution lib → Frame → ℕ → ProtocolExecution lib × Option Error
  unfolding validate_derivation_context_hash should_process_inbound
  validate_inbound e frame now =
      if not (frame.session_id =? e.session_id)
      then (e, some (eof ∷ []))
      else elim (validate_derivation_context_hash e frame) [
        | some x ↦ (e, some x)
        | none ↦ unless_ok (should_process_inbound e frame now)
      ]

  unfoldable pub parse_inbound : ProtocolExecution lib → Frame → Result Error lib.ParsedMessage
  parse_inbound e frame = elim (lookup frame.from_party e.party_ids) [
    | none ↦ err (unknown_sender_party ∷ [])
    | some from ↦ lib.parse_wire_message frame.payload from (is_broadcast frame)
  ]

  unfoldable pub apply_inbound :
      ProtocolExecution lib → lib.ParsedMessage → ProtocolExecution lib × Option Error
  apply_inbound e message = let r = lib.update e.party message in (record e { party = r.0 }, r.1.1)

  unfoldable pub update_party :
      ProtocolExecution lib → Result Error lib.ParsedMessage → ProtocolExecution lib × Option Error
  unfolding apply_inbound
  update_party e (err x) = (e, some x)
  update_party e (ok message) = apply_inbound e message

  unfoldable pub handle_validated :
      Frame → ProtocolExecution lib × Option Error → ProtocolExecution lib × Option Error
  unfolding parse_inbound update_party
  handle_validated frame (e, some x) =
      if errors_is x eof || errors_is x duplicate_frame then (e, none) else (e, some x)
  handle_validated frame (e, none) = update_party e (parse_inbound e frame)

  unfoldable pub handle_incoming :
      ProtocolExecution lib → Frame → ℕ → ProtocolExecution lib × Option Error
  unfolding validate_inbound handle_validated
  handle_incoming e frame now = handle_validated frame (validate_inbound e frame now)
