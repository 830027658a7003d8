-- ===== src/Execution/Run.antt =====
-- internal/tssbnb/execution/completion.go and the loop of `Run` (execution.go): events, the end of
-- a run and what it returns. A panic, which `Run` reports as an error, is left out.
pub mod Events
pub mod Outcome
use brosettlement_mpc_core.Base.{
  ℕ, ◌≡◌, Bool, true, false, not, Option, none, some, List, [], ◌∷◌, Bytes, codes, if◌then◌else◌,
}
use brosettlement_mpc_core.Protocol.{Frame}
use brosettlement_mpc_core.Execution.Errors.{
  Error, errors_is, canceled, stalled_protocol, unexpected_eof,
}
use brosettlement_mpc_core.Execution.State.{
  Library, ProtocolExecution, counted, frames_recv, inc_recv, mark_progress,
}
use brosettlement_mpc_core.Execution.Inbound.{
  TerminalState, no_state, failed, success, canceled_state, stalled, handle_recv_error,
  handle_incoming,
}

module _ (lib : Library) where
  pub record ProtocolResult : Type 0 where
    pub ecdsa_key_share : Option lib.KeyShare
    pub signature : Option lib.Signature

  -- `protocolEvent`, each type with the fields that it uses.
  pub data ProtocolEvent : Type 0 where
    inbound_frame : Frame → ProtocolEvent
    recv_error : Option Error → ProtocolEvent
    protocol_done : ProtocolResult → ProtocolEvent
    unknown_event : ℕ → ProtocolEvent

  -- What a `select` of the loop of `Run` may take: the end of the context with its error; an event,
  -- with `ctx.Err()`, the clock and the error of the workers if they are waited for; or the end of
  -- the workers.
  pub data Choice : Type 0 where
    ctx_done : Error → Choice
    event : ProtocolEvent → Option Error → ℕ → Option Error → Choice
    workers_done : Option Error → Choice

module _ {lib : Library} where
  abbrev pub finish_inbound :
      Frame
      → ℕ
      → ProtocolExecution lib × Option Error
      → ProtocolExecution lib × (Bool × (TerminalState × Option Error))
  finish_inbound frame now (e, some x) = (e, (true, (failed, some x)))
  finish_inbound frame now (e, none) =
      (mark_progress e now frame.message_type frame.round_hint, (false, (no_state, none)))

  -- The start of the handling of a frame: it is counted and noted as progress.
  unfoldable pub received : ProtocolExecution lib → Frame → ℕ → ProtocolExecution lib
  received e frame now =
      mark_progress
        (record (counted frames_recv e) { stats = inc_recv e.stats; last_recv_seq = frame.seq }) now
        frame.message_type frame.round_hint

  unfoldable pub handle_event :
      ProtocolExecution lib
      → ProtocolEvent lib
      → Option Error
      → ℕ
      → ProtocolExecution lib × (Bool × (TerminalState × Option Error))
  unfolding received
  handle_event e (inbound_frame frame) ctx_err now =
      finish_inbound frame now (handle_incoming (received e frame now) frame now)
  handle_event e (recv_error x) ctx_err now = handle_recv_error e x
  handle_event e (protocol_done result) (some x) now = (e, (true, (canceled_state, some x)))
  handle_event e (protocol_done result) none now = (
    record e {
      ecdsa_key_share = result.ecdsa_key_share;
      signature = result.signature;
      protocol_done_flag = true;
    },
    (true, (success, none)),
  )
  handle_event e (unknown_event typ) ctx_err now = (e, (true, (failed, some [])))

  unfoldable pub handle_group_result :
      ProtocolExecution lib → Option Error → TerminalState × Option Error
  handle_group_result e none =
      if e.protocol_done_flag then (success, none) else (failed, some (unexpected_eof ∷ []))
  handle_group_result e (some x) =
      if errors_is x canceled
      then if e.protocol_done_flag then (success, none) else (canceled_state, some (canceled ∷ []))
      else if errors_is x stalled_protocol
      then (stalled, some x)
      else (failed, some x)

  abbrev pub cleared : ProtocolExecution lib → ProtocolExecution lib
  cleared e = record e { ecdsa_key_share = none; signature = none; protocol_done_flag = false }

  unfoldable pub finish_terminal_event :
      ProtocolExecution lib
      → TerminalState
      → Option Error
      → Option Error
      → ProtocolExecution lib × (TerminalState × Option Error)
  unfolding handle_group_result
  finish_terminal_event e success none (some x) =
      (cleared e, handle_group_result (cleared e) (some x))
  finish_terminal_event e success none none = (e, (success, none))
  finish_terminal_event e state event_err group_err = (e, (state, event_err))

  -- What one `select` leads to: another round, or the value of `Run`.
  unfoldable pub run_step :
      ProtocolExecution lib
      → Choice lib
      → ProtocolExecution lib × Option (TerminalState × Option Error)
  unfolding handle_event finish_terminal_event
  run_step e (ctx_done x) = (e, some (canceled_state, some x))
  run_step e (workers_done x) = (e, some (handle_group_result e x))
  run_step e (event ev ctx_err now group_err) =
      let r = handle_event e ev ctx_err now in
      if not r.1.0
      then (r.0, none)
      else (let finished = finish_terminal_event r.0 r.1.1.0 r.1.1.1 group_err in
          (finished.0, some finished.1))

  -- The loop, on the choices of the scheduler; none if they end before the run does.
  unfoldable pub run_loop :
      ProtocolExecution lib
      → List (Choice lib)
      → Option (ProtocolExecution lib × (TerminalState × Option Error))
  unfolding run_step
  run_loop e [] = none
  run_loop e (c ∷ cs) =
      let r = run_step e c in elim r.1 [ some value ↦ some (r.0, value) | none ↦ run_loop r.0 cs ]

  unfoldable pub run :
      ProtocolExecution lib
      → ℕ
      → List (Choice lib)
      → Option (ProtocolExecution lib × (TerminalState × Option Error))
  unfolding run_loop
  run e now choices = run_loop (mark_progress e now (codes "start") 0) choices
