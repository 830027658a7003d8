-- ===== src/Execution/Run/Events.antt =====
-- What the handling of one event leaves of the results of a run.
use brosettlement_mpc_core.Base.{
  ℕ, ◌≡◌, ◌≢◌, refl, ap, ◌∙◌, ◌⊎◌, inl, inr, Bool, true, false, ◌||◌, Option, none, some, List, [],
  ◌∷◌, ◌=?◌, if◌then◌else◌, Bool-cases, Option-cases, Result, ok, err,
}
use brosettlement_mpc_core.Protocol.{Frame}
use brosettlement_mpc_core.Execution.Errors.{
  Error, errors_is, duplicate_frame, frame_too_large, queue_full, eof, canceled, stalled_protocol,
  unexpected_eof,
}
use brosettlement_mpc_core.Execution.Deduper.{should_accept}
use brosettlement_mpc_core.Execution.State.{Library, Params, ProtocolExecution, new_execution}
use brosettlement_mpc_core.Execution.Inbound.{
  TerminalState, no_state, failed, success, canceled_state, stalled, classify_accept, unless_ok,
  should_process_inbound, validate_derivation_context_hash, validate_inbound, parse_inbound,
  apply_inbound, update_party, handle_validated, handle_incoming, handle_recv_error, is_err,
}
use brosettlement_mpc_core.Execution.Run.{
  ProtocolResult, protocol_done, Choice, event, handle_group_result, finish_terminal_event,
}

module _ {lib : Library} where
  -- The part of the state that says whether the protocol is done, and its results.
  abbrev pub results : ProtocolExecution lib → Bool × (Option lib.KeyShare × Option lib.Signature)
  results e = (e.protocol_done_flag, (e.ecdsa_key_share, e.signature))

  classify_accept-results :
      (e : ProtocolExecution lib) (r : Bool × Option Error)
      → results (unless_ok (classify_accept e r)).0 ≡ results e
  unfolding classify_accept
  classify_accept-results e (accepted, x) = elim (Bool-cases (is_err x duplicate_frame)) [
    | inl duplicate ↦ rw duplicate refl
    | inr other ↦ elim (Bool-cases (is_err x frame_too_large)) [
      | inl large ↦ rw (other, large) refl
      | inr rest ↦ rw (other, rest) (answered accepted x)
    ]
  ]
    where
      answered : (b : Bool) (y : Option Error) → results (unless_ok (e, (b, y))).0 ≡ results e
      answered true y = refl
      answered false y = refl

  should_process_inbound-results :
      (e : ProtocolExecution lib) (f : Frame) (now : ℕ)
      → results (unless_ok (should_process_inbound e f now)).0 ≡ results e
  unfolding should_process_inbound
  should_process_inbound-results e f now =
      classify_accept-results (record e { deduper = (should_accept lib.sha256 e.deduper f now).0 })
        (should_accept lib.sha256 e.deduper f now).1

  validate_inbound-results :
      (e : ProtocolExecution lib) (f : Frame) (now : ℕ)
      → results (validate_inbound e f now).0 ≡ results e
  unfolding validate_inbound
  validate_inbound-results e f now = elim (Bool-cases (f.session_id =? e.session_id)) [
    | inr foreign ↦ rw foreign refl
    | inl same ↦ elim (Option-cases (validate_derivation_context_hash e f)) [
      | inr (x, mismatch) ↦ rw (same, mismatch) refl
      | inl fits ↦ rw (same, fits) (should_process_inbound-results e f now)
    ]
  ]

  update_party-results :
      (e : ProtocolExecution lib) (r : Result Error lib.ParsedMessage)
      → results (update_party e r).0 ≡ results e
  unfolding update_party apply_inbound
  update_party-results e (err x) = refl
  update_party-results e (ok message) = refl

  handle_validated-results :
      (f : Frame) (r : ProtocolExecution lib × Option Error)
      → results (handle_validated f r).0 ≡ results r.0
  unfolding handle_validated
  handle_validated-results f (e, none) = update_party-results e (parse_inbound e f)
  handle_validated-results f (e, some x) =
      elim (Bool-cases (errors_is x eof || errors_is x duplicate_frame)) [
        | inl ignored ↦ rw ignored refl
        | inr reported ↦ rw reported refl
      ]

  pub handle_incoming-results :
      (e : ProtocolExecution lib) (f : Frame) (now : ℕ)
      → results (handle_incoming e f now).0 ≡ results e
  unfolding handle_incoming
  handle_incoming-results e f now =
      handle_validated-results f (validate_inbound e f now) ∙ validate_inbound-results e f now

  -- The protocol is not done, and there is no result.
  abbrev pub IsPending : ProtocolExecution lib → Type 0
  IsPending e = results e ≡ (false, (none, none))

  pub new_execution-IsPending : (p : Params lib) → IsPending (new_execution p)
  unfolding new_execution
  new_execution-IsPending p = refl

  -- One choice hands the loop this result, with the context alive and no error of a worker.
  unfoldable pub Delivers : ProtocolResult lib → List (Choice lib) → Type 0
  Delivers result [] = ⊥
  Delivers result (c ∷ cs) =
      ((now : ℕ) × (c ≡ event (protocol_done result) none now none)) ⊎ Delivers result cs

  -- A failure: an error, a state that is no success, and no result is kept.
  abbrev pub IsFailure : ProtocolExecution lib × (TerminalState × Option Error) → Type 0
  IsFailure r = (x : Error) × (r.1.1 ≡ some x) × (r.1.0 ≢ success) × IsPending r.0

  -- The success of a result: no error, and the result is kept.
  abbrev pub IsSuccess :
      ProtocolResult lib → ProtocolExecution lib × (TerminalState × Option Error) → Type 0
  IsSuccess result r =
      (r.1 ≡ (success, none)) × (results r.0 ≡ (true, (result.ecdsa_key_share, result.signature)))

  pub handle_group_result-fails :
      (e : ProtocolExecution lib) (o : Option Error)
      → IsPending e
      → (x : Error) × ((handle_group_result e o).1 ≡ some x)
        × ((handle_group_result e o).0 ≢ success)
  unfolding handle_group_result
  handle_group_result-fails e none h = rw (ap (λ r. r.0) h) (unexpected_eof ∷ [], refl, λ q. cc)
  handle_group_result-fails e (some x) h = elim (Bool-cases (errors_is x canceled)) [
    | inl ended ↦ rw (ended, ap (λ r. r.0) h) (canceled ∷ [], refl, λ q. cc)
    | inr other ↦ elim (Bool-cases (errors_is x stalled_protocol)) [
      | inl slow ↦ rw (other, slow) (x, refl, λ q. cc)
      | inr rest ↦ rw (other, rest) (x, refl, λ q. cc)
    ]
  ]

  pub finish_terminal_event-error :
      (e : ProtocolExecution lib) (s : TerminalState) (x : Error) (g : Option Error)
      → finish_terminal_event e s (some x) g ≡ (e, (s, some x))
  unfolding finish_terminal_event
  finish_terminal_event-error e no_state x g = refl
  finish_terminal_event-error e failed x g = refl
  finish_terminal_event-error e success x g = refl
  finish_terminal_event-error e canceled_state x g = refl
  finish_terminal_event-error e stalled x g = refl

  -- The handling of an event that ends the run with an error.
  unfoldable pub EndsBadly :
      ProtocolExecution lib × (Bool × (TerminalState × Option Error)) → Type 0
  EndsBadly r =
      (e1 : ProtocolExecution lib) × (s : TerminalState) × (x : Error) × (r
        ≡ (e1, (true, (s, some x))))
      × (s ≢ success)
      × IsPending e1

  canceled-EndsBadly :
      (e : ProtocolExecution lib) (done : Bool)
      → done ≡ false
      → IsPending e
      → EndsBadly (
          if done
          then (e, (true, (success, none)))
          else (e, (true, (canceled_state, some (canceled ∷ [])))))
  unfolding EndsBadly
  canceled-EndsBadly e true waiting h = cc
  canceled-EndsBadly e false waiting h = (e, canceled_state, canceled ∷ [], refl, λ q. cc, h)

  pub handle_recv_error-EndsBadly :
      (e : ProtocolExecution lib) (o : Option Error)
      → IsPending e
      → EndsBadly (handle_recv_error e o)
  unfolding handle_recv_error EndsBadly
  handle_recv_error-EndsBadly e none h = (e, failed, [], refl, λ q. cc, h)
  handle_recv_error-EndsBadly e (some x) h = elim (Bool-cases (errors_is x canceled)) [
    | inl ended ↦ rw ended (canceled-EndsBadly e e.protocol_done_flag (ap (λ r. r.0) h) h)
    | inr other ↦ elim (Bool-cases (errors_is x queue_full)) [
      | inl full ↦ rw (other, full) (_, failed, x, refl, λ q. cc, h)
      | inr room ↦ elim (Bool-cases (errors_is x frame_too_large)) [
        | inl large ↦ rw (other, room, large) (_, failed, x, refl, λ q. cc, h)
        | inr small ↦ elim (Bool-cases (errors_is x eof)) [
          | inl end ↦ rw (other, room, small, end) (e, failed, x, refl, λ q. cc, h)
          | inr rest ↦ rw (other, room, small, rest) (e, failed, x, refl, λ q. cc, h)
        ]
      ]
    ]
  ]
