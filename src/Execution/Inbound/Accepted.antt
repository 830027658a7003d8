-- ===== src/Execution/Inbound/Accepted.antt =====
-- Which frames reach the party of a run, and what the others do.
use brosettlement_mpc_core.Base.{
  ℕ, ◌≡◌, refl, ap, ◌⊎◌, inl, inr, Bool, true, false, ◌||◌, Option, none, some, [], ◌∷◌, Bytes,
  ◌=?◌, =?_iff, Bool-cases, Option-cases, Result-cases, ok, err, length, ltb,
}
use brosettlement_mpc_core.Table.{lookup, has_key}
use brosettlement_mpc_core.Protocol.{Frame, is_broadcast}
use brosettlement_mpc_core.Execution.Errors.{
  Error, errors_is, duplicate_frame, frame_too_large, derivation_context_mismatch, eof,
  unknown_sender_party,
}
use brosettlement_mpc_core.Execution.Deduper.{
  Deduper, accept_key, should_accept, frame_dedup_key, evict, prune,
}
use brosettlement_mpc_core.Execution.State.{Library, ProtocolExecution}
use brosettlement_mpc_core.Execution.Inbound.{
  stage_sign, classify_accept, should_process_inbound, validate_derivation_context_hash, unless_ok,
  validate_inbound, parse_inbound, apply_inbound, update_party, handle_validated, handle_incoming,
}

-- An answer of the deduper is acceptance or an error.
abbrev IsAnswer : Bool × Option Error → Type 0
IsAnswer r = (r ≡ (true, none)) ⊎ ((x : Error) × (r ≡ (false, some x)))

accept_key-IsAnswer : (d : Deduper) (key : Bytes) (now : ℕ) → IsAnswer (accept_key d key now).1
unfolding accept_key
accept_key-IsAnswer d key now = elim (Bool-cases (has_key key d.seen)) [
  | inl old ↦ inr (duplicate_frame ∷ [], rw old refl)
  | inr new ↦ inl (rw new refl)
]

should_accept-IsAnswer :
    (sha256 : Bytes → Bytes) (d : Deduper) (frame : Frame) (now : ℕ)
    → IsAnswer (should_accept sha256 d frame now).1
unfolding should_accept
should_accept-IsAnswer sha256 d frame now =
    elim (Bool-cases (ltb d.max_frame_size (length frame.payload))) [
      | inl large ↦ inr (frame_too_large ∷ [], rw large refl)
      | inr fits ↦ rw fits (
          accept_key-IsAnswer (record d { seen = evict d.max_entries (prune d now) })
            (frame_dedup_key sha256 frame) now)
    ]

module _ {lib : Library} where
  -- The frame is of this session and, in a signing run, of its derivation context; it is new, and
  -- a known party sent it.
  pub record IsDelivered (e : ProtocolExecution lib) (f : Frame) (now : ℕ) (p : lib.Party)
      : Type 0 where
    pub session : f.session_id ≡ e.session_id
    pub context :
        ((e.stage =? stage_sign) ≡ false)
        ⊎ (((e.derivation_context_hash =? []) ≡ false)
            × (f.derivation_context_hash ≡ e.derivation_context_hash))
    pub accepted : (should_accept lib.sha256 e.deduper f now).1 ≡ (true, none)
    pub from : lib.PartyId
    pub known : lookup f.from_party e.party_ids ≡ some from
    pub message : lib.ParsedMessage
    pub parsed : lib.parse_wire_message f.payload from (is_broadcast f) ≡ ok message
    pub updated : p ≡ (lib.update e.party message).0

  validate_derivation_context_hash-cases :
      (e : ProtocolExecution lib) (f : Frame)
      → ((x : Error) × (validate_derivation_context_hash e f ≡ some x))
        ⊎ ((validate_derivation_context_hash e f ≡ none)
            × (((e.stage =? stage_sign) ≡ false)
                ⊎ (((e.derivation_context_hash =? []) ≡ false)
                    × (f.derivation_context_hash ≡ e.derivation_context_hash))))
  unfolding validate_derivation_context_hash
  validate_derivation_context_hash-cases e f = elim (Bool-cases (e.stage =? stage_sign)) [
    | inr other ↦ inr (rw other refl, inl other)
    | inl sign ↦ elim (Bool-cases (e.derivation_context_hash =? [])) [
      | inl missing ↦ inl (derivation_context_mismatch ∷ [], rw (sign, missing) refl)
      | inr given ↦ elim (Bool-cases (f.derivation_context_hash =? e.derivation_context_hash)) [
        | inl same ↦ inr (rw (sign, given, same) refl, inr (given, (=?_iff _ _).0 same))
        | inr differ ↦ inl (derivation_context_mismatch ∷ [], rw (sign, given, differ) refl)
      ]
    ]
  ]

  -- A refusal, which leaves the party alone.
  IsRefused : lib.Party → ProtocolExecution lib × Option Error → Type 0
  IsRefused p r = (e1 : ProtocolExecution lib) × (x : Error) × (r ≡ (e1, some x)) × (e1.party ≡ p)

  classify_accept-IsRefused :
      (e : ProtocolExecution lib) (x : Error)
      → IsRefused e.party (unless_ok (classify_accept e (false, some x)))
  unfolding classify_accept IsRefused
  classify_accept-IsRefused e x = elim (Bool-cases (errors_is x duplicate_frame)) [
    | inl duplicate ↦ rw duplicate (_, _, refl, refl)
    | inr other ↦ elim (Bool-cases (errors_is x frame_too_large)) [
      | inl large ↦ rw (other, large) (_, _, refl, refl)
      | inr rest ↦ rw (other, rest) (_, _, refl, refl)
    ]
  ]

  should_process_inbound-cases :
      (e : ProtocolExecution lib) (f : Frame) (now : ℕ)
      → IsRefused e.party (unless_ok (should_process_inbound e f now))
        ⊎ (((should_accept lib.sha256 e.deduper f now).1 ≡ (true, none))
            × (unless_ok (should_process_inbound e f now)
                ≡ (record e { deduper = (should_accept lib.sha256 e.deduper f now).0 }, none)))
  unfolding should_process_inbound classify_accept IsRefused
  should_process_inbound-cases e f now = elim (should_accept-IsAnswer lib.sha256 e.deduper f now) [
    | inl accepted ↦ inr (accepted, rw accepted refl)
    | inr (x, refused) ↦ inl (
        rw refused (
          classify_accept-IsRefused
            (record e { deduper = (should_accept lib.sha256 e.deduper f now).0 }) x))
  ]

  -- What `validateInbound` lets through.
  record IsValidated (e : ProtocolExecution lib) (f : Frame) (now : ℕ) : Type 0 where
    session : f.session_id ≡ e.session_id
    context :
        ((e.stage =? stage_sign) ≡ false)
        ⊎ (((e.derivation_context_hash =? []) ≡ false)
            × (f.derivation_context_hash ≡ e.derivation_context_hash))
    accepted : (should_accept lib.sha256 e.deduper f now).1 ≡ (true, none)

  abbrev after_accept : ProtocolExecution lib → Frame → ℕ → ProtocolExecution lib
  after_accept e f now = record e { deduper = (should_accept lib.sha256 e.deduper f now).0 }

  IsValidated-session :
      (e : ProtocolExecution lib) (f : Frame) (now : ℕ)
      → (f.session_id =? e.session_id) ≡ true
      → IsRefused e.party (validate_inbound e f now)
        ⊎ (IsValidated e f now × (validate_inbound e f now ≡ (after_accept e f now, none)))
  unfolding validate_inbound IsRefused
  IsValidated-session e f now same = elim (validate_derivation_context_hash-cases e f) [
    | inl (x, mismatch) ↦ inl (rw (same, mismatch) (_, _, refl, refl))
    | inr (fits, context) ↦ elim (should_process_inbound-cases e f now) [
      | inl refused ↦ inl (rw (same, fits) refused)
      | inr (accepted, kept) ↦ inr (
        record {
          session = (=?_iff f.session_id e.session_id).0 same;
          context = context;
          accepted = accepted;
        },
        rw (same, fits) kept,
      )
    ]
  ]

  validate_inbound-cases :
      (e : ProtocolExecution lib) (f : Frame) (now : ℕ)
      → IsRefused e.party (validate_inbound e f now)
        ⊎ (IsValidated e f now × (validate_inbound e f now ≡ (after_accept e f now, none)))
  unfolding validate_inbound IsRefused
  validate_inbound-cases e f now = elim (Bool-cases (f.session_id =? e.session_id)) [
    | inl same ↦ IsValidated-session e f now same
    | inr foreign ↦ inl (rw foreign (_, _, refl, refl))
  ]

  refused-party :
      (f : Frame) (p : lib.Party) (r : ProtocolExecution lib × Option Error)
      → IsRefused p r
      → (handle_validated f r).0.party ≡ p
  unfolding handle_validated IsRefused
  refused-party f p r (e1, x, is, kept) =
      elim (Bool-cases (errors_is x eof || errors_is x duplicate_frame)) [
        | inl ignored ↦ rw (is, ignored) kept
        | inr reported ↦ rw (is, reported) kept
      ]

  parse_inbound-cases :
      (e : ProtocolExecution lib) (f : Frame)
      → ((x : Error) × (parse_inbound e f ≡ err x))
        ⊎ ((from : lib.PartyId) × (message : lib.ParsedMessage) × (lookup f.from_party e.party_ids
              ≡ some from)
            × (lib.parse_wire_message f.payload from (is_broadcast f) ≡ ok message)
            × (parse_inbound e f ≡ ok message))
  unfolding parse_inbound
  parse_inbound-cases e f = elim (Option-cases (lookup f.from_party e.party_ids)) [
    | inl unknown ↦ inl (unknown_sender_party ∷ [], rw (unknown, parse_inbound) refl)
    | inr (from, known) ↦
        elim (Result-cases (lib.parse_wire_message f.payload from (is_broadcast f))) [
          | inl (x, broken) ↦ inl (x, rw (known, parse_inbound) broken)
          | inr (message, parsed) ↦
              inr (from, message, known, parsed, rw (known, parse_inbound) parsed)
        ]
  ]

  update_party-cases :
      (e : ProtocolExecution lib) (f : Frame)
      → ((update_party e (parse_inbound e f)).0.party ≡ e.party)
        ⊎ ((from : lib.PartyId) × (message : lib.ParsedMessage) × (lookup f.from_party e.party_ids
              ≡ some from)
            × (lib.parse_wire_message f.payload from (is_broadcast f) ≡ ok message)
            × ((update_party e (parse_inbound e f)).0.party ≡ (lib.update e.party message).0))
  unfolding update_party apply_inbound
  update_party-cases e f = elim (parse_inbound-cases e f) [
    | inl (x, broken) ↦ inl (ap (λ r. (update_party e r).0.party) broken)
    | inr (from, message, known, parsed, whole) ↦
        inr (from, message, known, parsed, ap (λ r. (update_party e r).0.party) whole)
  ]

  -- The party of a run changes only by a frame of its session, of its derivation context if it
  -- signs, that the deduper accepts, from a known party, and by the message parsed from it.
  pub handle_incoming-IsDelivered :
      (e : ProtocolExecution lib) (f : Frame) (now : ℕ)
      → ((handle_incoming e f now).0.party ≡ e.party)
        ⊎ IsDelivered e f now (handle_incoming e f now).0.party
  unfolding handle_incoming handle_validated
  handle_incoming-IsDelivered e f now = elim (validate_inbound-cases e f now) [
    | inl refused ↦ inl (refused-party f e.party (validate_inbound e f now) refused)
    | inr (valid, kept) ↦ elim (update_party-cases (after_accept e f now) f) [
      | inl same ↦ inl (rw kept same)
      | inr (from, message, known, parsed, updated) ↦ inr (record {
        session = valid.session;
        context = valid.context;
        accepted = valid.accepted;
        from = from;
        known = known;
        message = message;
        parsed = parsed;
        updated = rw kept updated;
      })
    ]
  ]
