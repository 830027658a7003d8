-- ===== src/Execution/Outbound/Sent.antt =====
-- Which frames a message becomes, and what its receivers make of them.
use brosettlement_mpc_core.Base.{
  ℕ, ◌≤◌, ◌≡◌, ◌≢◌, refl, ap, ◌⊎◌, inl, inr, ◌||◌, ◌==◌, Option, none, some, List, [], ◌∷◌, ◌++◌,
  map, Bytes, ltb, if◌then◌else◌, Bool-cases, Option-cases, Result-cases, ok, length, arith,
}
use brosettlement_mpc_core.Protocol.{Frame}
use brosettlement_mpc_core.Execution.Errors.{Error}
use brosettlement_mpc_core.Execution.State.{Library, ProtocolExecution, Routing, incremented}
use brosettlement_mpc_core.Execution.Outbound.{
  Transport, addressed, base_frame, note_sent, send_frame, send_each, send_routed, send_payload,
  forward_outgoing,
}

-- The frames that a message becomes: one to all, or one for each receiver.
abbrev pub wanted_frames : Frame → Routing → List Frame
wanted_frames base routing =
    if routing.is_broadcast || (length routing.to == 0)
    then base ∷ []
    else map (addressed base) routing.to

module _ {lib : Library} where
  send_frame-cases :
      (e : ProtocolExecution lib) (t : Transport) (f : Frame) (now : ℕ)
      → ((x : Error) × (send_frame e t f now ≡ (e, ([], some x))))
        ⊎ (send_frame e t f now ≡ (note_sent e f now, (f ∷ [], none)))
  unfolding send_frame
  send_frame-cases e t f now = elim (Option-cases (t.ctx_err f)) [
    | inr (x, ended) ↦ inl (x, rw (ended, send_frame) refl)
    | inl alive ↦ elim (Option-cases (t.send f)) [
      | inr (x, broken) ↦ inl (x, rw (alive, broken, send_frame) refl)
      | inl taken ↦ inr (rw (alive, taken, send_frame) refl)
    ]
  ]

  send_each-refused :
      (e : ProtocolExecution lib) (t : Transport) (base : Frame) (to : Bytes) (tos : List Bytes)
      (now : ℕ) (x : Error)
      → send_frame e t (addressed base to) now ≡ (e, ([], some x))
      → send_each e t base (to ∷ tos) now ≡ (e, ([], some x))
  unfolding send_each
  send_each-refused e t base to tos now x h = rw (h, send_each) (ap (λ r. (r.0, (r.1.0, some x))) h)

  send_each-taken :
      (e e1 : ProtocolExecution lib) (t : Transport) (base : Frame) (to : Bytes) (tos : List Bytes)
      (now : ℕ)
      → send_frame e t (addressed base to) now ≡ (e1, (addressed base to ∷ [], none))
      → send_each e t base (to ∷ tos) now ≡ (
        (send_each e1 t base tos now).0,
        (addressed base to ∷ (send_each e1 t base tos now).1.0, (send_each e1 t base tos now).1.1),
      )
  unfolding send_each
  send_each-taken e e1 t base to tos now h =
      rw (h, send_each)
        (ap
          (λ r. (
            (send_each r.0 t base tos now).0,
            (r.1.0 ++ (send_each r.0 t base tos now).1.0, (send_each r.0 t base tos now).1.1),
          ))
          h)

  -- Frames that are all sent, or some of them and an error.
  abbrev pub IsSent : List Frame → ProtocolExecution lib × (List Frame × Option Error) → Type 0
  IsSent wanted r =
      ((r.1.1 ≡ none) × (r.1.0 ≡ wanted))
      ⊎ ((x : Error) × (rest : List Frame) × (r.1.1 ≡ some x) × (r.1.0 ++ rest ≡ wanted))

  send_frame-IsSent :
      (e : ProtocolExecution lib) (t : Transport) (f : Frame) (now : ℕ)
      → IsSent (f ∷ []) (send_frame e t f now)
  send_frame-IsSent e t f now = elim (send_frame-cases e t f now) [
    | inl (x, refused) ↦ rw refused (inr (x, f ∷ [], refl, refl))
    | inr taken ↦ rw taken (inl (refl, refl))
  ]

  cons-IsSent :
      (f : Frame) (wanted : List Frame) (r : ProtocolExecution lib × (List Frame × Option Error))
      → IsSent wanted r
      → IsSent (f ∷ wanted) (r.0, (f ∷ r.1.0, r.1.1))
  cons-IsSent f wanted r (inl (fine, all)) = inl (fine, ap (◌∷◌ f) all)
  cons-IsSent f wanted r (inr (x, rest, failing, some_sent)) =
      inr (x, rest, failing, ap (◌∷◌ f) some_sent)

  send_each-IsSent :
      (e : ProtocolExecution lib) (t : Transport) (base : Frame) (tos : List Bytes) (now : ℕ)
      → IsSent (map (addressed base) tos) (send_each e t base tos now)
  send_each-IsSent e t base [] now = unfold send_each in inl (refl, refl)
  send_each-IsSent e t base (to ∷ tos) now = elim (send_frame-cases e t (addressed base to) now) [
    | inl (x, refused) ↦
        rw (send_each-refused e t base to tos now x refused)
          (inr (x, map (addressed base) (to ∷ tos), refl, refl))
    | inr taken ↦ rw (send_each-taken e _ t base to tos now taken) (
        cons-IsSent (addressed base to) (map (addressed base) tos)
          (send_each (note_sent e (addressed base to) now) t base tos now)
          (send_each-IsSent (note_sent e (addressed base to) now) t base tos now))
  ]

  send_routed-IsSent :
      (e : ProtocolExecution lib) (t : Transport) (base : Frame) (routing : Routing) (now : ℕ)
      → IsSent (wanted_frames base routing) (send_routed e t base routing now)
  unfolding send_routed
  send_routed-IsSent e t base routing now =
      elim (Bool-cases (routing.is_broadcast || (length routing.to == 0))) [
        | inl all ↦ rw all (send_frame-IsSent e t base now)
        | inr each ↦ rw each (send_each-IsSent e t base routing.to now)
      ]

  send_payload-IsSent :
      (e : ProtocolExecution lib) (t : Transport) (id : Bytes) (now : ℕ) (typ payload : Bytes)
      (routing : Routing)
      → (((send_payload e t id now typ (payload, routing)).1.1 ≢ none)
          × ((send_payload e t id now typ (payload, routing)).1.0 ≡ []))
        ⊎ ((length payload ≤ e.cfg.max_frame_bytes)
            × IsSent
                (wanted_frames (base_frame e id now typ routing payload) routing)
                (send_payload e t id now typ (payload, routing)))
  unfolding send_payload
  send_payload-IsSent e t id now typ payload routing =
      elim (Bool-cases (ltb e.cfg.max_frame_bytes (length payload))) [
        | inl large ↦ inl (rw large (λ q. cc, refl))
        | inr fits ↦ inr (
          ground (arith, fits),
          rw fits (
              send_routed-IsSent (record e { seq = incremented e.seq }) t
                (base_frame e id now typ routing payload) routing now),
        )
      ]

  -- What the sending of a message comes to.
  unfoldable pub IsForwarded :
      ProtocolExecution lib
      → Bytes
      → ℕ
      → lib.Message
      → ProtocolExecution lib × (List Frame × Option Error)
      → Type 0
  IsForwarded e id now message r =
      (payload : Bytes) × (routing : Routing) × (lib.wire_bytes message ≡ ok (payload, routing))
      × (length payload ≤ e.cfg.max_frame_bytes)
      × IsSent (wanted_frames (base_frame e id now (lib.msg_type message) routing payload) routing)
          r

  pub forward_outgoing-cases :
      (e : ProtocolExecution lib) (t : Transport) (id : Bytes) (now : ℕ) (message : lib.Message)
      → (((forward_outgoing e none t id now message).1.1 ≢ none)
          × ((forward_outgoing e none t id now message).1.0 ≡ []))
        ⊎ IsForwarded e id now message (forward_outgoing e none t id now message)
  unfolding forward_outgoing IsForwarded
  forward_outgoing-cases e t id now message = elim (Result-cases (lib.wire_bytes message)) [
    | inl (x, broken) ↦ inl (rw (broken, forward_outgoing) (λ q. cc, refl))
    | inr ((payload, routing), encoded) ↦
        rw (encoded, forward_outgoing)
          (elim (send_payload-IsSent e t id now (lib.msg_type message) payload routing) [
            | inl refused ↦ inl refused
            | inr (fits, is_sent) ↦ inr (payload, routing, refl, fits, is_sent)
          ])
  ]
