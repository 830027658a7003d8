-- ===== src/Execution/Outbound/Peers.antt =====
-- The frames that one party sends, at another party of the session.
use brosettlement_mpc_core.Base.{
  ℕ, ◌≡◌, refl, sym, ap, ◌∙◌, subst, inl, inr, true, false, ◌&&◌, ◌||◌, ◌==◌, Option, none, List,
  [], ◌∷◌, ◌++◌, map, Bytes, ◌=?◌, =?_refl, Bool-cases, length, All,
}
use brosettlement_mpc_core.Protocol.{Frame}
use brosettlement_mpc_core.Execution.Errors.{Error}
use brosettlement_mpc_core.Execution.State.{Library, ProtocolExecution, Routing}
use brosettlement_mpc_core.Execution.Deduper.{should_accept}
use brosettlement_mpc_core.Execution.Inbound.{
  stage_sign, validate_derivation_context_hash, validate_inbound, should_process_inbound,
  classify_accept,
}
use brosettlement_mpc_core.Execution.Outbound.{Transport, addressed, base_frame, forward_outgoing}
use brosettlement_mpc_core.Execution.Outbound.Sent.{
  wanted_frames, IsSent, IsForwarded, forward_outgoing-cases,
}

All-prefix : (P : Frame → Type 0) (xs ys zs : List Frame) → xs ++ ys ≡ zs → All P zs → All P xs
All-prefix P xs ys zs e h = head_part xs (subst (All P) (sym e) h)
  where
    head_part : (us : List Frame) → All P (us ++ ys) → All P us
    head_part [] all = tt
    head_part (u ∷ us) (here, all) = (here, head_part us all)

module _ {lib : Library} where
  -- The receiver refuses the frame only if its deduper does.
  pub record IsWelcome (peer : ProtocolExecution lib) (f : Frame) : Type 0 where
    pub session : (f.session_id =? peer.session_id) ≡ true
    pub context : validate_derivation_context_hash peer f ≡ none

  -- Two parties of one session, with one derivation context, which a party that signs has.
  pub record IsPeer (e peer : ProtocolExecution lib) : Type 0 where
    pub session : e.session_id ≡ peer.session_id
    pub context : e.derivation_context_hash ≡ peer.derivation_context_hash
    pub given : ((peer.stage =? stage_sign) && (peer.derivation_context_hash =? [])) ≡ false

  labelled-IsWelcome :
      (e peer : ProtocolExecution lib) (f : Frame)
      → IsPeer e peer
      → f.session_id ≡ e.session_id
      → f.derivation_context_hash ≡ e.derivation_context_hash
      → IsWelcome peer f
  unfolding validate_derivation_context_hash
  labelled-IsWelcome e peer f h same hash = record {
    session = ap (λ s. s =? peer.session_id) (same ∙ h.session) ∙ =?_refl peer.session_id;
    context = elim (Bool-cases (peer.stage =? stage_sign)) [
      | inr other ↦ rw other refl
      | inl sign ↦
          rw
            (
              sign,
              given_to sign,
              ap (λ s. s =? peer.derivation_context_hash) (hash ∙ h.context)
                  ∙ =?_refl peer.derivation_context_hash,
            )
            refl
    ];
  }
    where
      given_to : (peer.stage =? stage_sign) ≡ true → (peer.derivation_context_hash =? []) ≡ false
      given_to sign = ap (λ b. b && (peer.derivation_context_hash =? [])) (sym sign) ∙ h.given

  each-IsWelcome :
      (e peer : ProtocolExecution lib) (base : Frame) (tos : List Bytes)
      → IsPeer e peer
      → base.session_id ≡ e.session_id
      → base.derivation_context_hash ≡ e.derivation_context_hash
      → All (IsWelcome peer) (map (addressed base) tos)
  each-IsWelcome e peer base [] h same hash = tt
  each-IsWelcome e peer base (to ∷ tos) h same hash = (
    labelled-IsWelcome e peer (addressed base to) h same hash,
    each-IsWelcome e peer base tos h same hash,
  )

  wanted_frames-IsWelcome :
      (e peer : ProtocolExecution lib) (base : Frame) (routing : Routing)
      → IsPeer e peer
      → base.session_id ≡ e.session_id
      → base.derivation_context_hash ≡ e.derivation_context_hash
      → All (IsWelcome peer) (wanted_frames base routing)
  wanted_frames-IsWelcome e peer base routing h same hash =
      elim (Bool-cases (routing.is_broadcast || (length routing.to == 0))) [
        | inl all ↦ rw all (labelled-IsWelcome e peer base h same hash, tt)
        | inr each ↦ rw each (each-IsWelcome e peer base routing.to h same hash)
      ]

  sent-All :
      (P : Frame → Type 0) (wanted : List Frame)
      (r : ProtocolExecution lib × (List Frame × Option Error))
      → IsSent wanted r
      → All P wanted
      → All P r.1.0
  sent-All P wanted r (inl (fine, all)) h = subst (All P) (sym all) h
  sent-All P wanted r (inr (x, rest, failing, part)) h = All-prefix P r.1.0 rest wanted part h

  -- Every frame that a party sends, in full or up to an error, passes the session and derivation
  -- checks of every party with the same session and the same hash of the derivation context, which
  -- is not empty if that party signs.
  pub forward_outgoing-IsWelcome :
      (e peer : ProtocolExecution lib) (t : Transport) (id : Bytes) (now : ℕ)
      (message : lib.Message)
      → IsPeer e peer
      → All (IsWelcome peer) (forward_outgoing e none t id now message).1.0
  unfolding IsForwarded base_frame
  forward_outgoing-IsWelcome e peer t id now message h =
      elim (forward_outgoing-cases e t id now message) [
        | inl (failing, empty) ↦ subst (All (IsWelcome peer)) (sym empty) tt
        | inr (payload, routing, encoded, fits, is_sent) ↦
            sent-All (IsWelcome peer) _ (forward_outgoing e none t id now message) is_sent (
              wanted_frames-IsWelcome e peer
                (base_frame e id now (lib.msg_type message) routing payload) routing h refl refl)
      ]

  -- A frame with the session of a party and past its derivation check is validated if the deduper
  -- accepts it.
  validate_inbound-IsWelcome :
      (peer : ProtocolExecution lib) (f : Frame) (now : ℕ)
      → IsWelcome peer f
      → (should_accept lib.sha256 peer.deduper f now).1 ≡ (true, none)
      → (validate_inbound peer f now).1 ≡ none
  unfolding validate_inbound should_process_inbound classify_accept
  validate_inbound-IsWelcome peer f now h accepted =
      rw (h.session, h.context, validate_inbound) (rw accepted refl)
