-- ===== src/Execution/Run/Outcome.antt =====
-- What a run returns, and when it keeps a result.
use brosettlement_mpc_core.Base.{
  ℕ, ◌≡◌, refl, sym, ap, subst, ◌∙◌, ◌⊎◌, inl, inr, Bool, true, false, not, ◌||◌, Option, none,
  some, List, [], ◌∷◌, codes, if◌then◌else◌, Bool-cases, Option-cases, arith,
}
use brosettlement_mpc_core.Protocol.{Frame}
use brosettlement_mpc_core.Execution.Errors.{Error}
use brosettlement_mpc_core.Execution.State.{Library, ProtocolExecution, mark_progress}
use brosettlement_mpc_core.Execution.Inbound.{
  TerminalState, failed, success, canceled_state, handle_incoming, handle_recv_error,
}
use brosettlement_mpc_core.Execution.Run.{
  ProtocolResult, inbound_frame, recv_error, protocol_done, unknown_event, Choice, ctx_done, event,
  workers_done, finish_inbound, received, handle_event, handle_group_result, cleared,
  finish_terminal_event, run_step, run_loop, run,
}
use brosettlement_mpc_core.Execution.Run.Events.{
  results, IsPending, Delivers, IsFailure, IsSuccess, EndsBadly, handle_group_result-fails,
  finish_terminal_event-error, handle_recv_error-EndsBadly, handle_incoming-results,
}

some-cancel : {A : Type 0} {a b : A} → some a ≡ some b → a ≡ b
some-cancel h = cc

module _ {lib : Library} where
  -- What a step of a pending run comes to.
  StepOf :
      ProtocolExecution lib
      → Choice lib
      → ProtocolExecution lib × Option (TerminalState × Option Error)
      → Type 0
  StepOf e c r =
      ((r.1 ≡ none) × IsPending r.0)
      ⊎ ((v : TerminalState × Option Error) × (r.1 ≡ some v)
          × (IsFailure (r.0, v)
              ⊎ ((result : ProtocolResult lib) × Delivers result (c ∷ [])
                  × IsSuccess result (r.0, v))))

  -- The part of `run_step` that follows the handling of an event.
  abbrev after_event :
      Option Error
      → ProtocolExecution lib × (Bool × (TerminalState × Option Error))
      → ProtocolExecution lib × Option (TerminalState × Option Error)
  after_event group_err r =
      if not r.1.0
      then (r.0, none)
      else (let finished = finish_terminal_event r.0 r.1.1.0 r.1.1.1 group_err in
          (finished.0, some finished.1))

  bad-StepOf :
      (e : ProtocolExecution lib) (c : Choice lib) (g : Option Error)
      (r : ProtocolExecution lib × (Bool × (TerminalState × Option Error)))
      → EndsBadly r
      → StepOf e c (after_event g r)
  unfolding EndsBadly StepOf
  bad-StepOf e c g r (e1, s, x, is, bad, h) =
      rw (is, finish_terminal_event-error e1 s x g) (inr ((s, some x), refl, inl (x, refl, bad, h)))

  inbound-StepOf :
      (e : ProtocolExecution lib) (c : Choice lib) (g : Option Error) (f : Frame) (now : ℕ)
      (r : ProtocolExecution lib × Option Error)
      → IsPending r.0
      → StepOf e c (after_event g (finish_inbound f now r))
  unfolding StepOf mark_progress
  inbound-StepOf e c g f now (e1, none) h = inl (refl, h)
  inbound-StepOf e c g f now (e1, some x) h =
      rw (finish_terminal_event-error e1 failed x g)
        (inr ((failed, some x), refl, inl (x, refl, λ q. cc, h)))

  received-results :
      (e : ProtocolExecution lib) (f : Frame) (now : ℕ) → results (received e f now) ≡ results e
  unfolding received mark_progress
  received-results e f now = refl

  cleared-StepOf :
      (e e1 : ProtocolExecution lib) (c : Choice lib) (x : Error)
      → StepOf e c (cleared e1, some (handle_group_result (cleared e1) (some x)))
  unfolding StepOf
  cleared-StepOf e e1 c x =
      let (y, failing, bad) = handle_group_result-fails (cleared e1) (some x) refl in
      inr (handle_group_result (cleared e1) (some x), refl, inl (y, failing, bad, refl))

  done-StepOf :
      (e : ProtocolExecution lib) (result : ProtocolResult lib) (ctx_err : Option Error) (now : ℕ)
      (g : Option Error)
      → IsPending e
      → StepOf e
          (event (protocol_done result) ctx_err now g)
          (after_event g (handle_event e (protocol_done result) ctx_err now))
  unfolding StepOf handle_event finish_terminal_event Delivers
  done-StepOf e result (some x) now g h =
      inr ((canceled_state, some x), refl, inl (x, refl, λ q. cc, h))
  done-StepOf e result none now none h =
      inr ((success, none), refl, inr (result, inl (now, refl), (refl, refl)))
  done-StepOf e result none now (some x) h =
      cleared-StepOf e
        (record e {
          ecdsa_key_share = result.ecdsa_key_share;
          signature = result.signature;
          protocol_done_flag = true;
        })
        (event (protocol_done result) none now (some x)) x

  run_step-StepOf :
      (e : ProtocolExecution lib) (c : Choice lib) → IsPending e → StepOf e c (run_step e c)
  unfolding run_step
  run_step-StepOf e (ctx_done x) h =
      unfold StepOf in inr ((canceled_state, some x), refl, inl (x, refl, λ q. cc, h))
  run_step-StepOf e (workers_done o) h =
      let (x, failing, bad) = handle_group_result-fails e o h in
      unfold StepOf in inr (handle_group_result e o, refl, inl (x, failing, bad, h))
  run_step-StepOf e (event (inbound_frame f) ctx_err now g) h =
      unfold handle_event in
      inbound-StepOf e (event (inbound_frame f) ctx_err now g) g f now
        (handle_incoming (received e f now) f now)
        (handle_incoming-results (received e f now) f now ∙ received-results e f now ∙ h)
  run_step-StepOf e (event (recv_error o) ctx_err now g) h =
      unfold handle_event in
      bad-StepOf e (event (recv_error o) ctx_err now g) g (handle_recv_error e o)
        (handle_recv_error-EndsBadly e o h)
  run_step-StepOf e (event (protocol_done result) ctx_err now g) h =
      done-StepOf e result ctx_err now g h
  run_step-StepOf e (event (unknown_event typ) ctx_err now g) h =
      unfold handle_event in
      bad-StepOf e (event (unknown_event typ) ctx_err now g) g (e, (true, (failed, some [])))
        (unfold EndsBadly in (e, failed, [], refl, λ q. cc, h))

  -- What a run that returns has come to.
  abbrev pub IsOutcome :
      List (Choice lib) → ProtocolExecution lib × (TerminalState × Option Error) → Type 0
  IsOutcome choices r =
      IsFailure r ⊎ ((result : ProtocolResult lib) × Delivers result choices × IsSuccess result r)

  run_loop-some :
      (e : ProtocolExecution lib) (c : Choice lib) (cs : List (Choice lib))
      (v : TerminalState × Option Error)
      → (run_step e c).1 ≡ some v
      → run_loop e (c ∷ cs) ≡ some ((run_step e c).0, v)
  unfolding run_loop
  run_loop-some e c cs v h = rw (h, run_loop) refl

  run_loop-none :
      (e : ProtocolExecution lib) (c : Choice lib) (cs : List (Choice lib))
      → (run_step e c).1 ≡ none
      → run_loop e (c ∷ cs) ≡ run_loop (run_step e c).0 cs
  unfolding run_loop
  run_loop-none e c cs h = rw (h, run_loop) refl

  later-IsOutcome :
      (c : Choice lib) (cs : List (Choice lib))
      (r : ProtocolExecution lib × (TerminalState × Option Error))
      → IsOutcome cs r
      → IsOutcome (c ∷ cs) r
  unfolding Delivers
  later-IsOutcome c cs r (inl failing) = inl failing
  later-IsOutcome c cs r (inr (result, found, kept)) = inr (result, inr found, kept)

  first-IsOutcome :
      (c : Choice lib) (cs : List (Choice lib))
      (r : ProtocolExecution lib × (TerminalState × Option Error))
      → IsFailure r
        ⊎ ((result : ProtocolResult lib) × Delivers result (c ∷ []) × IsSuccess result r)
      → IsOutcome (c ∷ cs) r
  unfolding Delivers
  first-IsOutcome c cs r (inl failing) = inl failing
  first-IsOutcome c cs r (inr (result, inl here, kept)) = inr (result, inl here, kept)
  first-IsOutcome c cs r (inr (result, inr nowhere, kept)) = absurd nowhere

  run_loop-IsOutcome :
      (e : ProtocolExecution lib) (choices : List (Choice lib))
      (r : ProtocolExecution lib × (TerminalState × Option Error))
      → IsPending e
      → run_loop e choices ≡ some r
      → IsOutcome choices r
  unfolding StepOf
  run_loop-IsOutcome e [] r h q = absurd (unfold run_loop in cc)
  run_loop-IsOutcome e (c ∷ cs) r h q = elim (run_step-StepOf e c h) [
    | inl (more, pending) ↦
        later-IsOutcome c cs r
          (run_loop-IsOutcome (run_step e c).0 cs r pending (sym (run_loop-none e c cs more) ∙ q))
    | inr (v, stop, out) ↦ first-IsOutcome c cs r (
        subst
          (λ w.
            IsFailure w
            ⊎ ((result : ProtocolResult lib) × Delivers result (c ∷ []) × IsSuccess result w))
          (some-cancel (sym (run_loop-some e c cs v stop) ∙ q)) out)
  ]

  -- A run that has no result yet and that returns has either an error, a state other than
  -- success, and no result; or no error, the state success, and the result of an event that came
  -- while the context lived and that no worker's error followed.
  pub run-IsOutcome :
      (e : ProtocolExecution lib) (now : ℕ) (choices : List (Choice lib))
      (r : ProtocolExecution lib × (TerminalState × Option Error))
      → IsPending e
      → run e now choices ≡ some r
      → IsOutcome choices r
  unfolding run mark_progress
  run-IsOutcome e now choices r h q =
      run_loop-IsOutcome (mark_progress e now (codes "start") 0) choices r h q

  -- The choices after which the loop has no further round: all but a frame.
  abbrev pub ends : Choice lib → Bool
  ends (event (inbound_frame f) ctx_err now g) = false
  ends c = true

  abbrev pub some_ends : List (Choice lib) → Bool
  some_ends [] = false
  some_ends (c ∷ cs) = ends c || some_ends cs

  handle_recv_error-ends :
      (e : ProtocolExecution lib) (o : Option Error) → (handle_recv_error e o).1.0 ≡ true
  unfolding handle_recv_error
  handle_recv_error-ends e none = refl
  handle_recv_error-ends e (some x) = ground arith

  stopped :
      (g : Option Error) (r : ProtocolExecution lib × (Bool × (TerminalState × Option Error)))
      → r.1.0 ≡ true
      → (v : TerminalState × Option Error) × ((after_event g r).1 ≡ some v)
  stopped g (e, (done, v)) h = rw h (_, refl)

  run_step-ends :
      (e : ProtocolExecution lib) (c : Choice lib)
      → ends c ≡ true
      → (v : TerminalState × Option Error) × ((run_step e c).1 ≡ some v)
  unfolding run_step handle_event
  run_step-ends e (ctx_done x) h = (_, refl)
  run_step-ends e (workers_done o) h = (_, refl)
  run_step-ends e (event (inbound_frame f) ctx_err now g) h = absurd (cc)
  run_step-ends e (event (recv_error o) ctx_err now g) h =
      stopped g (handle_recv_error e o) (handle_recv_error-ends e o)
  run_step-ends e (event (protocol_done result) none now g) h = (_, refl)
  run_step-ends e (event (protocol_done result) (some x) now g) h = (_, refl)
  run_step-ends e (event (unknown_event typ) ctx_err now g) h = (_, refl)

  run_loop-returns :
      (e : ProtocolExecution lib) (choices : List (Choice lib))
      → some_ends choices ≡ true
      → (r : ProtocolExecution lib × (TerminalState × Option Error)) × (run_loop e choices ≡ some r)
  run_loop-returns e [] h = absurd (cc)
  run_loop-returns e (c ∷ cs) h = elim (Option-cases (run_step e c).1) [
    | inr (v, stop) ↦ (((run_step e c).0, v), run_loop-some e c cs v stop)
    | inl more ↦ elim (Bool-cases (ends c)) [
      | inl last ↦ absurd (let (v, stop) = run_step-ends e c last in cc)
      | inr other ↦
          let (r, q) =
            run_loop-returns (run_step e c).0 cs (rw⁻¹ (ap (λ b. b || some_ends cs) other) h) in
          (r, run_loop-none e c cs more ∙ q)
    ]
  ]

  -- A run returns once the scheduler takes anything but a frame.
  pub run-returns :
      (e : ProtocolExecution lib) (now : ℕ) (choices : List (Choice lib))
      → some_ends choices ≡ true
      → (r : ProtocolExecution lib × (TerminalState × Option Error)) × (run e now choices ≡ some r)
  unfolding run
  run-returns e now choices h = run_loop-returns (mark_progress e now (codes "start") 0) choices h
