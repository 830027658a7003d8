-- ===== src/Execution/Watchdog/Stall.antt =====
-- Progress and the watchdog.
use brosettlement_mpc_core.Base.{
  ℕ, ◌+◌, ◌-◌, ◌≤◌, ◌<◌, ◌≡◌, ◌⊎◌, refl, inl, inr, ap, subst, sym, ◌∙◌, ◌++◌, true, false, none,
  some, List, [], ◌∷◌, Bytes, leb, All, Bool-cases, arith,
}
use brosettlement_mpc_core.Execution.Errors.{stalled_protocol}
use brosettlement_mpc_core.Execution.State.{Library, ProtocolExecution, mark_progress}
use brosettlement_mpc_core.Execution.Watchdog.{
  warn_stall, warn_if_idle, watchdog_tick, run_watchdog,
}

module _ {lib : Library} where
  -- A tick that is not a stall leaves the time of the last progress and the settings.
  record IsSameClock (e e' : ProtocolExecution lib) : Type 0 where
    progress : e'.last_progress_nanos ≡ e.last_progress_nanos
    limit : e'.cfg.stall_fail ≡ e.cfg.stall_fail

  warn_if_idle-IsSameClock :
      (e : ProtocolExecution lib) (now : ℕ) → IsSameClock e (warn_if_idle e now)
  unfolding warn_if_idle warn_stall
  warn_if_idle-IsSameClock e now =
      elim (Bool-cases (leb e.cfg.stall_warn (now - e.last_progress_nanos))) [
        | inr busy ↦ rw busy (record { progress = refl; limit = refl })
        | inl idle ↦ elim (Bool-cases (leb e.cfg.stall_warn_every (now - e.last_warn_nanos))) [
          | inl due ↦ rw (idle, due) (record { progress = refl; limit = refl })
          | inr early ↦ rw (idle, early) (record { progress = refl; limit = refl })
        ]
      ]

  tick_early :
      (e : ProtocolExecution lib) (now : ℕ)
      → 1 ≤ e.cfg.stall_fail
      → now < e.last_progress_nanos + e.cfg.stall_fail
      → watchdog_tick e now ≡ (warn_if_idle e now, none)
  unfolding watchdog_tick
  tick_early e now positive h =
      let early : leb e.cfg.stall_fail (now - e.last_progress_nanos) ≡ false = ground arith in
      rw early refl

  tick_late :
      (e : ProtocolExecution lib) (now : ℕ)
      → e.last_progress_nanos + e.cfg.stall_fail ≤ now
      → (watchdog_tick e now).1 ≡ some (stalled_protocol ∷ [])
  unfolding watchdog_tick
  tick_late e now h =
      let late : leb e.cfg.stall_fail (now - e.last_progress_nanos) ≡ true = ground arith in
      rw late refl

  run_watchdog-early :
      (e : ProtocolExecution lib) (now : ℕ) (ticks : List ℕ)
      → watchdog_tick e now ≡ (warn_if_idle e now, none)
      → run_watchdog e (now ∷ ticks) ≡ run_watchdog (warn_if_idle e now) ticks
  unfolding run_watchdog
  run_watchdog-early e now ticks h = rw (h, run_watchdog) (ap (λ r. run_watchdog r.0 ticks) h)

  alive :
      (e : ProtocolExecution lib) (ticks : List ℕ)
      → 1 ≤ e.cfg.stall_fail
      → All (λ now. now < e.last_progress_nanos + e.cfg.stall_fail) ticks
      → (run_watchdog e ticks).1 ≡ none
  alive e [] positive h = unfold run_watchdog in refl
  alive e (now ∷ ticks) positive (soon, h) =
      let clock = warn_if_idle-IsSameClock e now in
      ap (λ r. r.1) (run_watchdog-early e now ticks (tick_early e now positive soon))
      ∙ alive (warn_if_idle e now) ticks (subst (λ n. 1 ≤ n) (sym clock.limit) positive) (
          subst (λ n. All (λ t. t < n) ticks)
            (sym (
              ap (λ n. n + (warn_if_idle e now).cfg.stall_fail) clock.progress
              ∙ ap (λ n. e.last_progress_nanos + n) clock.limit))
            h)

  -- After progress at a time, no tick before the stall limit has passed fails the run.
  pub run_watchdog-mark_progress :
      (e : ProtocolExecution lib) (start : ℕ) (msg_type : Bytes) (hint : ℕ) (ticks : List ℕ)
      → 1 ≤ e.cfg.stall_fail
      → All (λ now. now < start + e.cfg.stall_fail) ticks
      → (run_watchdog (mark_progress e start msg_type hint) ticks).1 ≡ none
  unfolding mark_progress
  run_watchdog-mark_progress e start msg_type hint ticks positive h =
      alive (mark_progress e start msg_type hint) ticks positive h

  tick-cases :
      (e : ProtocolExecution lib) (now : ℕ)
      → ((watchdog_tick e now).1 ≡ some (stalled_protocol ∷ []))
        ⊎ (watchdog_tick e now ≡ (warn_if_idle e now, none))
  unfolding watchdog_tick
  tick-cases e now = elim (Bool-cases (leb e.cfg.stall_fail (now - e.last_progress_nanos))) [
    | inl late ↦ inl (rw late refl)
    | inr early ↦ inr (rw early refl)
  ]

  run_watchdog-stalled :
      (e : ProtocolExecution lib) (now : ℕ) (ticks : List ℕ)
      → (watchdog_tick e now).1 ≡ some (stalled_protocol ∷ [])
      → (run_watchdog e (now ∷ ticks)).1 ≡ some (stalled_protocol ∷ [])
  unfolding run_watchdog
  run_watchdog-stalled e now ticks h = rw (h, run_watchdog) refl

  -- A tick at which the stall limit has passed since the last progress fails the run with
  -- `ErrStalledProtocol`, if no tick before it did.
  pub run_watchdog_late :
      (e : ProtocolExecution lib) (ticks : List ℕ) (now : ℕ) (later : List ℕ)
      → e.last_progress_nanos + e.cfg.stall_fail ≤ now
      → (run_watchdog e (ticks ++ now ∷ later)).1 ≡ some (stalled_protocol ∷ [])
  run_watchdog_late e [] now later h = run_watchdog-stalled e now later (tick_late e now h)
  run_watchdog_late e (tick ∷ ticks) now later h = elim (tick-cases e tick) [
    | inl failing ↦ run_watchdog-stalled e tick (ticks ++ now ∷ later) failing
    | inr going ↦
        let clock = warn_if_idle-IsSameClock e tick in
        ap (λ r. r.1) (run_watchdog-early e tick (ticks ++ now ∷ later) going)
        ∙ run_watchdog_late (warn_if_idle e tick) ticks now later
            (omega (arith, h, clock.progress, clock.limit))
  ]
