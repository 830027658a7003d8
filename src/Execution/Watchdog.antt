-- ===== src/Execution/Watchdog.antt =====
-- internal/tssbnb/execution/watchdog.go: one tick of the watchdog, at the clock `now`.
-- `time.Unix(0, 0)` is no zero `time.Time`, so the two `IsZero` tests of the code are false.
-- A clock that goes back counts as no time passed; the limits are positive, or 0 for a negative one.
pub mod Stall
use brosettlement_mpc_core.Base.{
  ℕ, suc, ◌+◌, ◌-◌, ◌≤◌, ◌<◌, ◌≡◌, refl, inl, inr, Bool, true, false, not, ◌||◌, Option, none, some,
  List, [], ◌∷◌, Bytes, leb, if◌then◌else◌, Bool-cases, arith,
}
use brosettlement_mpc_core.Execution.Errors.{Error, stalled_protocol}
use brosettlement_mpc_core.Execution.State.{
  Library, ProtocolExecution, counted, stalls, mark_progress,
}

-- `time.Time.IsZero` of a Unix time
abbrev pub is_zero : ℕ → Bool
is_zero nanos = false

module _ {lib : Library} where
  unfoldable pub warn_stall : ProtocolExecution lib → ℕ → ProtocolExecution lib
  warn_stall e now =
      if is_zero e.last_warn_nanos || leb e.cfg.stall_warn_every (now - e.last_warn_nanos)
      then record e { last_warn_nanos = now }
      else e

  unfoldable pub warn_if_idle : ProtocolExecution lib → ℕ → ProtocolExecution lib
  unfolding warn_stall
  warn_if_idle e now =
      if leb e.cfg.stall_warn (now - e.last_progress_nanos) then warn_stall e now else e

  unfoldable pub watchdog_tick : ProtocolExecution lib → ℕ → ProtocolExecution lib × Option Error
  unfolding warn_if_idle
  watchdog_tick e now =
      if is_zero e.last_progress_nanos
      then (e, none)
      else if leb e.cfg.stall_fail (now - e.last_progress_nanos)
      then (counted stalls (warn_if_idle e now), some (stalled_protocol ∷ []))
      else (warn_if_idle e now, none)

  -- The watchdog ticks at the given times until it fails.
  unfoldable pub run_watchdog :
      ProtocolExecution lib → List ℕ → ProtocolExecution lib × Option Error
  unfolding watchdog_tick
  run_watchdog e [] = (e, none)
  run_watchdog e (now ∷ ticks) =
      let r = watchdog_tick e now in
      elim r.1 [ some x ↦ (r.0, some x) | none ↦ run_watchdog r.0 ticks ]
