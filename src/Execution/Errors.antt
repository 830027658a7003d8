-- ===== src/Execution/Errors.antt =====
-- Errors as the chain of sentinels that `errors.Is` finds in them: a plain error has none,
-- `%w` keeps those of the error it wraps.
use brosettlement_mpc_core.Base.{ℕ, Bool, false, ◌||◌, List, [], ◌∷◌, ◌==◌}

-- internal/tssbnb/support/errors.go, the derivation mismatch, those of io and context, and those
-- that internal/tssbnb/flow/sign.go declares anew under the same names.
pub data Sentinel : Type 0 where
  unknown_sender_party : Sentinel
  duplicate_frame : Sentinel
  frame_too_large : Sentinel
  queue_full : Sentinel
  stalled_protocol : Sentinel
  key_share_not_found : Sentinel
  sign_digest_required : Sentinel
  sign_digest_mismatch : Sentinel
  sign_algorithm_unsupported : Sentinel
  derivation_context_mismatch : Sentinel
  eof : Sentinel
  unexpected_eof : Sentinel
  canceled : Sentinel
  deadline_exceeded : Sentinel
  flow_sign_digest_required : Sentinel
  flow_sign_digest_mismatch : Sentinel
  flow_sign_algorithm_unsupported : Sentinel
  key_derivation_delta_required : Sentinel

abbrev pub tag : Sentinel → ℕ
tag unknown_sender_party = 0
tag duplicate_frame = 1
tag frame_too_large = 2
tag queue_full = 3
tag stalled_protocol = 4
tag key_share_not_found = 5
tag sign_digest_required = 6
tag sign_digest_mismatch = 7
tag sign_algorithm_unsupported = 8
tag derivation_context_mismatch = 9
tag eof = 10
tag unexpected_eof = 11
tag canceled = 12
tag deadline_exceeded = 13
tag flow_sign_digest_required = 14
tag flow_sign_digest_mismatch = 15
tag flow_sign_algorithm_unsupported = 16
tag key_derivation_delta_required = 17

abbrev pub Error : Type 0
Error = List Sentinel

-- `errors.Is(e, s)`
abbrev pub errors_is : Error → Sentinel → Bool
errors_is [] s = false
errors_is (x ∷ e) s = (tag x == tag s) || errors_is e s
