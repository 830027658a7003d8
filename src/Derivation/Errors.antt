-- ===== src/Derivation/Errors.antt =====
-- internal/tss/derivation/errors.go: the sentinel that an error wraps; the message is left out.
pub data Error : Type 0 where
  context_required invalid_context unsupported_scheme path_invalid context_mismatch : Error
  chain_code_missing chain_code_invalid derived_signing_unsupported : Error
  unsupported_algorithm_curve : Error
