-- ===== src/Service/Errors.antt =====
-- The errors of the services: internal/tss/service/types.go, those that tss/service.go hands to
-- them, and the errors of the components that they call.
use brosettlement_mpc_core.Derivation.Errors as derivation
use brosettlement_mpc_core.Execution.Errors as execution
use brosettlement_mpc_core.Preparams.Handle.{HandleError}
use brosettlement_mpc_core.Requests.{RequestError}
use brosettlement_mpc_core.Shares.{CodecError}

pub data ServiceError : Type 0 where
  duplicate_dkg_run : ServiceError
  share_reader_required : ServiceError
  share_writer_required : ServiceError
  key_id_required : ServiceError
  share_not_found : ServiceError
  missing_dkg_public_key : ServiceError
  source_unavailable : ServiceError
  request_error : RequestError → ServiceError
  derivation_error : derivation.Error → ServiceError
  codec_error : CodecError → ServiceError
  handle_error : HandleError → ServiceError
  -- of the runner, the share store, or the source of pre-parameters
  other_error : execution.Error → ServiceError
