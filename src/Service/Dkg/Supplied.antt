-- ===== src/Service/Dkg/Supplied.antt =====
-- Key generations with pre-parameters that were acquired before (internal/tss/service/service.go):
-- the handles that a service gives, and the session that consumes one.
use brosettlement_mpc_core.Base.{ℕ, Option, none, some, Result, ok, err}
use brosettlement_mpc_core.Execution.Errors.{Error}
use brosettlement_mpc_core.Flow.{TssLib}
use brosettlement_mpc_core.Preparams.Handle.{
  Handle, HandleError, invalid_handle, Store, new_handle, consume,
}
use brosettlement_mpc_core.Service.Errors.{
  ServiceError, source_unavailable, handle_error, other_error,
}
use brosettlement_mpc_core.Service.Dkg.{DkgInput, DkgOutput, PreParamsSource}
use brosettlement_mpc_core.Service.Dkg.Session.{State, Parts, run_dkg_session_from}

module _ {tl : TssLib} {R W P : Type 0} (svc : Parts tl R W P) where
  abbrev pub handle_or_invalid :
      Option (Handle tl.PreParams) → Result ServiceError (Handle tl.PreParams)
  handle_or_invalid none = err (handle_error invalid_handle)
  handle_or_invalid (some handle) = ok handle

  abbrev pub handle_of :
      ℕ
      → State R W P
      → P × Result Error tl.PreParams
      → State R W P × Result ServiceError (Handle tl.PreParams)
  handle_of binding s (source, err x) = (record s { source = source }, err (other_error x))
  handle_of binding s (source, ok material) =
      (record s { source = source }, handle_or_invalid (new_handle (some binding) (some material)))

  abbrev pub acquire_from :
      ℕ
      → State R W P
      → Option (PreParamsSource P tl.PreParams)
      → State R W P × Result ServiceError (Handle tl.PreParams)
  acquire_from binding s none = (s, err source_unavailable)
  acquire_from binding s (some source) = handle_of binding s (source.acquire s.source)

  abbrev pub try_or_acquire :
      PreParamsSource P tl.PreParams
      → Option (P → P × Result Error tl.PreParams)
      → P
      → P × Result Error tl.PreParams
  try_or_acquire source none p = source.acquire p
  try_or_acquire source (some try) p = try p

  abbrev pub try_acquire_from :
      ℕ
      → State R W P
      → Option (PreParamsSource P tl.PreParams)
      → State R W P × Result ServiceError (Handle tl.PreParams)
  try_acquire_from binding s none = (s, err source_unavailable)
  try_acquire_from binding s (some source) =
      handle_of binding s (try_or_acquire source source.try_acquire s.source)

  -- `binding` stands for the binding of the service.
  unfoldable pub acquire_dkg_pre_params :
      ℕ → State R W P → State R W P × Result ServiceError (Handle tl.PreParams)
  acquire_dkg_pre_params binding s = acquire_from binding s svc.pre_params_source

  unfoldable pub try_acquire_dkg_pre_params :
      ℕ → State R W P → State R W P × Result ServiceError (Handle tl.PreParams)
  try_acquire_dkg_pre_params binding s = try_acquire_from binding s svc.pre_params_source

  abbrev pub with_consumed :
      State R W P
      → DkgInput
      → Result HandleError tl.PreParams
      → State R W P × Result ServiceError DkgOutput
  with_consumed s input (err x) = (s, err (handle_error x))
  with_consumed s input (ok material) = run_dkg_session_from svc s input (some (some material))

  -- The handle and the counters after it, with what the session leaves.
  unfoldable pub run_dkg_session_with_pre_params :
      ℕ
      → State R W P
      → DkgInput
      → Handle tl.PreParams
      → Store
      → (Handle tl.PreParams × Store) × (State R W P × Result ServiceError DkgOutput)
  run_dkg_session_with_pre_params binding s input handle store =
      let r = consume (some binding) handle store in (r.0, with_consumed s input r.1)
