-- ===== src/Service/Dkg/Session.antt =====
-- `runDKGSession` of internal/tss/service/service.go, and the steps that it takes in dkg.go,
-- preparams.go and internal/tss/runtime/share_runtime.go.
use brosettlement_mpc_core.Base.{
  true, false, not, ◌&&◌, Option, none, some, List, [], Bytes, if◌then◌else◌, Result, ok, err,
}
use brosettlement_mpc_core.Derivation.Ecdsa.{Ckd}
use brosettlement_mpc_core.Execution.Errors.{Error}
use brosettlement_mpc_core.Flow.{TssLib}
use brosettlement_mpc_core.Runner.{DkgJob}
use brosettlement_mpc_core.Shares.{CodecError, Gob, marshal_key_material}
use brosettlement_mpc_core.Service.Errors.{
  ServiceError, duplicate_dkg_run, share_writer_required, codec_error, other_error,
}
use brosettlement_mpc_core.Service.Runs.{RunKey, begin_dkg_run, end_dkg_run}
use brosettlement_mpc_core.Service.Sign.{is_ecdsa}
use brosettlement_mpc_core.Service.Dkg.{
  DkgInput, DkgOutput, NormalizedDkgMaterial, ShareWriter, PreParamsSource, DkgRunner,
  build_dkg_job, run_key, resolve_dkg_output_key_id, normalize_dkg_material, exported,
  dkg_key_material, save_input,
}

-- What a service changes: its table of runs, and the states behind its interfaces.
pub record State (R W P : Type 0) : Type 0 where
  pub active_dkg_runs : List RunKey
  pub runner : R
  pub writer : W
  pub source : P

abbrev pub plain_error : Option Error → Result ServiceError (Unit {0})
plain_error none = ok tt
plain_error (some x) = err (other_error x)

-- `if err != nil { return err }` between steps that change the state.
abbrev pub chain {ℓ κ} :
    {S : Type 0} {A : Type ℓ} {B : Type κ}
    → S × Result ServiceError A
    → (S → A → S × Result ServiceError B)
    → S × Result ServiceError B
chain (s, err x) next = (s, err x)
chain (s, ok a) next = next s a

-- What a service is made of: `none` is a writer or a source that is nil, and the source is the one
-- that `ResolvePreParamsSource` gives.
pub record Parts (tl : TssLib) (R W P : Type 0) : Type 0 where
  pub runner : DkgRunner tl R
  pub share_writer : Option (ShareWriter W)
  pub pre_params_source : Option (PreParamsSource P tl.PreParams)
  pub gob : Gob tl.library.KeyShare
  pub ckd : Ckd tl.library.KeyShare

module _ {tl : TssLib} {R W P : Type 0} (svc : Parts tl R W P) where
  abbrev pub acquired :
      State R W P
      → DkgJob tl
      → P × Result Error tl.PreParams
      → State R W P × Result ServiceError (DkgJob tl)
  acquired s job (source, err x) = (record s { source = source }, err (other_error x))
  acquired s job (source, ok pre) =
      (record s { source = source }, ok (record job { ecdsa_pre_params = some pre }))

  abbrev pub attach_from :
      State R W P
      → DkgJob tl
      → Option (PreParamsSource P tl.PreParams)
      → State R W P × Result ServiceError (DkgJob tl)
  attach_from s job none = (s, ok job)
  attach_from s job (some source) = acquired s job (source.acquire s.source)

  -- A job that has pre-parameters keeps them.
  unfoldable pub attach_pre_params :
      State R W P → DkgJob tl → State R W P × Result ServiceError (DkgJob tl)
  attach_pre_params s job = elim job.ecdsa_pre_params [
    | some pre ↦ (s, ok job)
    | none ↦ attach_from s job svc.pre_params_source
  ]

  abbrev pub supplied_or_attached :
      State R W P
      → DkgJob tl
      → Option (Option tl.PreParams)
      → State R W P × Result ServiceError (DkgJob tl)
  supplied_or_attached s job (some pre) = (s, ok (record job { ecdsa_pre_params = pre }))
  supplied_or_attached s job none = attach_pre_params s job

  -- The job of an ECDSA key generation gets pre-parameters, those that were supplied if any were.
  unfoldable pub with_pre_params :
      State R W P
      → DkgInput
      → Option (Option tl.PreParams)
      → State R W P × Result ServiceError (DkgJob tl)
  with_pre_params s input supplied =
      let job = build_dkg_job tl input in
      if not (is_ecdsa tl.wide input.algorithm)
      then (s, ok job)
      else supplied_or_attached s job supplied

  unfoldable pub run_protocol :
      State R W P → DkgJob tl → State R W P × Result ServiceError (Unit {0})
  run_protocol s job =
      let r = svc.runner.run_dkg s.runner job in (record s { runner = r.0 }, plain_error r.1)

  unfoldable pub build_ecdsa_dkg_output :
      State R W P
      → DkgInput
      → Bytes
      → NormalizedDkgMaterial
      → Result ServiceError (DkgOutput × tl.library.KeyShare)
  build_ecdsa_dkg_output s input key_id material =
      exported tl svc.ckd input key_id material
        (svc.runner.export_temporary_ecdsa_dkg_share s.runner (run_key input))

  abbrev pub saved :
      State R W P → RunKey → W × Option Error → State R W P × Result ServiceError (Unit {0})
  saved s key (writer, some x) = (record s { writer = writer }, err (other_error x))
  saved s key (writer, none) = (
    record s { writer = writer; runner = svc.runner.delete_temporary_ecdsa_dkg_share s.runner key },
    ok tt,
  )

  abbrev pub save_blob :
      State R W P
      → DkgInput
      → Bytes
      → Option (ShareWriter W)
      → Result CodecError Bytes
      → State R W P × Result ServiceError (Unit {0})
  save_blob s input key_id none blob = (s, err share_writer_required)
  save_blob s input key_id (some w) (err x) = (s, err (codec_error x))
  save_blob s input key_id (some w) (ok blob) =
      saved s (run_key input) (w.save_share s.writer (save_input tl input key_id blob))

  unfoldable pub persist_ecdsa_share_after_dkg :
      State R W P
      → DkgInput
      → Bytes
      → NormalizedDkgMaterial
      → tl.library.KeyShare
      → State R W P × Result ServiceError (Unit {0})
  persist_ecdsa_share_after_dkg s input key_id material share =
      save_blob s input key_id svc.share_writer
        (marshal_key_material svc.gob (dkg_key_material tl material share))

  unfoldable pub store_ecdsa :
      State R W P
      → DkgInput
      → Bytes
      → NormalizedDkgMaterial
      → State R W P × Result ServiceError DkgOutput
  unfolding build_ecdsa_dkg_output persist_ecdsa_share_after_dkg
  store_ecdsa s input key_id material =
      chain (s, build_ecdsa_dkg_output s input key_id material)
        (λ s1 built.
          chain (persist_ecdsa_share_after_dkg s1 input key_id material built.1)
            (λ s2 u. (s2, ok built.0)))

  abbrev pub key_id_only : Bytes → DkgOutput
  key_id_only key_id = record {
    key_id = key_id;
    public_key = [];
    chain_code = [];
    public_key_format = [];
    derivation_scheme = [];
  }

  -- The steps after `beginDKGRun`.
  unfoldable pub dkg_steps :
      State R W P
      → DkgInput
      → Option (Option tl.PreParams)
      → State R W P × Result ServiceError DkgOutput
  unfolding with_pre_params run_protocol store_ecdsa
  dkg_steps s input supplied =
      chain (s, resolve_dkg_output_key_id tl.wide input)
        (λ s1 key_id.
          chain (s1, normalize_dkg_material tl.wide input)
            (λ s2 material. chain (with_pre_params s2 input supplied) (λ s3 job.
              chain (run_protocol s3 job) (λ s4 u.
                if not (is_ecdsa tl.wide input.algorithm)
                then (s4, ok (key_id_only key_id))
                else store_ecdsa s4 input key_id material))))

  abbrev pub ended :
      RunKey
      → State R W P × Result ServiceError DkgOutput
      → State R W P × Result ServiceError DkgOutput
  ended key (s, r) = (record s { active_dkg_runs = end_dkg_run s.active_dkg_runs key }, r)

  -- `supplied` is `some` in a session with supplied pre-parameters.
  unfoldable pub run_dkg_session_from :
      State R W P
      → DkgInput
      → Option (Option tl.PreParams)
      → State R W P × Result ServiceError DkgOutput
  unfolding dkg_steps
  run_dkg_session_from s input supplied =
      if is_ecdsa tl.wide input.algorithm && elim svc.share_writer [ none ↦ true | some w ↦ false ]
      then (s, err share_writer_required)
      else let begun = begin_dkg_run s.active_dkg_runs (run_key input) in
        if not begun.1
        then (s, err duplicate_dkg_run)
        else ended (run_key input)
            (dkg_steps (record s { active_dkg_runs = begun.0 }) input supplied)

  -- `RunDKGSession`
  abbrev pub run_dkg_session : State R W P → DkgInput → State R W P × Result ServiceError DkgOutput
  run_dkg_session s input = run_dkg_session_from s input none
