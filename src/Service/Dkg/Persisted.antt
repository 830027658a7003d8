-- ===== src/Service/Dkg/Persisted.antt =====
-- What a session of the key generation that succeeds has stored (internal/tss/service).
use brosettlement_mpc_core.Base.{
  ◌≡◌, refl, sym, ap, subst, ◌∙◌, Bool, true, false, not, ◌&&◌, Option, none, some, Bytes,
  if◌then◌else◌, Result, ok, err,
}
use brosettlement_mpc_core.Execution.Errors.{Error}
use brosettlement_mpc_core.Flow.{TssLib}
use brosettlement_mpc_core.Runner.{DkgJob}
use brosettlement_mpc_core.Service.Errors.{ServiceError, share_writer_required, duplicate_dkg_run}
use brosettlement_mpc_core.Service.Runs.{begin_dkg_run}
use brosettlement_mpc_core.Service.Sign.{is_ecdsa}
use brosettlement_mpc_core.Service.Dkg.{
  DkgInput, DkgOutput, NormalizedDkgMaterial, run_key, resolve_dkg_output_key_id,
  normalize_dkg_material,
}
use brosettlement_mpc_core.Service.Dkg.Session.{
  State, plain_error, chain, Parts, with_pre_params, run_protocol, store_ecdsa, key_id_only,
  dkg_steps, ended, run_dkg_session_from,
}
use brosettlement_mpc_core.Service.Dkg.Ended.{with_pre_params-source}
use brosettlement_mpc_core.Service.Dkg.Stored.{IsStored, store_ecdsa-IsStored}

-- A session that succeeds is past its guards.
past_guards :
    {S A : Type 0} (ecdsa no_writer begins : Bool) (s : S) (r : S × Result ServiceError A) (s' : S)
    (a : A)
    → (if ecdsa && no_writer
        then (s, err share_writer_required)
        else if not begins
        then (s, err duplicate_dkg_run)
        else r)
      ≡ (s', ok a)
    → r ≡ (s', ok a)
past_guards true true begins s r s' a h = absurd (let e = ap (λ v. v.1) h in cc)
past_guards true false true s r s' a h = h
past_guards true false false s r s' a h = absurd (let e = ap (λ v. v.1) h in cc)
past_guards false no_writer true s r s' a h = h
past_guards false no_writer false s r s' a h = absurd (let e = ap (λ v. v.1) h in cc)

module _ (tl : TssLib) {R W P : Type 0} (svc : Parts tl R W P) where
  -- The protocol ran on some job, and left a runner from which the share was stored.
  abbrev pub IsPersisted : State R W P → DkgInput → DkgOutput → State R W P → Type 0
  IsPersisted s input output s' =
      (mid : State R W P) × ((job : DkgJob tl) × ((material : NormalizedDkgMaterial) × ((mid.writer
              ≡ s.writer)
            × ((svc.runner.run_dkg s.runner job ≡ (mid.runner, none))
                × ((resolve_dkg_output_key_id tl.wide input ≡ ok output.key_id)
                    × ((normalize_dkg_material tl.wide input ≡ ok material)
                        × IsStored tl svc mid input material output s'))))))

  module _ (s : State R W P) (input : DkgInput) (s' : State R W P) (output : DkgOutput)
      (ecdsa : is_ecdsa tl.wide input.algorithm ≡ true) where
    -- The rest of a session, from each step on.
    abbrev finish :
        Bytes → NormalizedDkgMaterial → State R W P → State R W P × Result ServiceError DkgOutput
    finish key_id material s4 =
        if not (is_ecdsa tl.wide input.algorithm)
        then (s4, ok (key_id_only svc key_id))
        else store_ecdsa svc s4 input key_id material

    ran :
        (s3 : State R W P) (job : DkgJob tl) (key_id : Bytes) (material : NormalizedDkgMaterial)
        (r : R × Option Error)
        → s3.writer ≡ s.writer
        → s3.runner ≡ s.runner
        → svc.runner.run_dkg s3.runner job ≡ r
        → resolve_dkg_output_key_id tl.wide input ≡ ok key_id
        → normalize_dkg_material tl.wide input ≡ ok material
        → chain (record s3 { runner = r.0 }, plain_error r.1) (λ s4 u. finish key_id material s4)
          ≡ (s', ok output)
        → IsPersisted s input output s'
    ran s3 job key_id material (runner', some x) writer runner run key normal h =
        absurd (let e = ap (λ v. v.1) h in cc)
    ran s3 job key_id material (runner', none) writer runner run key normal h =
        let stores : store_ecdsa svc (record s3 { runner = runner' }) input key_id material
            ≡ (s', ok output) =
          rw ecdsa at h in
        let (same, is_stored) =
          store_ecdsa-IsStored tl svc (record s3 { runner = runner' }) input key_id material s'
            output stores in
        (
          record s3 { runner = runner' },
          (
            job,
            (
              material,
              (
                writer,
                (
                  ap (λ x. svc.runner.run_dkg x job) (sym runner) ∙ run,
                  (key ∙ ap ok (sym same), (normal, is_stored)),
                ),
              ),
            ),
          ),
        )

    supplied_then :
        (supplied : Option (Option tl.PreParams)) (key_id : Bytes)
        (material : NormalizedDkgMaterial) (p : State R W P × Result ServiceError (DkgJob tl))
        → with_pre_params svc s input supplied ≡ p
        → resolve_dkg_output_key_id tl.wide input ≡ ok key_id
        → normalize_dkg_material tl.wide input ≡ ok material
        → chain p (λ s3 job. chain (run_protocol svc s3 job) (λ s4 u. finish key_id material s4))
          ≡ (s', ok output)
        → IsPersisted s input output s'
    unfolding run_protocol
    supplied_then supplied key_id material (s3, err x) gets key normal h =
        absurd (let e = ap (λ v. v.1) h in cc)
    supplied_then supplied key_id material (s3, ok job) gets key normal h =
        let (source, only) = with_pre_params-source tl svc s input supplied in
        let is : s3 ≡ record s { source = source } = sym (ap (λ v. v.0) gets) ∙ only in
        ran s3 job key_id material _ (ap (λ v. v.writer) is) (ap (λ v. v.runner) is) refl key normal
          h

    normalized_then :
        (supplied : Option (Option tl.PreParams)) (key_id : Bytes)
        (r : Result ServiceError NormalizedDkgMaterial)
        → normalize_dkg_material tl.wide input ≡ r
        → resolve_dkg_output_key_id tl.wide input ≡ ok key_id
        → chain
            (s, r)
            (λ s2 material.
              chain
                (with_pre_params svc s2 input supplied)
                (λ s3 job. chain (run_protocol svc s3 job) (λ s4 u. finish key_id material s4)))
          ≡ (s', ok output)
        → IsPersisted s input output s'
    normalized_then supplied key_id (err x) normal key h = absurd (let e = ap (λ v. v.1) h in cc)
    normalized_then supplied key_id (ok material) normal key h =
        supplied_then supplied key_id material _ refl key normal h

    dkg_steps-IsPersisted :
        (supplied : Option (Option tl.PreParams)) (r : Result ServiceError Bytes)
        → resolve_dkg_output_key_id tl.wide input ≡ r
        → chain
            (s, r)
            (λ s1 key_id.
              chain
                (s1, normalize_dkg_material tl.wide input)
                (λ s2 material.
                  chain (with_pre_params svc s2 input supplied) (λ s3 job.
                    chain (run_protocol svc s3 job) (λ s4 u. finish key_id material s4))))
          ≡ (s', ok output)
        → IsPersisted s input output s'
    dkg_steps-IsPersisted supplied (err x) key h = absurd (let e = ap (λ v. v.1) h in cc)
    dkg_steps-IsPersisted supplied (ok key_id) key h = normalized_then supplied key_id _ refl key h

  -- A session of an ECDSA key generation that succeeds: the protocol ran without an error and left
  -- a share, whose public key is the one that the session returns; the writer, as it stood before,
  -- took the encoded key material of that share, with the chain code of the input, under the key
  -- that the session returns, and without an error; and the share was then dropped from the runner.
  pub run_dkg_session-IsPersisted :
      (s : State R W P) (input : DkgInput) (supplied : Option (Option tl.PreParams))
      (s' : State R W P) (output : DkgOutput)
      → is_ecdsa tl.wide input.algorithm ≡ true
      → run_dkg_session_from svc s input supplied ≡ (s', ok output)
      → IsPersisted s input output s'
  unfolding run_dkg_session_from
  run_dkg_session-IsPersisted s input supplied s' output ecdsa h =
      begun (past_guards (is_ecdsa tl.wide input.algorithm) _ _ s _ s' output h)
    where
      start : State R W P
      start = record s { active_dkg_runs = (begin_dkg_run s.active_dkg_runs (run_key input)).0 }

      begun :
          ended svc (run_key input) (dkg_steps svc start input supplied) ≡ (s', ok output)
          → IsPersisted s input output s'
      begun q =
          let r = dkg_steps svc start input supplied in
          let done : r.1 ≡ ok output = ap (λ v. v.1) q in
          let steps : r ≡ (r.0, ok output) = ap (λ x. (r.0, x)) done in
          subst (IsPersisted s input output) (ap (λ v. v.0) q) (
            dkg_steps-IsPersisted start input r.0 output ecdsa supplied _ refl
              (unfold dkg_steps in steps))
