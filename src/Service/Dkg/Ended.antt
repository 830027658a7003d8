-- ===== src/Service/Dkg/Ended.antt =====
-- The table of runs after a session (internal/tss/service/service.go).
use brosettlement_mpc_core.Base.{
  ◌≡◌, refl, sym, ap, subst, ◌∙◌, inl, inr, Bool, true, false, not, ◌&&◌, Option, none, some, List,
  ◌∷◌, Bytes, ◌⊎◌, if◌then◌else◌, Result, ok, err, Bool-cases,
}
use brosettlement_mpc_core.Execution.Errors.{Error}
use brosettlement_mpc_core.Flow.{TssLib}
use brosettlement_mpc_core.Shares.{CodecError, marshal_key_material}
use brosettlement_mpc_core.Service.Errors.{ServiceError, duplicate_dkg_run, share_writer_required}
use brosettlement_mpc_core.Service.Runs.{
  RunKey, begin_dkg_run, end_dkg_run, is_active, same_key, end_dkg_run-is_active, other_kept,
  same_key_iff,
}
use brosettlement_mpc_core.Service.Sign.{is_ecdsa}
use brosettlement_mpc_core.Service.Dkg.{
  DkgInput, NormalizedDkgMaterial, ShareWriter, PreParamsSource, build_dkg_job, run_key,
  resolve_dkg_output_key_id, normalize_dkg_material, dkg_key_material, save_input,
}
use brosettlement_mpc_core.Service.Dkg.Session.{
  State, chain, Parts, acquired, attach_from, attach_pre_params, with_pre_params,
  supplied_or_attached, run_protocol, build_ecdsa_dkg_output, saved, save_blob,
  persist_ecdsa_share_after_dkg, store_ecdsa, key_id_only, dkg_steps, run_dkg_session_from,
}

-- A step keeps a part of the state, whatever it returns.
chain-keeps :
    {S : Type 0} {A B T : Type 0} (part : S → T) (r : S × Result ServiceError A)
    (next : S → A → S × Result ServiceError B)
    → ((s : S) (a : A) → part (next s a).0 ≡ part s)
    → part (chain r next).0 ≡ part r.0
chain-keeps part (s, err x) next h = refl
chain-keeps part (s, ok a) next h = h s a

module _ (tl : TssLib) {R W P : Type 0} (svc : Parts tl R W P) where
  abbrev runs : State R W P → List RunKey
  runs s = s.active_dkg_runs

  -- Acquiring pre-parameters changes the state of their source, and no more.
  pub with_pre_params-source :
      (s : State R W P) (input : DkgInput) (supplied : Option (Option tl.PreParams))
      → (source : P) × ((with_pre_params svc s input supplied).0 ≡ record s { source = source })
  unfolding with_pre_params
  with_pre_params-source s input supplied = elim (Bool-cases (is_ecdsa tl.wide input.algorithm)) [
    | inr other ↦ rw other (s.source, refl)
    | inl ecdsa ↦ rw ecdsa (given supplied)
  ]
    where
      got :
          (r : P × Result Error tl.PreParams)
          → (source : P) × ((acquired svc s (build_dkg_job tl input) r).0
              ≡ record s { source = source })
      got (source, err x) = (source, refl)
      got (source, ok pre) = (source, refl)

      from :
          (o : Option (PreParamsSource P tl.PreParams))
          → (source : P) × ((attach_from svc s (build_dkg_job tl input) o).0
              ≡ record s { source = source })
      from none = (s.source, refl)
      from (some source) = got (source.acquire s.source)

      given :
          (o : Option (Option tl.PreParams))
          → (source : P) × ((supplied_or_attached svc s (build_dkg_job tl input) o).0
              ≡ record s { source = source })
      given (some pre) = (s.source, refl)
      given none = unfold attach_pre_params in from svc.pre_params_source

  persist-runs :
      (s : State R W P) (input : DkgInput) (key_id : Bytes) (o : Option (ShareWriter W))
      (b : Result CodecError Bytes)
      → runs (save_blob svc s input key_id o b).0 ≡ runs s
  persist-runs s input key_id none b = refl
  persist-runs s input key_id (some w) (err x) = refl
  persist-runs s input key_id (some w) (ok blob) =
      written (w.save_share s.writer (save_input tl input key_id blob))
    where
      written : (r : W × Option Error) → runs (saved svc s (run_key input) r).0 ≡ runs s
      written (writer, some x) = refl
      written (writer, none) = refl

  store_ecdsa-runs :
      (s : State R W P) (input : DkgInput) (key_id : Bytes) (material : NormalizedDkgMaterial)
      → runs (store_ecdsa svc s input key_id material).0 ≡ runs s
  unfolding store_ecdsa
  store_ecdsa-runs s input key_id material =
      chain-keeps runs (s, build_ecdsa_dkg_output svc s input key_id material) _
        (λ s1 built.
          chain-keeps runs (persist_ecdsa_share_after_dkg svc s1 input key_id material built.1) _
            (λ s2 u. refl)
          ∙ unfold persist_ecdsa_share_after_dkg in
            persist-runs s1 input key_id svc.share_writer
              (marshal_key_material svc.gob (dkg_key_material tl material built.1)))

  dkg_steps-runs :
      (s : State R W P) (input : DkgInput) (supplied : Option (Option tl.PreParams))
      → runs (dkg_steps svc s input supplied).0 ≡ runs s
  unfolding dkg_steps
  dkg_steps-runs s input supplied =
      chain-keeps runs (s, resolve_dkg_output_key_id tl.wide input) _
        (λ s1 key_id.
          chain-keeps runs (s1, normalize_dkg_material tl.wide input) _
            (λ s2 material.
              chain-keeps runs (with_pre_params svc s2 input supplied) _ (λ s3 job.
                chain-keeps runs (run_protocol svc s3 job) _ (λ s4 u. last s4 key_id material)
                ∙ unfold run_protocol in refl)
              ∙ ap runs (with_pre_params-source s2 input supplied).1))
    where
      last :
          (s4 : State R W P) (key_id : Bytes) (material : NormalizedDkgMaterial)
          → runs
              (if not (is_ecdsa tl.wide input.algorithm)
                then (s4, ok (key_id_only svc key_id))
                else store_ecdsa svc s4 input key_id material).0
            ≡ runs s4
      last s4 key_id material = elim (Bool-cases (is_ecdsa tl.wide input.algorithm)) [
        | inl ecdsa ↦ rw ecdsa (store_ecdsa-runs s4 input key_id material)
        | inr other ↦ rw other refl
      ]

  begin_dkg_run-new :
      (active : List RunKey) (key : RunKey)
      → is_active key active ≡ false
      → begin_dkg_run active key ≡ (key ∷ active, true)
  unfolding begin_dkg_run
  begin_dkg_run-new active key h = rw h refl

  begin_dkg_run-old :
      (active : List RunKey) (key : RunKey)
      → is_active key active ≡ true
      → begin_dkg_run active key ≡ (active, false)
  unfolding begin_dkg_run
  begin_dkg_run-old active key h = rw h refl

  begun_and_ended :
      (active : List RunKey) (key q : RunKey)
      → is_active key active ≡ false
      → is_active q (end_dkg_run (key ∷ active) key) ≡ is_active q active
  begun_and_ended active key q fresh = elim (Bool-cases (same_key key q)) [
    | inl same ↦
        let is : key ≡ q = same_key_iff key q same in
        subst (λ k. is_active k (end_dkg_run (key ∷ active) key) ≡ is_active k active) is
          (end_dkg_run-is_active (key ∷ active) key ∙ sym fresh)
    | inr differ ↦ other_kept (key ∷ active) key q differ ∙ rw differ refl
  ]

  -- A session is refused and changes nothing, for want of a share writer or because its key runs
  -- already; or its key did not run, and after it, with or without an error, the table of runs has
  -- the same keys as before.
  pub run_dkg_session-IsEnded :
      (s : State R W P) (input : DkgInput) (supplied : Option (Option tl.PreParams))
      → ((run_dkg_session_from svc s input supplied ≡ (s, err share_writer_required))
          ⊎ ((is_active (run_key input) s.active_dkg_runs ≡ true)
              × (run_dkg_session_from svc s input supplied ≡ (s, err duplicate_dkg_run))))
        ⊎ ((is_active (run_key input) s.active_dkg_runs ≡ false)
            × ((q : RunKey)
                → is_active q (run_dkg_session_from svc s input supplied).0.active_dkg_runs
                  ≡ is_active q s.active_dkg_runs))
  unfolding run_dkg_session_from
  run_dkg_session-IsEnded s input supplied =
      elim (Bool-cases (is_ecdsa tl.wide input.algorithm && no_writer)) [
        | inl missing ↦ inl (inl (rw missing refl))
        | inr served ↦ elim (Bool-cases (is_active (run_key input) s.active_dkg_runs)) [
          | inl runs_already ↦ inl (
              inr (
                runs_already,
                rw (served, begin_dkg_run-old s.active_dkg_runs (run_key input) runs_already) refl,
              ))
          | inr fresh ↦ inr (
            fresh,
            λ q.
                rw (served, begin_dkg_run-new s.active_dkg_runs (run_key input) fresh)
                  (after q fresh),
          )
        ]
      ]
    where
      no_writer : Bool
      no_writer = elim svc.share_writer [ none ↦ true | some w ↦ false ]

      begun : State R W P
      begun = record s { active_dkg_runs = run_key input ∷ s.active_dkg_runs }

      after :
          (q : RunKey)
          → is_active (run_key input) s.active_dkg_runs ≡ false
          → is_active q (end_dkg_run (runs (dkg_steps svc begun input supplied).0) (run_key input))
            ≡ is_active q s.active_dkg_runs
      after q fresh =
          ap (λ rs. is_active q (end_dkg_run rs (run_key input)))
            (dkg_steps-runs begun input supplied)
          ∙ begun_and_ended s.active_dkg_runs (run_key input) q fresh
