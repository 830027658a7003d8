-- ===== src/Runner/Refines.antt =====
-- What a sequence of calls makes of the runner's maps (internal/tssbnb/runner/bnb_runner.go).
use brosettlement_mpc_core.Base.{
  ℕ, ◌≡◌, refl, ◌∙◌, inl, inr, Option, none, some, List, [], ◌∷◌, Bytes, if◌then◌else◌, Bool-cases,
}
use mathlib.Core.Option
use brosettlement_mpc_core.RunnerConfig.{RunnerConfig}
use brosettlement_mpc_core.Execution.Errors.{Error}
use brosettlement_mpc_core.Execution.Run.{Choice}
use brosettlement_mpc_core.Flow.{TssLib, SignatureData, Outcome}
use brosettlement_mpc_core.Flow.Sign as sign_flow
use brosettlement_mpc_core.Flow.Dkg as dkg_flow
use brosettlement_mpc_core.Service.Runs.{RunKey}
use brosettlement_mpc_core.Runner.{
  DkgJob, SignJob, BnbRunner, delete_temporary_ecdsa_dkg_share, is_zero_ecdsa_share, finish_dkg,
  dkg_run_job, run_dkg, finish_sign, sign_run_job, run_sign,
}
use brosettlement_mpc_core.Runner.Store.{
  Store, view, put_share, signed, generated, on_signature-view, on_signature-cfg,
  on_ecdsa_key_share-view, delete_temporary_ecdsa_dkg_share-view,
}

module _ (tl : TssLib) where
  -- A call of the runner that changes its maps, with the choices of the scheduler in its run.
  pub data RunnerCall : Type 0 where
    sign_call : SignJob tl → Bytes → ℕ → List (Choice tl.library) → RunnerCall
    dkg_call : DkgJob tl → Bytes → ℕ → List (Choice tl.library) → RunnerCall
    delete_call : RunKey → RunnerCall

  abbrev pub returned : BnbRunner tl → Option (BnbRunner tl × Option Error) → BnbRunner tl
  returned r none = r
  returned r (some (r', x)) = r'

  unfoldable pub after_call : BnbRunner tl → RunnerCall → BnbRunner tl
  after_call r (sign_call job id now choices) = returned r (run_sign tl r job id now choices)
  after_call r (dkg_call job id now choices) = returned r (run_dkg tl r job id now choices)
  after_call r (delete_call key) = delete_temporary_ecdsa_dkg_share tl r key

  unfoldable pub after_calls : BnbRunner tl → List RunnerCall → BnbRunner tl
  unfolding after_call
  after_calls r [] = r
  after_calls r (c ∷ cs) = after_calls (after_call r c) cs

  abbrev pub delivered_by : {A : Type 0} → Option (Outcome A) → Option A
  delivered_by none = none
  delivered_by (some out) = out.delivered

  -- The same calls on the functions: they know nothing of the runner but its configuration.
  abbrev pub spec_call : RunnerConfig → Store tl → RunnerCall → Store tl
  spec_call cfg s (sign_call job id now choices) =
      if is_zero_ecdsa_share tl job.key_share
      then s
      else signed tl job
          (delivered_by
            (sign_flow.run_sign tl (sign_run_job tl job) job.key_share id cfg now choices))
          s
  spec_call cfg s (dkg_call job id now choices) =
      generated tl (job.session_id, job.local_party_id)
        (delivered_by (dkg_flow.run_dkg tl (dkg_run_job tl job) id cfg now choices)) s
  spec_call cfg s (delete_call key) = record s { shares = put_share tl key none s.shares }

  abbrev pub spec_calls : RunnerConfig → Store tl → List RunnerCall → Store tl
  spec_calls cfg s [] = s
  spec_calls cfg s (c ∷ cs) = spec_calls cfg (spec_call cfg s c) cs

  -- One call, on the runner and on the functions.
  IsStep : BnbRunner tl → BnbRunner tl → Store tl → Type 0
  IsStep r r' s = (view tl r' ≡ s) × (r'.cfg ≡ r.cfg)

  signed-IsStep :
      (r : BnbRunner tl) (job : SignJob tl) (o : Option (Outcome SignatureData))
      → IsStep r
          (returned r (Option.map (finish_sign tl r job) o))
          (signed tl job (delivered_by o) (view tl r))
  unfolding IsStep finish_sign
  signed-IsStep r job none = (refl, refl)
  signed-IsStep r job (some out) =
      (on_signature-view tl r job out.delivered, on_signature-cfg tl r job out.delivered)

  generated-IsStep :
      (r : BnbRunner tl) (key : RunKey) (o : Option (Outcome tl.library.KeyShare))
      → IsStep r
          (returned r (Option.map (finish_dkg tl r key) o))
          (generated tl key (delivered_by o) (view tl r))
  unfolding IsStep finish_dkg
  generated-IsStep r key none = (refl, refl)
  generated-IsStep r key (some out) = on_ecdsa_key_share-view tl r key out.delivered

  after_call-IsStep :
      (r : BnbRunner tl) (c : RunnerCall)
      → IsStep r (after_call r c) (spec_call r.cfg (view tl r) c)
  unfolding after_call
  after_call-IsStep r (sign_call job id now choices) =
      unfold run_sign in
      elim (Bool-cases (is_zero_ecdsa_share tl job.key_share)) [
        | inl zero ↦ rw zero (unfold IsStep in (refl, refl))
        | inr usable ↦ rw usable (
            signed-IsStep r job
              (sign_flow.run_sign tl (sign_run_job tl job) job.key_share id r.cfg now choices))
      ]
  after_call-IsStep r (dkg_call job id now choices) =
      unfold run_dkg in
      generated-IsStep r (job.session_id, job.local_party_id)
        (dkg_flow.run_dkg tl (dkg_run_job tl job) id r.cfg now choices)
  after_call-IsStep r (delete_call key) =
      unfold IsStep in delete_temporary_ecdsa_dkg_share-view tl r key

  -- The runner's maps, whatever calls it gets, are the two functions that its calls change: a
  -- signature that a flow handed on is found under its session and under its key, the last one
  -- first; a share under its session and party, until it is deleted; and no call touches another
  -- entry, nor anything under an empty key.
  pub after_calls-refines :
      (r : BnbRunner tl) (cs : List RunnerCall)
      → view tl (after_calls r cs) ≡ spec_calls r.cfg (view tl r) cs
  unfolding after_calls IsStep
  after_calls-refines r [] = refl
  after_calls-refines r (c ∷ cs) =
      let (here, same) = after_call-IsStep r c in
      after_calls-refines (after_call r c) cs ∙ rw (here, same) refl
