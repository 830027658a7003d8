-- ===== src/Service/Signing/Signed.antt =====
-- What a signing session that succeeds has signed, and with which share (internal/tss/service).
use brosettlement_mpc_core.Base.{
  ℕ, ◌≡◌, refl, sym, ap, subst, ◌∙◌, inl, inr, false, Option, none, some, List, [], Bytes, ◌=?◌,
  Result, ok, err, ◌>>=◌, >>=-eq-ok, Bool-cases,
}
use mathlib.Core.Option.{map-eq-some_iff}
use brosettlement_mpc_core.Derivation.Errors as derivation
use brosettlement_mpc_core.Derivation.Hash.{hash_v1}
use brosettlement_mpc_core.Derivation.Ecdsa.{EcdsaChildKey, prepare_ecdsa_signing_share}
use brosettlement_mpc_core.Derivation.Ecdsa.Prepared.{IsNamed, prepare_ecdsa_signing_share-IsNamed}
use brosettlement_mpc_core.Execution.Errors.{Error}
use brosettlement_mpc_core.Execution.Run.{Choice}
use brosettlement_mpc_core.Flow.{TssLib, SignatureData}
use brosettlement_mpc_core.Runner.{SignJob, BnbRunner, export_ecdsa_signature, run_sign}
use brosettlement_mpc_core.Runner.Stored.{CarriesSignatures, run_sign-IsKept}
use brosettlement_mpc_core.Shares.{EcdsaKeyMaterial}
use brosettlement_mpc_core.Shares.RoundTrip.{stored_material}
use brosettlement_mpc_core.Service.Errors.{ServiceError}
use brosettlement_mpc_core.Service.Sign.{is_ecdsa, check_material, check_hash, check_hash-ok}
use brosettlement_mpc_core.Service.Dkg.{with_derivation}
use brosettlement_mpc_core.Service.Signing.{
  SignInput, SignParts, load_ecdsa_key_material, sign_job, prepare_derived_ecdsa_sign_job,
  check_exported, run_prepared, run_sign_session,
}

pub with_derivation-ok :
    {A : Type 0} (r : Result derivation.Error A) (a : A) → with_derivation r ≡ ok a → r ≡ ok a
with_derivation-ok (err x) a h = absurd (cc)
with_derivation-ok (ok b) a h = cc

module _ (tl : TssLib) (svc : SignParts tl) where
  -- A job over the stored material, with the hash of its context, for a child key of its context.
  abbrev pub IsPrepared : SignInput → SignJob tl → Type 0
  IsPrepared input job =
      (material : EcdsaKeyMaterial tl.library.KeyShare) × ((child : EcdsaChildKey)
        × ((load_ecdsa_key_material svc input ≡ ok material)
            × ((hash_v1 svc.platform tl.library.sha256 input.derivation_context
                  ≡ ok input.derivation_context_hash)
                × (IsNamed svc.platform svc.ckd (svc.ckd.ecdsa_pub material.share)
                      material.chain_code input.derivation_context child
                    × ((svc.ckd.adjust_share child.key_derivation_delta material.share
                            child.public_key
                          ≡ some job.key_share)
                        × ((job.key_derivation_delta ≡ some child.key_derivation_delta)
                            × (job.derivation_context_hash ≡ input.derivation_context_hash)))))))

  -- The job that the runner ran, from what it was to what it is, without an error.
  abbrev pub IsRun :
      SignInput
      → Bytes
      → ℕ
      → List (Choice tl.library)
      → BnbRunner tl
      → BnbRunner tl
      → SignJob tl
      → Type 0
  IsRun input id now choices r r' job =
      (job.digest ≡ input.digest)
      × ((job.session_id ≡ input.session_id)
          × ((job.key_id ≡ input.key_id)
              × (IsPrepared input job × (run_sign tl r job id now choices ≡ some (r', none)))))

  module _ (input : SignInput) (job : SignJob tl) where
    -- The rest of the preparation, from each step on.
    abbrev adjust : EcdsaKeyMaterial tl.library.KeyShare → Result ServiceError (SignJob tl)
    adjust material =
        with_derivation (
          prepare_ecdsa_signing_share svc.platform svc.ckd material.share material.chain_code
            input.derivation_context)
        >>= (λ prepared. ok (sign_job svc input prepared))

    abbrev compare : EcdsaKeyMaterial tl.library.KeyShare → Bytes → Result ServiceError (SignJob tl)
    compare material expected =
        with_derivation (check_hash input.derivation_context_hash expected)
        >>= (λ u. adjust material)

    abbrev hash : EcdsaKeyMaterial tl.library.KeyShare → Result ServiceError (SignJob tl)
    hash material =
        with_derivation (hash_v1 svc.platform tl.library.sha256 input.derivation_context)
        >>= (λ expected. compare material expected)

    abbrev check : EcdsaKeyMaterial tl.library.KeyShare → Result ServiceError (SignJob tl)
    check material =
        with_derivation (check_material (stored_material material)) >>= (λ u. hash material)

    adjusted-IsPrepared :
        (material : EcdsaKeyMaterial tl.library.KeyShare)
        → load_ecdsa_key_material svc input ≡ ok material
        → hash_v1 svc.platform tl.library.sha256 input.derivation_context
          ≡ ok input.derivation_context_hash
        → adjust material ≡ ok job
        → (job.digest ≡ input.digest)
          × ((job.session_id ≡ input.session_id)
              × ((job.key_id ≡ input.key_id) × IsPrepared input job))
    adjusted-IsPrepared material loaded hashed h =
        let (prepared, derived, is_job) =
          >>=-eq-ok
            (with_derivation (
              prepare_ecdsa_signing_share svc.platform svc.ckd material.share material.chain_code
                input.derivation_context))
            (λ prepared. ok (sign_job svc input prepared)) h in
        let (child, (named, (adjusted, (key, delta)))) =
          prepare_ecdsa_signing_share-IsNamed svc.platform svc.ckd material.share
            material.chain_code input.derivation_context prepared
            (with_derivation-ok _ prepared derived) in
        let is : sign_job svc input prepared ≡ job = cc in
        subst
          (λ j.
            (j.digest ≡ input.digest)
            × ((j.session_id ≡ input.session_id)
                × ((j.key_id ≡ input.key_id) × IsPrepared input j)))
          is
          (
            refl,
            (
              refl,
              (
                refl,
                (material, (child, (loaded, (hashed, (named, (adjusted, (ap some delta, refl))))))),
              ),
            ),
          )

    checked-IsPrepared :
        (material : EcdsaKeyMaterial tl.library.KeyShare)
        → load_ecdsa_key_material svc input ≡ ok material
        → check material ≡ ok job
        → (job.digest ≡ input.digest)
          × ((job.session_id ≡ input.session_id)
              × ((job.key_id ≡ input.key_id) × IsPrepared input job))
    checked-IsPrepared material loaded h =
        let (u, valid, h1) =
          >>=-eq-ok (with_derivation (check_material (stored_material material)))
            (λ u. hash material) h in
        let (expected, hashed, h2) =
          >>=-eq-ok
            (with_derivation (hash_v1 svc.platform tl.library.sha256 input.derivation_context))
            (λ expected. compare material expected) h1 in
        let (u', same, h3) =
          >>=-eq-ok (with_derivation (check_hash input.derivation_context_hash expected))
            (λ u. adjust material) h2 in
        let (given, equal) =
          check_hash-ok input.derivation_context_hash expected (with_derivation-ok _ u' same) in
        adjusted-IsPrepared material loaded
          (with_derivation-ok _ expected hashed ∙ ap ok (sym equal)) h3

    prepare_derived_ecdsa_sign_job-IsPrepared :
        prepare_derived_ecdsa_sign_job svc input ≡ ok job
        → (job.digest ≡ input.digest)
          × ((job.session_id ≡ input.session_id)
              × ((job.key_id ≡ input.key_id) × IsPrepared input job))
    unfolding prepare_derived_ecdsa_sign_job
    prepare_derived_ecdsa_sign_job-IsPrepared h =
        elim (Bool-cases (is_ecdsa svc.platform.wide input.algorithm)) [
          | inr other ↦ absurd (cc (rw other at h))
          | inl ecdsa ↦
              let (material, loaded, h1) =
                >>=-eq-ok (load_ecdsa_key_material svc input) (λ material. check material)
                  (rw ecdsa at h) in
              checked-IsPrepared material loaded h1
        ]

  -- The signature of a session is given for its session and for its key.
  abbrev pub IsSigned : SignInput → BnbRunner tl → Type 0
  IsSigned input r' =
      (sig : SignatureData) × ((sig.m ≡ input.digest)
        × ((export_ecdsa_signature tl r' input.session_id ≡ ok sig)
            × (export_ecdsa_signature tl r' input.key_id ≡ ok sig)))

  checked_export :
      (session_id : Bytes) (v : BnbRunner tl × Option Error) (r' : BnbRunner tl)
      → check_exported svc session_id v ≡ (r', none)
      → v ≡ (r', none)
  checked_export session_id (r, some x) r' h = absurd (let e = ap (λ w. w.1) h in cc)
  checked_export session_id (r, none) r' h = ap (λ w. (w.0, none)) h

  ready_job-IsSigned :
      (r : BnbRunner tl) (input : SignInput) (id : Bytes) (now : ℕ)
      (choices : List (Choice tl.library)) (r' : BnbRunner tl)
      (prepared : Result ServiceError (SignJob tl))
      → (input.session_id =? []) ≡ false
      → (input.key_id =? []) ≡ false
      → CarriesSignatures tl choices
      → prepare_derived_ecdsa_sign_job svc input ≡ prepared
      → run_prepared svc r input.session_id id now choices prepared ≡ some (r', none)
      → IsSigned input r' × ((job : SignJob tl) × IsRun input id now choices r r' job)
  ready_job-IsSigned r input id now choices r' (err x) session key carries from h =
      absurd (refused h)
    where
      refused :
          ◌≡◌ {A = Option (BnbRunner tl × Option ServiceError)} (some (r, some x)) (some (r', none))
          → ⊥
      refused q =
          let old : BnbRunner tl × Option ServiceError = (r, some x) in
          let same : old ≡ (r', none) = cc in let e = ap (λ w. w.1) same in cc
  ready_job-IsSigned r input id now choices r' (ok job) session key carries from h =
      let (v, runs, exports) =
        (map-eq-some_iff (check_exported svc input.session_id) (run_sign tl r job id now choices)).0
          h in
      let (digest, (same_session, (same_key, is_prepared))) =
        prepare_derived_ecdsa_sign_job-IsPrepared input job from in
      let ran : run_sign tl r job id now choices ≡ some (r', none) =
        runs ∙ ap some (checked_export input.session_id v r' exports) in
      let (sig, (m, (by_session, by_key))) =
        run_sign-IsKept tl r job id now choices r' none (ap (λ s. s =? []) same_session ∙ session)
          (ap (λ s. s =? []) same_key ∙ key) carries ran in
      (
        (
          sig,
          (
            m ∙ digest,
            (
              ap (export_ecdsa_signature tl r') (sym same_session) ∙ by_session,
              ap (export_ecdsa_signature tl r') (sym same_key) ∙ by_key,
            ),
          ),
        ),
        (job, (digest, (same_session, (same_key, (is_prepared, ran))))),
      )

  -- A signing session over a session and a key that have names, of a protocol whose results carry
  -- signatures: if it succeeds, then the session and the key give a signature whose `M` is the
  -- digest of the input; and the job that was run, without an error, had the digest, the session,
  -- the key and the context hash of the input, which is the hash of its derivation context, and
  -- the share that is stored for the key, adjusted to a child key that this context names.
  pub run_sign_session-IsSigned :
      (r : BnbRunner tl) (input : SignInput) (id : Bytes) (now : ℕ)
      (choices : List (Choice tl.library)) (r' : BnbRunner tl)
      → (input.session_id =? []) ≡ false
      → (input.key_id =? []) ≡ false
      → CarriesSignatures tl choices
      → run_sign_session svc r input id now choices ≡ some (r', none)
      → IsSigned input r' × ((job : SignJob tl) × IsRun input id now choices r r' job)
  unfolding run_sign_session
  run_sign_session-IsSigned r input id now choices r' session key carries h =
      ready_job-IsSigned r input id now choices r' _ session key carries refl h
