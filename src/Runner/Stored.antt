-- ===== src/Runner/Stored.antt =====
-- What a signing run leaves for `ExportECDSASignature` (internal/tssbnb/runner/bnb_runner.go).
use brosettlement_mpc_core.Base.{
  ℕ, ◌≡◌, refl, ap, subst, ◌∙◌, inl, inr, true, false, Option, none, some, List, ◌∷◌, [], Bytes,
  ◌=?◌, =?_refl, arith, ok, Bool-cases,
}
use mathlib.Core.Option
use mathlib.Core.Option.{map-eq-some_iff}
use brosettlement_mpc_core.Table.{lookup}
use brosettlement_mpc_core.Execution.Errors.{
  Error, errors_is, key_share_not_found, flow_sign_digest_required, flow_sign_digest_mismatch,
  flow_sign_algorithm_unsupported,
}
use brosettlement_mpc_core.Execution.Run.{Choice, ProtocolResult}
use brosettlement_mpc_core.Execution.Run.Events.{Delivers}
use brosettlement_mpc_core.Flow.{TssLib, SignatureData, Outcome}
use brosettlement_mpc_core.Flow.Sign as sign_flow
use brosettlement_mpc_core.Flow.Sign.Signed.{IsSigned, IsDelivery, run_sign-IsSigned}
use brosettlement_mpc_core.Runner.{
  SignJob, BnbRunner, set_ecdsa_signature, export_ecdsa_signature, found_signature,
  is_zero_ecdsa_share, on_signature, exported_error, finish_sign, sign_run_job, run_sign,
}
use brosettlement_mpc_core.Runner.Store.{put_signature, on_signature-view}

exported_error-some : (x : Error) → (y : Error) × (exported_error (some x) ≡ some y)
unfolding exported_error
exported_error-some x = elim (Bool-cases (errors_is x flow_sign_digest_required)) [
  | inl h ↦ rw h (_, refl)
  | inr h ↦ elim (Bool-cases (errors_is x flow_sign_digest_mismatch)) [
    | inl h1 ↦ rw (h, h1) (_, refl)
    | inr h1 ↦ elim (Bool-cases (errors_is x flow_sign_algorithm_unsupported)) [
      | inl h2 ↦ rw (h, h1, h2) (_, refl)
      | inr h2 ↦ rw (h, h1, h2) (_, refl)
    ]
  ]
]

module _ (tl : TssLib) where
  -- A signature under the session and under the key of the job, over the digest of the job; and on
  -- an error, the signatures as they were.
  abbrev pub IsKept : BnbRunner tl → SignJob tl → BnbRunner tl → Option Error → Type 0
  IsKept r job r' none =
      (sig : SignatureData) × ((sig.m ≡ job.digest)
        × ((export_ecdsa_signature tl r' job.session_id ≡ ok sig)
            × (export_ecdsa_signature tl r' job.key_id ≡ ok sig)))
  IsKept r job r' (some x) = r'.ecdsa_sigs ≡ r.ecdsa_sigs

  put_at :
      (key q : Bytes) (sig : SignatureData) (f : Bytes → Option SignatureData)
      → (key =? []) ≡ false
      → (key =? q) ≡ true
      → put_signature tl key sig f q ≡ some sig
  put_at key q sig f given same = rw (given, same) refl

  put_over :
      (key q : Bytes) (sig : SignatureData) (f : Bytes → Option SignatureData)
      → f q ≡ some sig
      → put_signature tl key sig f q ≡ some sig
  put_over key q sig f h = ground (arith, h)

  exported :
      (r : BnbRunner tl) (job : SignJob tl) (sig : SignatureData)
      → (job.session_id =? []) ≡ false
      → (job.key_id =? []) ≡ false
      → (export_ecdsa_signature tl (on_signature tl r job (some sig)) job.session_id ≡ ok sig)
        × (export_ecdsa_signature tl (on_signature tl r job (some sig)) job.key_id ≡ ok sig)
  unfolding export_ecdsa_signature
  exported r job sig session key =
      let stored = ap (λ s. s.signatures) (on_signature-view tl r job (some sig)) in
      let old : Bytes → Option SignatureData = λ q. lookup q r.ecdsa_sigs in
      let mid : Bytes → Option SignatureData = put_signature tl job.session_id sig old in
      let first = put_at job.session_id job.session_id sig old session (=?_refl job.session_id) in
      (
        ap found_signature
            (ap (λ f. f job.session_id) stored ∙ put_over job.key_id job.session_id sig mid first),
        ap found_signature (
            ap (λ f. f job.key_id) stored
            ∙ put_at job.key_id job.key_id sig mid key (=?_refl job.key_id)),
      )

  unsigned :
      (r : BnbRunner tl) (job : SignJob tl) → (on_signature tl r job none).ecdsa_sigs ≡ r.ecdsa_sigs
  unfolding on_signature set_ecdsa_signature
  unsigned r job = elim (Bool-cases (job.key_id =? [])) [ inl h ↦ rw h refl | inr h ↦ rw h refl ]

  failed-IsKept :
      (r : BnbRunner tl) (job : SignJob tl) (out : Outcome SignatureData) (x : Error)
      → out.error ≡ some x
      → out.delivered ≡ none
      → IsKept r job (finish_sign tl r job out).0 (finish_sign tl r job out).1
  unfolding finish_sign
  failed-IsKept r job out x failed nothing =
      let (y, is) = exported_error-some x in rw (failed, nothing, is) (unsigned r job)

  -- Every result that the protocol comes to has a signature.
  abbrev pub CarriesSignatures : List (Choice tl.library) → Type 0
  CarriesSignatures choices =
      (result : ProtocolResult tl.library)
      → Delivers result choices
      → (sig : tl.library.Signature) × (result.signature ≡ some sig)

  finish_sign-IsKept :
      (r : BnbRunner tl) (job : SignJob tl) (choices : List (Choice tl.library))
      (out : Outcome SignatureData)
      → (job.session_id =? []) ≡ false
      → (job.key_id =? []) ≡ false
      → CarriesSignatures choices
      → IsSigned tl (sign_run_job tl job) choices out
      → IsKept r job (finish_sign tl r job out).0 (finish_sign tl r job out).1
  finish_sign-IsKept r job choices out session key carries (inl (x, (failed, nothing))) =
      failed-IsKept r job out x failed nothing
  finish_sign-IsKept r job choices out session key carries (inr (result, (found, given))) =
      let (sig, is) = carries result found in delivered sig (rw is at given)
    where
      delivered :
          (sig : tl.library.Signature)
          → IsDelivery tl job.digest (some sig) out.error out.delivered
          → IsKept r job (finish_sign tl r job out).0 (finish_sign tl r job out).1
      delivered sig (inl (same, (fine, handed))) =
          unfold finish_sign exported_error export_ecdsa_signature in
          rw (fine, handed) (_, (refl, exported r job _ session key))
      delivered sig (inr (differ, (failed, nothing))) = failed-IsKept r job out _ failed nothing

  -- A signing run over a session and a key that have names, of a protocol whose results carry
  -- signatures: if it returns no error, then the session and the key give the same signature, whose
  -- `M` is the digest of the job; if it returns one, the stored signatures are those of before.
  pub run_sign-IsKept :
      (r : BnbRunner tl) (job : SignJob tl) (correlation_id : Bytes) (now : ℕ)
      (choices : List (Choice tl.library)) (r' : BnbRunner tl) (x : Option Error)
      → (job.session_id =? []) ≡ false
      → (job.key_id =? []) ≡ false
      → CarriesSignatures choices
      → run_sign tl r job correlation_id now choices ≡ some (r', x)
      → IsKept r job r' x
  unfolding run_sign
  run_sign-IsKept r job id now choices r' x session key carries h =
      elim (Bool-cases (is_zero_ecdsa_share tl job.key_share)) [
        | inl zero ↦ refused (rw zero at h)
        | inr usable ↦ returned (rw usable at h)
      ]
    where
      refused :
          ◌≡◌ {A = Option (BnbRunner tl × Option Error)}
            (some (r, some (key_share_not_found ∷ [])))
            (some (r', x))
          → IsKept r job r' x
      refused q =
          let old : BnbRunner tl × Option Error = (r, some (key_share_not_found ∷ [])) in
          let same : old ≡ (r', x) = cc in subst (λ v. IsKept r job v.0 v.1) same refl

      returned :
          Option.map
              (finish_sign tl r job)
              (sign_flow.run_sign tl (sign_run_job tl job) job.key_share id r.cfg now choices)
            ≡ some (r', x)
          → IsKept r job r' x
      returned q =
          let (out, returns, same) = (map-eq-some_iff (finish_sign tl r job) _).0 q in
          subst (λ v. IsKept r job v.0 v.1) same
            (finish_sign-IsKept r job choices out session key carries (
              run_sign-IsSigned tl (sign_run_job tl job) job.key_share id r.cfg now choices out
                returns))
