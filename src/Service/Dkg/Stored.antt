-- ===== src/Service/Dkg/Stored.antt =====
-- What the last steps of a key generation that succeed have stored (internal/tss/service/dkg.go).
use brosettlement_mpc_core.Base.{
  ◌≡◌, refl, sym, ap, subst, ◌∙◌, Option, none, some, Bytes, Result, ok, err,
}
use brosettlement_mpc_core.Derivation.Errors as derivation
use brosettlement_mpc_core.Derivation.Context.{
  scheme_bip32_secp256k1, public_key_format_uncompressed_hex,
}
use brosettlement_mpc_core.Derivation.Ecdsa.{encode_ec_point_uncompressed_secp256k1}
use brosettlement_mpc_core.Execution.Errors.{Error}
use brosettlement_mpc_core.Flow.{TssLib}
use brosettlement_mpc_core.Shares.{CodecError, marshal_key_material}
use brosettlement_mpc_core.Service.Errors.{ServiceError}
use brosettlement_mpc_core.Service.Runs.{RunKey}
use brosettlement_mpc_core.Service.Dkg.{
  DkgInput, DkgOutput, NormalizedDkgMaterial, ShareWriter, run_key, exported, dkg_output,
  dkg_key_material, save_input,
}
use brosettlement_mpc_core.Service.Dkg.Session.{
  State, chain, Parts, build_ecdsa_dkg_output, saved, save_blob, persist_ecdsa_share_after_dkg,
  store_ecdsa,
}

module _ (tl : TssLib) {R W P : Type 0} (svc : Parts tl R W P) where
  -- The share of a state, with the public key of an output.
  abbrev pub IsBuilt :
      R → DkgInput → NormalizedDkgMaterial → DkgOutput → tl.library.KeyShare → Type 0
  IsBuilt runner input material output share =
      (svc.runner.export_temporary_ecdsa_dkg_share runner (run_key input) ≡ ok share)
      × ((encode_ec_point_uncompressed_secp256k1 svc.ckd.is_on_curve (svc.ckd.ecdsa_pub share)
            ≡ ok output.public_key)
          × (output.chain_code ≡ material.chain_code_hex))

  dkg_output-ok :
      (input : DkgInput) (key_id : Bytes) (material : NormalizedDkgMaterial)
      (share : tl.library.KeyShare) (r : Result derivation.Error Bytes)
      (built : DkgOutput × tl.library.KeyShare)
      → dkg_output tl input key_id material share r ≡ ok built
      → (built.1 ≡ share)
        × ((built.0.key_id ≡ key_id)
            × ((r ≡ ok built.0.public_key) × (built.0.chain_code ≡ material.chain_code_hex)))
  dkg_output-ok input key_id material share (err x) built h = absurd (cc)
  dkg_output-ok input key_id material share (ok public_key) built h =
      let made : DkgOutput × tl.library.KeyShare = (
        record {
          key_id = key_id;
          public_key = public_key;
          chain_code = material.chain_code_hex;
          public_key_format = public_key_format_uncompressed_hex;
          derivation_scheme = scheme_bip32_secp256k1;
        },
        share,
      ) in
      let is : made ≡ built = cc in
      subst
        (λ v.
          (v.1 ≡ share)
          × ((v.0.key_id ≡ key_id)
              × (◌≡◌ {A = Result derivation.Error Bytes} (ok public_key) (ok v.0.public_key)
                  × (v.0.chain_code ≡ material.chain_code_hex))))
        is (refl, (refl, (refl, refl)))

  exported-IsBuilt :
      (runner : R) (input : DkgInput) (key_id : Bytes) (material : NormalizedDkgMaterial)
      (r : Result Error tl.library.KeyShare) (built : DkgOutput × tl.library.KeyShare)
      → svc.runner.export_temporary_ecdsa_dkg_share runner (run_key input) ≡ r
      → exported tl svc.ckd input key_id material r ≡ ok built
      → (built.0.key_id ≡ key_id) × IsBuilt runner input material built.0 built.1
  exported-IsBuilt runner input key_id material (err x) built from_runner h = absurd (cc)
  exported-IsBuilt runner input key_id material (ok share) built from_runner h =
      let (same, (key, (public_key, chain_code))) =
        dkg_output-ok input key_id material share
          (encode_ec_point_uncompressed_secp256k1 svc.ckd.is_on_curve (svc.ckd.ecdsa_pub share))
          built h in
      (
        key,
        subst (IsBuilt runner input material built.0) (sym same)
            (from_runner, (public_key, chain_code)),
      )

  -- The writer took the key material of the share, and the share was dropped from the runner.
  abbrev pub IsSaved :
      State R W P
      → DkgInput
      → NormalizedDkgMaterial
      → DkgOutput
      → tl.library.KeyShare
      → State R W P
      → Type 0
  IsSaved mid input material output share s' =
      (w : ShareWriter W) × ((blob : Bytes) × ((svc.share_writer ≡ some w)
          × ((marshal_key_material svc.gob (dkg_key_material tl material share) ≡ ok blob)
              × ((w.save_share mid.writer (save_input tl input output.key_id blob)
                    ≡ (s'.writer, none))
                  × (s'.runner
                      ≡ svc.runner.delete_temporary_ecdsa_dkg_share mid.runner (run_key input))))))

  saved-ok :
      (mid : State R W P) (key : RunKey) (r : W × Option Error) (s' : State R W P) (u : Unit {0})
      → saved svc mid key r ≡ (s', ok u)
      → (r ≡ (s'.writer, none))
        × (s'.runner ≡ svc.runner.delete_temporary_ecdsa_dkg_share mid.runner key)
  saved-ok mid key (writer, some x) s' u h = absurd (let e = ap (λ v. v.1) h in cc)
  saved-ok mid key (writer, none) s' u h =
      (ap (λ v. (v.0.writer, none)) h, sym (ap (λ v. v.0.runner) h))

  save_blob-IsSaved :
      (mid : State R W P) (input : DkgInput) (material : NormalizedDkgMaterial) (output : DkgOutput)
      (share : tl.library.KeyShare) (o : Option (ShareWriter W)) (b : Result CodecError Bytes)
      (s' : State R W P) (u : Unit {0})
      → svc.share_writer ≡ o
      → marshal_key_material svc.gob (dkg_key_material tl material share) ≡ b
      → save_blob svc mid input output.key_id o b ≡ (s', ok u)
      → IsSaved mid input material output share s'
  save_blob-IsSaved mid input material output share none b s' u given written h =
      absurd (let e = ap (λ v. v.1) h in cc)
  save_blob-IsSaved mid input material output share (some w) (err x) s' u given written h =
      absurd (let e = ap (λ v. v.1) h in cc)
  save_blob-IsSaved mid input material output share (some w) (ok blob) s' u given written h =
      let (taken, dropped) =
        saved-ok mid (run_key input)
          (w.save_share mid.writer (save_input tl input output.key_id blob)) s' u h in
      (w, (blob, (given, (written, (taken, dropped)))))

  abbrev pub IsStored :
      State R W P → DkgInput → NormalizedDkgMaterial → DkgOutput → State R W P → Type 0
  IsStored mid input material output s' =
      (share : tl.library.KeyShare) × (IsBuilt mid.runner input material output share
        × IsSaved mid input material output share s')

  after_save :
      (out : DkgOutput) (p : State R W P × Result ServiceError (Unit {0})) (s' : State R W P)
      (output : DkgOutput)
      → chain p (λ s2 u. (s2, ok out)) ≡ (s', ok output)
      → (out ≡ output) × (p ≡ (s', ok tt))
  after_save out (s2, err x) s' output h = absurd (let e = ap (λ v. v.1) h in cc)
  after_save out (s2, ok u) s' output h = (let e = ap (λ v. v.1) h in cc, ap (λ v. (v.0, ok tt)) h)

  stored :
      (mid : State R W P) (input : DkgInput) (key_id : Bytes) (material : NormalizedDkgMaterial)
      (r : Result ServiceError (DkgOutput × tl.library.KeyShare)) (s' : State R W P)
      (output : DkgOutput)
      → build_ecdsa_dkg_output svc mid input key_id material ≡ r
      → chain
          (mid, r)
          (λ s1 built.
            chain
              (persist_ecdsa_share_after_dkg svc s1 input key_id material built.1)
              (λ s2 u. (s2, ok built.0)))
        ≡ (s', ok output)
      → (output.key_id ≡ key_id) × IsStored mid input material output s'
  unfolding build_ecdsa_dkg_output persist_ecdsa_share_after_dkg
  stored mid input key_id material (err x) s' output from h = absurd (let e = ap (λ v. v.1) h in cc)
  stored mid input key_id material (ok (out, share)) s' output from h =
      let (is_output, persists) =
        after_save out (persist_ecdsa_share_after_dkg svc mid input key_id material share) s' output
          h in
      let (key, is_built) =
        exported-IsBuilt mid.runner input key_id material _ (out, share) refl from in
      let written =
        save_blob-IsSaved mid input material out share svc.share_writer _ s' tt refl refl (
          ap
            (λ k.
              save_blob svc mid input k svc.share_writer
                (marshal_key_material svc.gob (dkg_key_material tl material share)))
            key
          ∙ persists) in
      subst (λ o. (o.key_id ≡ key_id) × IsStored mid input material o s') is_output
        (key, (share, (is_built, written)))

  pub store_ecdsa-IsStored :
      (mid : State R W P) (input : DkgInput) (key_id : Bytes) (material : NormalizedDkgMaterial)
      (s' : State R W P) (output : DkgOutput)
      → store_ecdsa svc mid input key_id material ≡ (s', ok output)
      → (output.key_id ≡ key_id) × IsStored mid input material output s'
  unfolding store_ecdsa
  store_ecdsa-IsStored mid input key_id material s' output h =
      stored mid input key_id material _ s' output refl h
