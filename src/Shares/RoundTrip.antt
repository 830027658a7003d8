-- ===== src/Shares/RoundTrip.antt =====
-- What the codec of internal/shares/codec.go writes, it reads.
use brosettlement_mpc_core.Base.{
  ◌≡◌, refl, ap, sym, subst, ◌∙◌, inl, inr, false, ◌==◌, Option, none, some, [], Bytes, ltb, ok,
  ◌>>=◌, >>=-eq-ok, length, Bool-cases, ◌≤◌, arith,
}
use brosettlement_mpc_core.Service.Sign.{KeyMaterial, check_material}
use brosettlement_mpc_core.Shares.{
  EcdsaKeyMaterial, ShareEnvelope, Gob, codec_version, max_key_material_blob_bytes, meta_of,
  material_of, checked_size, decoded, validate_key_material_meta, marshal_key_material,
  unmarshal_key_material,
}

checked_size-ok :
    (o : Option Bytes) (blob : Bytes)
    → checked_size o ≡ ok blob
    → (o ≡ some blob) × (ltb max_key_material_blob_bytes (length blob) ≡ false)
checked_size-ok none blob h = absurd (cc)
checked_size-ok (some b) blob h = elim (Bool-cases (ltb max_key_material_blob_bytes (length b))) [
  | inl large ↦ absurd (cc (rw large at h))
  | inr small ↦
      let same : b ≡ blob = cc (rw small at h) in
      (ap some same, ap (λ x. ltb max_key_material_blob_bytes (length x)) (sym same) ∙ small)
]

module _ {Share : Type 0} where
  abbrev envelope : EcdsaKeyMaterial Share → ShareEnvelope Share
  envelope m = record { version = codec_version; share = m.share; meta = meta_of m }

  -- A blob that the encoder gives for key material is read back as the same material, if the
  -- decoder of `gob` reads what its encoder wrote, to the end.
  pub unmarshal-marshal_key_material :
      (gob : Gob Share) (material : EcdsaKeyMaterial Share) (blob : Bytes)
      → ((env : ShareEnvelope Share) (b : Bytes)
          → gob.encode env ≡ some b
          → gob.decode b ≡ some (env, []))
      → marshal_key_material gob material ≡ ok blob
      → unmarshal_key_material gob blob ≡ ok material
  unfolding marshal_key_material unmarshal_key_material
  unmarshal-marshal_key_material gob material blob reads h =
      let (x, valid, h1) =
        >>=-eq-ok (validate_key_material_meta (meta_of material))
          (λ x. checked_size (gob.encode (envelope material))) h in
      let (written, small) = checked_size-ok (gob.encode (envelope material)) blob h1 in
      rw (small, reads (envelope material) blob written, valid) refl

  -- The checks that a signing session makes of stored key material.
  abbrev pub stored_material : EcdsaKeyMaterial Share → KeyMaterial
  stored_material m = record {
    chain_code = m.chain_code;
    derivation_scheme = m.derivation_scheme;
    public_key_format = m.public_key_format;
  }

  valid-check_material :
      (m : EcdsaKeyMaterial Share)
      → validate_key_material_meta (meta_of m) ≡ ok tt
      → check_material (stored_material m) ≡ ok tt
  unfolding validate_key_material_meta check_material
  valid-check_material m h = ground (arith, h)

  decoded-check_material :
      (o : Option (ShareEnvelope Share × Bytes)) (m : EcdsaKeyMaterial Share)
      → decoded o ≡ ok m
      → check_material (stored_material m) ≡ ok tt
  decoded-check_material none m h = absurd (cc)
  decoded-check_material (some (env, rest)) m h = elim (Bool-cases (length rest == 0)) [
    | inr more ↦ absurd (cc (rw more at h))
    | inl done ↦ elim (Bool-cases (env.version == codec_version)) [
      | inr other ↦ absurd (cc (rw (done, other) at h))
      | inl current ↦ read (rw (done, current) at h)
    ]
  ]
    where
      read :
          (validate_key_material_meta env.meta >>= (λ x. ok (material_of env))) ≡ ok m
          → check_material (stored_material m) ≡ ok tt
      read q =
          let (x, valid, same) =
            >>=-eq-ok (validate_key_material_meta env.meta) (λ x. ok (material_of env)) q in
          let is : material_of env ≡ m = cc in
          subst (λ n. check_material (stored_material n) ≡ ok tt) is
            (valid-check_material (material_of env) valid)

  -- Key material that the codec reads passes every check of the signing session on it, and its
  -- blob is no longer than the limit.
  pub unmarshal_key_material-check_material :
      (gob : Gob Share) (blob : Bytes) (m : EcdsaKeyMaterial Share)
      → unmarshal_key_material gob blob ≡ ok m
      → (length blob ≤ max_key_material_blob_bytes) × (check_material (stored_material m) ≡ ok tt)
  unfolding unmarshal_key_material
  unmarshal_key_material-check_material gob blob m h =
      elim (Bool-cases (ltb max_key_material_blob_bytes (length blob))) [
        | inl large ↦ absurd (cc (rw large at h))
        | inr small ↦
            (ground (arith, small), decoded-check_material (gob.decode blob) m (rw small at h))
      ]
