-- ===== src/Api/Checked.antt =====
-- What the inner service may rely on in a request that was validated (tss/service.go).
use brosettlement_mpc_core.Base.{
  ◌≡◌, refl, inl, inr, [], Bytes, ◌=?◌, Result, ok, err, ◌>>=◌, Bool-cases,
}
use brosettlement_mpc_core.Text.{trim_space}
use brosettlement_mpc_core.Derivation.Errors as derivation
use brosettlement_mpc_core.Derivation.Ecdsa.{is_ecdsa_algorithm, validate_dkg_material}
use brosettlement_mpc_core.Service.Errors.{ServiceError}
use brosettlement_mpc_core.Service.Sign.{is_ecdsa}
use brosettlement_mpc_core.Service.Dkg.{
  NormalizedDkgMaterial, with_derivation, normalize_key_id, resolve_dkg_output_key_id,
  normalized_material, normalize_dkg_material,
}
use brosettlement_mpc_core.Api.{
  DkgSessionRequest, material_or_empty, check_key_id, validate_dkg_session_request, build_dkg_input,
}

same_test :
    (wide : Bytes → Bytes) (algorithm : Bytes)
    → is_ecdsa_algorithm wide algorithm ≡ is_ecdsa wide algorithm
unfolding is_ecdsa_algorithm is_ecdsa
same_test wide algorithm = refl

key_id_resolved :
    (wide : Bytes → Bytes) (r : DkgSessionRequest)
    → check_key_id wide r.session.algorithm r.session.key_id ≡ ok tt
    → (key_id : Bytes) × (resolve_dkg_output_key_id wide (build_dkg_input r) ≡ ok key_id)
unfolding check_key_id resolve_dkg_output_key_id normalize_key_id
key_id_resolved wide r h = elim (Bool-cases (is_ecdsa wide r.session.algorithm)) [
  | inl ecdsa ↦ elim (Bool-cases (trim_space r.session.key_id =? [])) [
    | inl empty ↦ absurd (cc (rw (same_test wide r.session.algorithm, ecdsa, empty) at h))
    | inr given ↦ rw (ecdsa, given) (trim_space r.session.key_id, refl)
  ]
  | inr other ↦ elim (Bool-cases (trim_space r.session.key_id =? [])) [
    | inl empty ↦ rw (other, empty) (r.session.session_id, refl)
    | inr given ↦ rw (other, given) (trim_space r.session.key_id, refl)
  ]
]

material_normalized :
    (hex : Bytes) (m : Result derivation.Error (Bytes × Bytes)) (v : Bytes × Bytes)
    → with_derivation m ≡ ok v
    → (n : NormalizedDkgMaterial) × (normalized_material hex m ≡ ok n)
material_normalized hex (err x) v h = absurd (cc)
material_normalized hex (ok (chain_code, scheme)) v h = (_, refl)

last_two :
    {V : Type 0} (m1 m2 m3 : Result ServiceError (Unit {0})) (m4 : Result ServiceError V)
    → (m1 >>= (λ a. m2 >>= (λ b. m3 >>= (λ c. m4 >>= (λ v. ok tt))))) ≡ ok (tt {0})
    → (m3 ≡ ok (tt {0})) × ((v : V) × (m4 ≡ ok v))
last_two (err x) m2 m3 m4 h = absurd (cc)
last_two (ok a) (err x) m3 m4 h = absurd (cc)
last_two (ok a) (ok b) (err x) m4 h = absurd (cc)
last_two (ok a) (ok b) (ok c) (err x) h = absurd (cc)
last_two (ok a) (ok b) (ok c) (ok v) h = (refl, (v, refl))

-- A key generation whose request is valid is not refused for its key or for its derivation
-- material: the key of its output is resolved, and its chain code and scheme are normalised.
pub validate_dkg_session_request-resolved :
    (wide : Bytes → Bytes) (r : DkgSessionRequest)
    → validate_dkg_session_request wide r ≡ ok tt
    → ((key_id : Bytes) × (resolve_dkg_output_key_id wide (build_dkg_input r) ≡ ok key_id))
      × ((n : NormalizedDkgMaterial) × (normalize_dkg_material wide (build_dkg_input r) ≡ ok n))
unfolding validate_dkg_session_request normalize_dkg_material
validate_dkg_session_request-resolved wide r h =
    let (keyed, (v, material)) =
      last_two _ _ (check_key_id wide r.session.algorithm r.session.key_id)
        (with_derivation (
          validate_dkg_material wide r.session.algorithm (material_or_empty r.derivation_material)))
        h in
    (
      key_id_resolved wide r keyed,
      material_normalized _
          (validate_dkg_material wide r.session.algorithm (material_or_empty r.derivation_material))
          v material,
    )
