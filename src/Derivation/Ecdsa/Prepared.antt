-- ===== src/Derivation/Ecdsa/Prepared.antt =====
-- Which key a prepared signing share is for (internal/tss/derivation/ecdsa.go).
use brosettlement_mpc_core.Base.{
  ℕ, ◌≡◌, refl, subst, ◌⊎◌, inl, inr, true, ◌==◌, ==_iff, Option, none, some, List, [], Bytes, ◌=?◌,
  =?_iff, Result, ok, ◌>>=◌, >>=-eq-ok, Bool-cases, length,
}
use brosettlement_mpc_core.Derivation.Errors.{Error}
use brosettlement_mpc_core.Derivation.PublicKey.{Platform}
use brosettlement_mpc_core.Derivation.Context.{Context, normalize_context}
use brosettlement_mpc_core.Derivation.Ecdsa.{
  Ckd, EcdsaChildKey, PreparedEcdsaSigningShare, check_algorithm, check_derived_public_key,
  parse_child_path, child_key, derive_ecdsa_child_key, derive_ecdsa_child_key_for_context, adjusted,
  prepare_ecdsa_signing_share, encode_uncompressed_secp256k1,
}

check_derived_public_key-ok :
    (n : Context) (child : EcdsaChildKey)
    → check_derived_public_key n child ≡ ok tt
    → (n.derived_public_key ≡ []) ⊎ (n.derived_public_key ≡ child.public_key_hex)
unfolding check_derived_public_key
check_derived_public_key-ok n child h = elim (Bool-cases (n.derived_public_key =? [])) [
  | inl empty ↦ inl ((=?_iff n.derived_public_key []).0 empty)
  | inr given ↦ elim (Bool-cases (n.derived_public_key =? child.public_key_hex)) [
    | inl same ↦ inr ((=?_iff n.derived_public_key child.public_key_hex).0 same)
    | inr differ ↦ absurd (cc (rw (given, differ) at h))
  ]
]

module _ {Share : Type 0} where
  -- The child key of a parent, a chain code and the indices of a path.
  abbrev pub IsChildOf : Ckd Share → Option (ℕ × ℕ) → Bytes → List ℕ → EcdsaChildKey → Type 0
  IsChildOf ckd none chain_code indices child = ⊥
  IsChildOf ckd (some (x, y)) chain_code indices child =
      (ckd.is_on_curve x y ≡ true)
      × ((length chain_code ≡ 32)
          × ((ckd.derive_child_key indices (x, y) chain_code
                ≡ some (child.key_derivation_delta, child.public_key))
              × (child.public_key_hex
                  ≡ encode_uncompressed_secp256k1 ckd.is_on_curve child.public_key)))

  child_key-ok :
      (ckd : Ckd Share) (o : Option (ℕ × (ℕ × ℕ))) (child : EcdsaChildKey)
      → child_key ckd o ≡ ok child
      → (o ≡ some (child.key_derivation_delta, child.public_key))
        × (child.public_key_hex ≡ encode_uncompressed_secp256k1 ckd.is_on_curve child.public_key)
  child_key-ok ckd none child h = absurd (cc)
  child_key-ok ckd (some (delta, point)) child h =
      let made : EcdsaChildKey = record {
        public_key = point;
        public_key_hex = encode_uncompressed_secp256k1 ckd.is_on_curve point;
        key_derivation_delta = delta;
      } in
      let is : made ≡ child = cc in
      subst
        (λ c.
          ◌≡◌ {A = Option (ℕ × (ℕ × ℕ))} (some (delta, point))
            (some (c.key_derivation_delta, c.public_key))
          × (c.public_key_hex ≡ encode_uncompressed_secp256k1 ckd.is_on_curve c.public_key))
        is (refl, refl)

  derive_ecdsa_child_key-IsChildOf :
      (ckd : Ckd Share) (o : Option (ℕ × ℕ)) (chain_code : Bytes) (indices : List ℕ)
      (child : EcdsaChildKey)
      → derive_ecdsa_child_key ckd o chain_code indices ≡ ok child
      → IsChildOf ckd o chain_code indices child
  unfolding derive_ecdsa_child_key
  derive_ecdsa_child_key-IsChildOf ckd none chain_code indices child h = absurd (cc)
  derive_ecdsa_child_key-IsChildOf ckd (some (x, y)) chain_code indices child h =
      elim (Bool-cases (length chain_code == 0)) [
        | inl empty ↦ absurd (cc (rw empty at h))
        | inr given ↦ elim (Bool-cases (length chain_code == 32)) [
          | inr wrong ↦ absurd (cc (rw (given, wrong) at h))
          | inl long ↦ elim (Bool-cases (ckd.is_on_curve x y)) [
            | inr off ↦ absurd (cc (rw (given, long, off) at h))
            | inl on ↦ (
              on,
              (
                (==_iff _ _).0 long,
                child_key-ok ckd (ckd.derive_child_key indices (x, y) chain_code) child
                    (rw (given, long, on) at h),
              ),
            )
          ]
        ]
      ]

  adjusted-ok :
      (child : EcdsaChildKey) (o : Option Share) (prepared : PreparedEcdsaSigningShare Share)
      → adjusted child o ≡ ok prepared
      → (o ≡ some prepared.share)
        × ((prepared.derived_public_key ≡ child.public_key_hex)
            × (prepared.key_derivation_delta ≡ child.key_derivation_delta))
  adjusted-ok child none prepared h = absurd (cc)
  adjusted-ok child (some share) prepared h =
      let made : PreparedEcdsaSigningShare Share = record {
        share = share;
        derived_public_key = child.public_key_hex;
        key_derivation_delta = child.key_derivation_delta;
      } in
      let is : made ≡ prepared = cc in
      subst
        (λ r.
          (some share ≡ some r.share)
          × ((r.derived_public_key ≡ child.public_key_hex)
              × (r.key_derivation_delta ≡ child.key_derivation_delta)))
        is (refl, (refl, refl))

  -- A child key for a context.
  abbrev pub IsNamed :
      Platform → Ckd Share → Option (ℕ × ℕ) → Bytes → Context → EcdsaChildKey → Type 0
  IsNamed p ckd account_pub chain_code ctx child =
      (n : Context) × ((indices : List ℕ) × ((normalize_context p ctx ≡ ok n)
          × ((parse_child_path n.child_path ≡ ok indices)
              × (IsChildOf ckd account_pub chain_code indices child
                  × ((n.derived_public_key ≡ [])
                      ⊎ (n.derived_public_key ≡ child.public_key_hex))))))

  for_context-IsNamed :
      (p : Platform) (ckd : Ckd Share) (account_pub : Option (ℕ × ℕ)) (chain_code : Bytes)
      (ctx : Context) (child : EcdsaChildKey)
      → derive_ecdsa_child_key_for_context p ckd account_pub chain_code ctx ≡ ok child
      → IsNamed p ckd account_pub chain_code ctx child
  unfolding derive_ecdsa_child_key_for_context
  for_context-IsNamed p ckd account_pub chain_code ctx child h =
      let (n, normal, h1) = >>=-eq-ok (normalize_context p ctx) (λ n. after_algorithm n) h in
      let (u, checked, h2) = >>=-eq-ok (check_algorithm n) (λ u. after_path n) h1 in
      let (indices, parsed, h3) =
        >>=-eq-ok (parse_child_path n.child_path) (λ indices. after_child n indices) h2 in
      let (made, derived, h4) =
        >>=-eq-ok (derive_ecdsa_child_key ckd account_pub chain_code indices)
          (λ made. check_derived_public_key n made >>= (λ u. ok made)) h3 in
      let (u', named, h5) = >>=-eq-ok (check_derived_public_key n made) (λ u. ok made) h4 in
      let is : made ≡ child = cc in
      subst (IsNamed p ckd account_pub chain_code ctx) is (
        n,
        (
          indices,
          (
            normal,
            (
              parsed,
              (
                derive_ecdsa_child_key-IsChildOf ckd account_pub chain_code indices made derived,
                check_derived_public_key-ok n made named,
              ),
            ),
          ),
        ),
      )
    where
      after_child : Context → List ℕ → Result Error EcdsaChildKey
      after_child n indices =
          derive_ecdsa_child_key ckd account_pub chain_code indices
          >>= (λ made. check_derived_public_key n made >>= (λ u. ok made))

      after_path : Context → Result Error EcdsaChildKey
      after_path n = parse_child_path n.child_path >>= (λ indices. after_child n indices)

      after_algorithm : Context → Result Error EcdsaChildKey
      after_algorithm n = check_algorithm n >>= (λ u. after_path n)

  -- A signing share that is prepared for a context is the account's share adjusted to the child key
  -- of the account's key and the chain code at the child path of the context's normal form; the
  -- share is given with that key's tweak and its encoding; and if the context names a derived public
  -- key, it is that one.
  pub prepare_ecdsa_signing_share-IsNamed :
      (p : Platform) (ckd : Ckd Share) (share : Share) (chain_code : Bytes) (ctx : Context)
      (prepared : PreparedEcdsaSigningShare Share)
      → prepare_ecdsa_signing_share p ckd share chain_code ctx ≡ ok prepared
      → (child : EcdsaChildKey) × (IsNamed p ckd (ckd.ecdsa_pub share) chain_code ctx child
          × ((ckd.adjust_share child.key_derivation_delta share child.public_key
                ≡ some prepared.share)
              × ((prepared.derived_public_key ≡ child.public_key_hex)
                  × (prepared.key_derivation_delta ≡ child.key_derivation_delta))))
  unfolding prepare_ecdsa_signing_share
  prepare_ecdsa_signing_share-IsNamed p ckd share chain_code ctx prepared h =
      let (child, derived, h1) =
        >>=-eq-ok (derive_ecdsa_child_key_for_context p ckd (ckd.ecdsa_pub share) chain_code ctx)
          (λ child.
            adjusted child (ckd.adjust_share child.key_derivation_delta share child.public_key))
          h in
      (
        child,
        (
          for_context-IsNamed p ckd (ckd.ecdsa_pub share) chain_code ctx child derived,
          adjusted-ok child _ prepared h1,
        ),
      )
