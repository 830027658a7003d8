-- ===== src/Shares/Evidence.antt =====
-- The public evidence of internal/shares/inspector.go: the account's key can be read from it.
use brosettlement_mpc_core.Base.{
  ℕ, ◌+◌, ◌%◌, ◌^◌, ◌<◌, ◌≡◌, refl, ap, sym, subst, ◌>>=◌, >>=-eq-ok, inl, inr, Bool, true, false,
  ◌&&◌, ◌||◌, ◌==◌, Option, none, some, ◌∷◌, Bytes, if◌then◌else◌, ok, err, length, Bool-cases,
}
use brosettlement_mpc_core.BigInt.{
  set_bytes, fill_bytes, set_bytes-fill_bytes, length-fill_bytes, limit_32,
}
use brosettlement_mpc_core.Shares.{
  Gob, EcdsaKeyMaterial, EcdsaKeyMaterialEvidence, invalid_share_payload,
  encode_compressed_secp256k1_point, compressed_secp256k1_public_key, unmarshal_key_material,
  inspect_encoded_ecdsa_key_material, check_chain_code_length, codec_version,
}

-- Evidence shows the key of the share: the parity of the ordinate, and 32 bytes that are the
-- abscissa.
abbrev pub IsPointOf : Bytes → ℕ → ℕ → Type 0
IsPointOf key x y =
    (body : Bytes) × ((key ≡ (2 + y % 2) ∷ body) × ((length body ≡ 32) × (set_bytes body ≡ x)))

encoded-IsPointOf : (x y : ℕ) → x < 2 ^ 256 → IsPointOf (encode_compressed_secp256k1_point x y) x y
unfolding encode_compressed_secp256k1_point
encoded-IsPointOf x y h =
    (fill_bytes 32 x, (refl, (length-fill_bytes 32 x, set_bytes-fill_bytes 32 x (rw limit_32 h))))

key-IsPointOf :
    (is_on_curve : ℕ → ℕ → Bool) (o : Option (ℕ × ℕ)) (key : Bytes)
    → ((x y : ℕ) → is_on_curve x y ≡ true → x < 2 ^ 256)
    → compressed_secp256k1_public_key is_on_curve o ≡ ok key
    → (x : ℕ) × ((y : ℕ) × ((o ≡ some (x, y)) × ((is_on_curve x y ≡ true) × IsPointOf key x y)))
unfolding compressed_secp256k1_public_key
key-IsPointOf is_on_curve none key bound h = absurd (cc)
key-IsPointOf is_on_curve (some (x, y)) key bound h = elim (Bool-cases (is_on_curve x y)) [
  | inr off ↦ absurd (off_curve ((x == 0) && (y == 0)) (rw off at h))
  | inl on ↦ elim (Bool-cases ((x == 0) && (y == 0))) [
    | inl origin ↦ absurd (cc (rw (on, origin) at h))
    | inr point ↦
        let same : encode_compressed_secp256k1_point x y ≡ key = cc (rw (on, point) at h) in
        (
          x,
          (
            y,
            (refl, (on, subst (λ k. IsPointOf k x y) same (encoded-IsPointOf x y (bound x y on)))),
          ),
        )
  ]
]
  where
    off_curve :
        (b : Bool)
        → (if b || true
            then err invalid_share_payload
            else ok (encode_compressed_secp256k1_point x y))
          ≡ ok key
        → ⊥
    off_curve true q = cc
    off_curve false q = cc

module _ {Share : Type 0} where
  -- The evidence of a blob is that of the key material that the codec reads from it: its key is the
  -- compressed point of the share, which is on the curve, and its hash is that of the chain code;
  -- here the coordinates of the points of the curve are below 2^256.
  pub inspect-IsPointOf :
      (gob : Gob Share) (is_on_curve : ℕ → ℕ → Bool) (sha256 : Bytes → Bytes)
      (ecdsa_pub : Share → Option (ℕ × ℕ)) (blob : Bytes) (evidence : EcdsaKeyMaterialEvidence)
      → ((x y : ℕ) → is_on_curve x y ≡ true → x < 2 ^ 256)
      → inspect_encoded_ecdsa_key_material gob is_on_curve sha256 ecdsa_pub blob ≡ ok evidence
      → (m : EcdsaKeyMaterial Share) × ((unmarshal_key_material gob blob ≡ ok m)
          × ((evidence.chain_code_hash ≡ sha256 m.chain_code)
              × ((x : ℕ) × ((y : ℕ) × ((ecdsa_pub m.share ≡ some (x, y))
                      × ((is_on_curve x y ≡ true) × IsPointOf evidence.account_public_key x y))))))
  unfolding inspect_encoded_ecdsa_key_material
  inspect-IsPointOf gob is_on_curve sha256 ecdsa_pub blob evidence bound h =
      let (m, read, h1) =
        >>=-eq-ok (unmarshal_key_material gob blob)
          (λ m. check_chain_code_length m.chain_code >>= (λ x.
            compressed_secp256k1_public_key is_on_curve (ecdsa_pub m.share)
            >>= (λ key. ok (evidence_of m key))))
          h in
      let (u, long, h2) =
        >>=-eq-ok (check_chain_code_length m.chain_code)
          (λ x.
            compressed_secp256k1_public_key is_on_curve (ecdsa_pub m.share)
            >>= (λ key. ok (evidence_of m key)))
          h1 in
      let (key, compressed, h3) =
        >>=-eq-ok (compressed_secp256k1_public_key is_on_curve (ecdsa_pub m.share))
          (λ key. ok (evidence_of m key)) h2 in
      let is : evidence_of m key ≡ evidence = cc in
      let (x, (y, (at_point, (on, point)))) =
        key-IsPointOf is_on_curve (ecdsa_pub m.share) key bound compressed in
      (
        m,
        (
          read,
          (
            sym (ap (λ e. e.chain_code_hash) is),
            (x, (y, (at_point, (on, subst (λ e. IsPointOf e.account_public_key x y) is point)))),
          ),
        ),
      )
    where
      evidence_of : EcdsaKeyMaterial Share → Bytes → EcdsaKeyMaterialEvidence
      evidence_of m key = record {
        version = codec_version;
        account_public_key = key;
        chain_code_hash = sha256 m.chain_code;
      }
