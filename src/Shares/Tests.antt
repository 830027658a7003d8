-- ===== src/Shares/Tests.antt =====
-- The codec with a small gob, and the instances of the theorems about it.
use brosettlement_mpc_core.Base.{
  ℕ, ◌<◌, ◌^◌, ◌≤◌, ◌≡◌, refl, ap, sym, ◌∙◌, take-append, drop-append, ◌&&◌, true, Bool, Option,
  none, some, [], ◌∷◌, ◌++◌, Bytes, codes, ◌=?◌, ◌==◌, ok, length, take, drop, arith,
}
use brosettlement_mpc_core.BigInt.{fill_bytes}
use brosettlement_mpc_core.Service.Sign.{check_material}
use brosettlement_mpc_core.Shares.{
  EcdsaKeyMaterial, ShareEnvelope, Gob, EcdsaKeyMaterialEvidence, max_key_material_blob_bytes,
  validate_key_material_meta, marshal_key_material, unmarshal_key_material,
  compressed_secp256k1_public_key, encode_compressed_secp256k1_point,
  inspect_encoded_ecdsa_key_material,
}
use brosettlement_mpc_core.Shares.RoundTrip.{
  stored_material, unmarshal-marshal_key_material, unmarshal_key_material-check_material,
}
use brosettlement_mpc_core.Shares.Evidence.{IsPointOf, inspect-IsPointOf}

-- A share is a number; the lengths of the three strings stand before them.
abbrev written : ShareEnvelope ℕ → Bytes
written env =
    env.version
    ∷ env.share
    ∷ length env.meta.chain_code
    ∷ length env.meta.public_key_format
    ∷ length env.meta.derivation_scheme
    ∷ (env.meta.chain_code ++ (env.meta.public_key_format ++ (env.meta.derivation_scheme ++ [])))

abbrev read : Bytes → Option (ShareEnvelope ℕ × Bytes)
read (version ∷ share ∷ a ∷ b ∷ c ∷ rest) = some (
  record {
    version = version;
    share = share;
    meta = record {
      chain_code = take a rest;
      public_key_format = take b (drop a rest);
      derivation_scheme = take c (drop b (drop a rest));
    };
  },
  drop c (drop b (drop a rest)),
)
read s = none

read-written : (env : ShareEnvelope ℕ) → read (written env) ≡ some (env, [])
read-written env =
    rw
      (
        take-append env.meta.chain_code,
        drop-append env.meta.chain_code,
        take-append env.meta.public_key_format,
        drop-append env.meta.public_key_format,
        take-append env.meta.derivation_scheme,
        drop-append env.meta.derivation_scheme,
      )
      refl

abbrev gob : Gob ℕ
gob = record { encode = λ env. some (written env); decode = read }

gob-read :
    (env : ShareEnvelope ℕ) (b : Bytes) → gob.encode env ≡ some b → gob.decode b ≡ some (env, [])
gob-read env b h = let is : written env ≡ b = cc in ap read (sym is) ∙ read-written env

abbrev material : EcdsaKeyMaterial ℕ
material = record {
  share = 5;
  chain_code = codes "0123456789abcdef0123456789abcdef";
  public_key_format = codes "uncompressed_hex";
  derivation_scheme = codes "bip32_secp256k1";
}

abbrev blob : Bytes
blob = written (record {
  version = 2;
  share = 5;
  meta = record {
    chain_code = codes "0123456789abcdef0123456789abcdef";
    public_key_format = codes "uncompressed_hex";
    derivation_scheme = codes "bip32_secp256k1";
  };
})

marshals : marshal_key_material gob material ≡ ok blob
unfolding marshal_key_material validate_key_material_meta ◌=?◌
marshals = refl

unmarshals : unmarshal_key_material gob blob ≡ ok material
unfolding unmarshal_key_material validate_key_material_meta ◌=?◌
unmarshals = refl

unmarshal-marshal_key_material_example : unmarshal_key_material gob blob ≡ ok material
unmarshal-marshal_key_material_example =
    unmarshal-marshal_key_material gob material blob gob-read marshals

unmarshal_key_material-check_material_example :
    (length blob ≤ max_key_material_blob_bytes)
    × (check_material (stored_material material) ≡ ok tt)
unmarshal_key_material-check_material_example =
    unmarshal_key_material-check_material gob blob material unmarshals

-- A curve of one point, which is the point of every share.
abbrev one_point : ℕ → ℕ → Bool
one_point x y = (x == 7) && (y == 9)

one_point-lt : (x y : ℕ) → one_point x y ≡ true → x < 2 ^ 256
one_point-lt x y h = let seven : x ≡ 7 = ground (arith, h) in rw seven (omega arith)

abbrev evidence : EcdsaKeyMaterialEvidence
evidence = record {
  version = 2;
  account_public_key = 3 ∷ fill_bytes 32 7;
  chain_code_hash = material.chain_code;
}

inspected :
    inspect_encoded_ecdsa_key_material gob one_point (λ s. s) (λ share. some (7, 9)) blob
    ≡ ok evidence
unfolding inspect_encoded_ecdsa_key_material compressed_secp256k1_public_key
    encode_compressed_secp256k1_point
inspected = rw unmarshals refl

inspect-IsPointOf_example :
    (m : EcdsaKeyMaterial ℕ) × ((unmarshal_key_material gob blob ≡ ok m)
      × ((evidence.chain_code_hash ≡ m.chain_code)
          × ((x : ℕ) × ((y : ℕ) × (◌≡◌ {A = Option (ℕ × ℕ)} (some (7, 9)) (some (x, y))
                  × ((one_point x y ≡ true) × IsPointOf evidence.account_public_key x y))))))
inspect-IsPointOf_example =
    inspect-IsPointOf gob one_point (λ s. s) (λ share. some (7, 9)) blob evidence one_point-lt
      inspected
