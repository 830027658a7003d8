-- ===== src/Shares.antt =====
-- internal/shares: the stored form of a key share (codec.go) and the public evidence that is read
-- from it (inspector.go). `encoding/gob` is the parameter `Gob`, whose `decode` gives the first
-- value of a blob and the bytes after it; a second `Decode` is at the end of the blob if there are
-- none. A copy of a buffer that is cleared afterwards is the value that it had. The recovered panic
-- of the inspector is that of a point without coordinates, which is `none`.
pub mod RoundTrip
pub mod Evidence
mod Tests
use brosettlement_mpc_core.Base.{
  ℕ, zero, suc, ◌+◌, ◌/◌, ◌%◌, ◌≡◌, Bool, true, false, not, ◌&&◌, ◌||◌, ◌==◌, Option, none, some,
  List, [], ◌∷◌, ◌++◌, Bytes, codes, ltb, ◌=?◌, if◌then◌else◌, Result, ok, err, ◌>>=◌, length,
}
use brosettlement_mpc_core.BigInt.{fill_bytes}

pub data CodecError : Type 0 where
  invalid_share_payload : CodecError
  unsupported_version : CodecError

abbrev pub codec_version : ℕ
codec_version = 2

abbrev pub max_key_material_blob_bytes : ℕ
max_key_material_blob_bytes = 1048576

pub record KeyMaterialMeta : Type 0 where
  pub chain_code : Bytes
  pub public_key_format : Bytes
  pub derivation_scheme : Bytes

-- `encodeCompressedSecp256k1Point`; the coordinates of a point are below 2^256.
unfoldable pub encode_compressed_secp256k1_point : ℕ → ℕ → Bytes
unfolding fill_bytes
encode_compressed_secp256k1_point x y = (2 + y % 2) ∷ fill_bytes 32 x

unfoldable pub compressed_secp256k1_public_key :
    (ℕ → ℕ → Bool) → Option (ℕ × ℕ) → Result CodecError Bytes
unfolding encode_compressed_secp256k1_point
compressed_secp256k1_public_key is_on_curve none = err invalid_share_payload
compressed_secp256k1_public_key is_on_curve (some (x, y)) =
    if (x == 0) && (y == 0) || not (is_on_curve x y)
    then err invalid_share_payload
    else ok (encode_compressed_secp256k1_point x y)

unfoldable pub validate_key_material_meta : KeyMaterialMeta → Result CodecError (Unit {0})
validate_key_material_meta meta =
    if not (length meta.chain_code == 32)
      || not (meta.public_key_format =? codes "uncompressed_hex")
      || not (meta.derivation_scheme =? codes "bip32_secp256k1")
    then err invalid_share_payload
    else ok tt

abbrev pub checked_size : Option Bytes → Result CodecError Bytes
checked_size none = err invalid_share_payload
checked_size (some blob) =
    if ltb max_key_material_blob_bytes (length blob) then err invalid_share_payload else ok blob

abbrev pub check_chain_code_length : Bytes → Result CodecError (Unit {0})
check_chain_code_length chain_code =
    if not (length chain_code == 32) then err invalid_share_payload else ok tt

-- types.go
pub record SaveShareInput : Type 0 where
  pub session_id : Bytes
  pub key_id : Bytes
  pub local_party_id : Bytes
  pub opaque_descriptor_fingerprint : Bytes
  pub codec_blob : Bytes

pub record EcdsaKeyMaterialEvidence : Type 0 where
  pub version : ℕ  -- uint32
  pub account_public_key : Bytes
  pub chain_code_hash : Bytes

module _ (Share : Type 0) where
  pub record EcdsaKeyMaterial : Type 0 where
    pub share : Share
    pub chain_code : Bytes
    pub public_key_format : Bytes
    pub derivation_scheme : Bytes

  pub record ShareEnvelope : Type 0 where
    pub version : ℕ  -- uint32
    pub share : Share
    pub meta : KeyMaterialMeta

  pub record Gob : Type 0 where
    pub encode : ShareEnvelope → Option Bytes
    pub decode : Bytes → Option (ShareEnvelope × Bytes)

module _ {Share : Type 0} where
  abbrev pub meta_of : EcdsaKeyMaterial Share → KeyMaterialMeta
  meta_of m = record {
    chain_code = m.chain_code;
    public_key_format = m.public_key_format;
    derivation_scheme = m.derivation_scheme;
  }

  abbrev pub material_of : ShareEnvelope Share → EcdsaKeyMaterial Share
  material_of env = record {
    share = env.share;
    chain_code = env.meta.chain_code;
    public_key_format = env.meta.public_key_format;
    derivation_scheme = env.meta.derivation_scheme;
  }

  unfoldable pub marshal_key_material : Gob Share → EcdsaKeyMaterial Share → Result CodecError Bytes
  marshal_key_material gob material = do
    _ ← validate_key_material_meta (meta_of material)
    checked_size (
        gob.encode
          (record { version = codec_version; share = material.share; meta = meta_of material }))

  abbrev pub decoded :
      Option (ShareEnvelope Share × Bytes) → Result CodecError (EcdsaKeyMaterial Share)
  decoded none = err invalid_share_payload
  decoded (some (env, rest)) =
      if not (length rest == 0)
      then err invalid_share_payload
      else if not (env.version == codec_version)
      then err unsupported_version
      else do _ ← validate_key_material_meta env.meta; ok (material_of env)

  unfoldable pub unmarshal_key_material :
      Gob Share → Bytes → Result CodecError (EcdsaKeyMaterial Share)
  unmarshal_key_material gob blob =
      if ltb max_key_material_blob_bytes (length blob)
      then err invalid_share_payload
      else decoded (gob.decode blob)

  -- `ecdsa_pub` is the point of a share, `none` for nil.
  unfoldable pub inspect_encoded_ecdsa_key_material :
      Gob Share
      → (ℕ → ℕ → Bool)
      → (Bytes → Bytes)
      → (Share → Option (ℕ × ℕ))
      → Bytes
      → Result CodecError EcdsaKeyMaterialEvidence
  inspect_encoded_ecdsa_key_material gob is_on_curve sha256 ecdsa_pub blob = do
    material ← unmarshal_key_material gob blob
    _ ← check_chain_code_length material.chain_code
    public_key ← compressed_secp256k1_public_key is_on_curve (ecdsa_pub material.share)
    ok (record {
      version = codec_version;
      account_public_key = public_key;
      chain_code_hash = sha256 material.chain_code;
    })
