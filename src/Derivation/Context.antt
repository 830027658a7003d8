-- ===== src/Derivation/Context.antt =====
-- internal/tss/derivation/context.go, with the two `normalize…Context` functions of path.go.
pub mod Canonical
pub mod Idempotence
use brosettlement_mpc_core.Base.{
  ℕ, ◌≡◌, refl, Bool, true, false, not, ◌&&◌, ◌||◌, List, [], Bytes, codes, ◌=?◌, if◌then◌else◌,
  Result, ok, err, ◌>>=◌,
}
use brosettlement_mpc_core.Text.{trim_space, to_lower}
use brosettlement_mpc_core.Derivation.Errors.{
  Error, invalid_context, path_invalid, unsupported_scheme, unsupported_algorithm_curve,
}
use brosettlement_mpc_core.Derivation.Path.{
  normalize_account_path, normalize_child_path, normalize_full_path, canonical_full_path,
}
use brosettlement_mpc_core.Derivation.PublicKey.{Platform, validate_uncompressed_secp256k1_hex}

abbrev pub algorithm_ecdsa : Bytes
algorithm_ecdsa = codes "ecdsa"

abbrev pub algorithm_eddsa : Bytes
algorithm_eddsa = codes "eddsa"

abbrev pub curve_secp256k1 : Bytes
curve_secp256k1 = codes "secp256k1"

abbrev pub curve_ed25519 : Bytes
curve_ed25519 = codes "ed25519"

abbrev pub scheme_bip32_secp256k1 : Bytes
scheme_bip32_secp256k1 = codes "bip32_secp256k1"

abbrev pub scheme_bip32_public : Bytes
scheme_bip32_public = codes "bip32_public"

abbrev pub scheme_slip10_ed25519 : Bytes
scheme_slip10_ed25519 = codes "slip10_ed25519"

abbrev pub public_key_format_uncompressed_hex : Bytes
public_key_format_uncompressed_hex = codes "uncompressed_hex"

pub record Context : Type 0 where
  pub profile_id : Bytes
  pub profile_template_id : Bytes
  pub chain : Bytes
  pub algorithm : Bytes
  pub curve : Bytes
  pub scheme : Bytes
  pub public_key_format : Bytes
  pub account_path : Bytes
  pub child_path : Bytes
  pub full_path : Bytes
  pub address_encoding : Bytes
  pub expected_address : Bytes
  pub derived_public_key : Bytes
  pub descriptor : Bytes
  pub descriptor_version : ℕ  -- uint32
  pub profile_version : ℕ  -- uint32
  pub key_version : ℕ  -- uint32

pub record Session : Type 0 where
  pub algorithm : Bytes
  pub curve : Bytes
  pub chain : Bytes

-- `out.FullPath` is checked against the path that the other two make, if it is given.
unfoldable pub check_full_path : Bytes → Bytes → Result Error (Unit {0})
check_full_path given full =
    if trim_space given =? []
    then ok tt
    else do got ← normalize_full_path given; if got =? full then ok tt else err path_invalid

-- The part that `normalizeECDSAContext` and `normalizeEdDSAContext` share, as written in both.
unfoldable pub normalize_paths : Context → Result Error (Bytes × Bytes × Bytes)
unfolding check_full_path
normalize_paths out = do
  account ← normalize_account_path out.account_path
  child ← normalize_child_path out.child_path
  let full = canonical_full_path account child.0
  _ ← check_full_path out.full_path full
  ok (account, child.0, full)

abbrev pub set_paths : Context → Bytes × Bytes × Bytes → Context
set_paths out (account, child, full) = record out {
  account_path = account;
  child_path = child;
  full_path = full;
}

unfoldable pub normalize_ecdsa_scheme : Bytes → Result Error Bytes
normalize_ecdsa_scheme scheme =
    if scheme =? scheme_bip32_public
    then ok scheme_bip32_secp256k1
    else if scheme =? scheme_bip32_secp256k1
    then ok scheme
    else err unsupported_scheme

unfoldable pub normalize_ecdsa_context : Platform → Context → Result Error Context
unfolding normalize_ecdsa_scheme
normalize_ecdsa_context p out =
    if not (out.curve =? curve_secp256k1) then err unsupported_algorithm_curve else do
      scheme ← normalize_ecdsa_scheme out.scheme
      paths ← normalize_paths out
      _ ← validate_uncompressed_secp256k1_hex p out.derived_public_key
      ok (set_paths (record out { scheme = scheme }) paths)

unfoldable pub normalize_eddsa_context : Context → Result Error Context
normalize_eddsa_context out =
    if not (out.curve =? curve_ed25519)
    then err unsupported_algorithm_curve
    else if not (out.scheme =? scheme_slip10_ed25519)
    then err unsupported_scheme
    else do paths ← normalize_paths out; ok (set_paths out paths)

-- The first lines of `NormalizeContext`: outer space goes, and names are lower case.
unfoldable pub trimmed : Platform → Context → Context
trimmed p c = record c {
  profile_id = trim_space c.profile_id;
  profile_template_id = trim_space c.profile_template_id;
  chain = trim_space c.chain;
  algorithm = to_lower p.wide (trim_space c.algorithm);
  curve = to_lower p.wide (trim_space c.curve);
  scheme = to_lower p.wide (trim_space c.scheme);
  public_key_format = to_lower p.wide (trim_space c.public_key_format);
}

abbrev pub or_default : Bool → Bytes → Bytes → Bytes
or_default applies default given = if (given =? []) && applies then default else given

unfoldable pub with_defaults : Context → Context
with_defaults c =
    let algorithm = or_default true algorithm_ecdsa c.algorithm in
    let ecdsa = algorithm =? algorithm_ecdsa in
    record c {
      algorithm = algorithm;
      public_key_format = or_default ecdsa public_key_format_uncompressed_hex c.public_key_format;
      curve = or_default ecdsa curve_secp256k1 c.curve;
    }

unfoldable pub dispatch_algorithm : Platform → Context → Result Error Context
dispatch_algorithm p out =
    if out.algorithm =? algorithm_ecdsa
    then normalize_ecdsa_context p out
    else if out.algorithm =? algorithm_eddsa
    then normalize_eddsa_context out
    else err unsupported_algorithm_curve

unfoldable pub normalize_context : Platform → Context → Result Error Context
unfolding trimmed with_defaults dispatch_algorithm
normalize_context p c =
    if trim_space c.profile_id =? []
    then err invalid_context
    else dispatch_algorithm p (with_defaults (trimmed p c))

unfoldable pub compare_session : Context → Bytes → Bytes → Bytes → Result Error (Unit {0})
compare_session nctx alg curve chain =
    if not (nctx.algorithm =? alg) || not (nctx.curve =? curve)
    then err unsupported_algorithm_curve
    else if not (nctx.chain =? []) && not (chain =? []) && not (nctx.chain =? chain)
    then err invalid_context
    else ok tt

unfoldable pub match_session : Platform → Context → Session → Result Error (Unit {0})
unfolding compare_session
match_session p ctx session = do
  nctx ← normalize_context p ctx
  let alg = or_default true algorithm_ecdsa (to_lower p.wide (trim_space session.algorithm))
  let curve =
      or_default (alg =? algorithm_ecdsa) curve_secp256k1
        (to_lower p.wide (trim_space session.curve))
  compare_session nctx alg curve (trim_space session.chain)
