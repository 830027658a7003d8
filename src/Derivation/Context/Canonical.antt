-- ===== src/Derivation/Context/Canonical.antt =====
-- What a normalised context looks like.
use brosettlement_mpc_core.Base.{
  ℕ, ◌≡◌, refl, sym, subst, ◌∙◌, ap, ◌⊎◌, inl, inr, true, false, List, [], Bytes, ◌=?◌, =?_iff,
  Result, ok, ◌>>=◌, >>=-eq-ok, Bool-cases,
}
use brosettlement_mpc_core.Text.{trim_space}
use brosettlement_mpc_core.Text.Trim.{trim_space_idem}
use brosettlement_mpc_core.Derivation.Path.{
  normalize_account_path, normalize_child_path, canonical_full_path,
}
use brosettlement_mpc_core.Derivation.Path.Account.{IsAccount, normalize_account_path-IsAccount}
use brosettlement_mpc_core.Derivation.Path.Child.{IsChild, normalize_child_path-IsChild}
use brosettlement_mpc_core.Derivation.PublicKey.{Platform, validate_uncompressed_secp256k1_hex}
use brosettlement_mpc_core.Derivation.Errors.{Error}
use brosettlement_mpc_core.Derivation.Context.{
  Context, algorithm_ecdsa, algorithm_eddsa, curve_secp256k1, curve_ed25519, scheme_bip32_secp256k1,
  scheme_bip32_public, scheme_slip10_ed25519, check_full_path, normalize_paths, set_paths,
  normalize_ecdsa_scheme, normalize_ecdsa_context, normalize_eddsa_context, trimmed, or_default,
  with_defaults, dispatch_algorithm, normalize_context,
}

-- The names of an ECDSA context: the curve, the scheme, and a public key that passed its check.
pub record IsEcdsa (p : Platform) (c : Context) : Type 0 where
  pub algorithm : c.algorithm ≡ algorithm_ecdsa
  pub curve : c.curve ≡ curve_secp256k1
  pub scheme : c.scheme ≡ scheme_bip32_secp256k1
  pub key : validate_uncompressed_secp256k1_hex p c.derived_public_key ≡ ok tt
  pub format_given : (c.public_key_format =? []) ≡ false

pub record IsEddsa (c : Context) : Type 0 where
  pub algorithm : c.algorithm ≡ algorithm_eddsa
  pub curve : c.curve ≡ curve_ed25519
  pub scheme : c.scheme ≡ scheme_slip10_ed25519

-- The three paths are canonical and fit together.
pub record HasPaths (account child full : Bytes) : Type 0 where
  pub indices : List ℕ
  pub is_account : IsAccount account
  pub is_child : IsChild child indices
  pub is_full : full ≡ canonical_full_path account child

pub record IsCanonical (p : Platform) (c : Context) : Type 0 where
  pub profile_given : (c.profile_id =? []) ≡ false
  pub profile_trimmed : trim_space c.profile_id ≡ c.profile_id
  pub template_trimmed : trim_space c.profile_template_id ≡ c.profile_template_id
  pub chain_trimmed : trim_space c.chain ≡ c.chain
  pub names : IsEcdsa p c ⊎ IsEddsa c
  pub paths : HasPaths c.account_path c.child_path c.full_path

normalize_paths_sound :
    (out : Context) (account child full : Bytes)
    → normalize_paths out ≡ ok (account, child, full)
    → HasPaths account child full
unfolding normalize_paths
normalize_paths_sound out account child full e =
    let (a, ha, e1) = >>=-eq-ok (normalize_account_path out.account_path) _ e in
    let (c, hc, e2) = >>=-eq-ok (normalize_child_path out.child_path) _ e1 in
    let (_, _, e3) = >>=-eq-ok (check_full_path out.full_path (canonical_full_path a c.0)) _ e2 in
    let same_account : a ≡ account = cc in
    let same_child : c.0 ≡ child = cc in
    let same_full : canonical_full_path a c.0 ≡ full = cc in
    record {
      indices = c.1;
      is_account =
          normalize_account_path-IsAccount out.account_path account (ha ∙ ap ok same_account);
      is_child = rw same_child at (normalize_child_path-IsChild out.child_path c.0 c.1 hc);
      is_full = sym same_full ∙ cc;
    }

normalize_ecdsa_scheme_sound :
    (s t : Bytes) → normalize_ecdsa_scheme s ≡ ok t → t ≡ scheme_bip32_secp256k1
unfolding normalize_ecdsa_scheme
normalize_ecdsa_scheme_sound s t e = elim (Bool-cases (s =? scheme_bip32_public)) [
  | inl h ↦ cc (rw h at e)
  | inr h ↦ elim (Bool-cases (s =? scheme_bip32_secp256k1)) [
    | inl k ↦ cc (rw (h, k) at e, (=?_iff s scheme_bip32_secp256k1).0 k)
    | inr k ↦ absurd (cc (rw (h, k) at e))
  ]
]

-- The fields that the second half of the normalisation leaves alone.
record Keeps (base out : Context) : Type 0 where
  profile : out.profile_id ≡ base.profile_id
  template : out.profile_template_id ≡ base.profile_template_id
  chain : out.chain ≡ base.chain
  algorithm : out.algorithm ≡ base.algorithm
  format : out.public_key_format ≡ base.public_key_format

abbrev Good : (Context → Type 0) → Context → Context → Type 0
Good Names base out =
    Names out × Keeps base out × HasPaths out.account_path out.child_path out.full_path

kept :
    (base : Context) (scheme account child full : Bytes)
    → Keeps base (set_paths (record base { scheme = scheme }) (account, child, full))
kept base scheme account child full = record {
  profile = refl;
  template = refl;
  chain = refl;
  algorithm = refl;
  format = refl;
}

module _ (p : Platform) (base out : Context) (alg : base.algorithm ≡ algorithm_ecdsa)
    (format : (base.public_key_format =? []) ≡ false) (curve : base.curve ≡ curve_secp256k1) where
  IsEcdsa-keyed :
      (scheme account child full : Bytes)
      → scheme ≡ scheme_bip32_secp256k1
      → HasPaths account child full
      → (u : Unit {0}) × (validate_uncompressed_secp256k1_hex p base.derived_public_key ≡ ok u)
        × (◌≡◌ {A = Result Error Context}
            (ok (set_paths (record base { scheme = scheme }) (account, child, full)))
            (ok out))
      → Good (IsEcdsa p) base out
  IsEcdsa-keyed scheme account child full hs hp (u, hk, e) =
      subst (Good (IsEcdsa p) base)
        {x = set_paths (record base { scheme = scheme }) (account, child, full)} (cc)
        (
          record { algorithm = alg; curve = curve; scheme = hs; key = hk; format_given = format },
          kept base scheme account child full,
          hp,
        )

  IsEcdsa-pathed :
      (scheme : Bytes)
      → scheme ≡ scheme_bip32_secp256k1
      → (paths : Bytes × Bytes × Bytes) × (normalize_paths base ≡ ok paths)
        × ((do
          _ ← validate_uncompressed_secp256k1_hex p base.derived_public_key
          ok (set_paths (record base { scheme = scheme }) paths))
            ≡ ok out)
      → Good (IsEcdsa p) base out
  IsEcdsa-pathed scheme hs ((account, child, full), hp, e) =
      IsEcdsa-keyed scheme account child full hs (normalize_paths_sound base account child full hp)
        (>>=-eq-ok (validate_uncompressed_secp256k1_hex p base.derived_public_key) _ e)

  IsEcdsa-schemed :
      (scheme : Bytes) × (normalize_ecdsa_scheme base.scheme ≡ ok scheme)
        × ((do
          paths ← normalize_paths base
          _ ← validate_uncompressed_secp256k1_hex p base.derived_public_key
          ok (set_paths (record base { scheme = scheme }) paths))
            ≡ ok out)
      → Good (IsEcdsa p) base out
  IsEcdsa-schemed (scheme, hs, e) =
      IsEcdsa-pathed scheme (normalize_ecdsa_scheme_sound base.scheme scheme hs)
        (>>=-eq-ok (normalize_paths base) _ e)

normalize_ecdsa_context_sound :
    (p : Platform) (base out : Context)
    → base.algorithm ≡ algorithm_ecdsa
    → (base.public_key_format =? []) ≡ false
    → normalize_ecdsa_context p base ≡ ok out
    → Good (IsEcdsa p) base out
unfolding normalize_ecdsa_context
normalize_ecdsa_context_sound p base out alg format e =
    elim (Bool-cases (base.curve =? curve_secp256k1)) [
      | inl same ↦
          IsEcdsa-schemed p base out alg format ((=?_iff base.curve curve_secp256k1).0 same)
            (>>=-eq-ok (normalize_ecdsa_scheme base.scheme) _ (rw same at e))
      | inr other ↦ absurd (cc (rw other at e))
    ]

IsEddsa-pathed :
    (base out : Context)
    → base.algorithm ≡ algorithm_eddsa
    → base.curve ≡ curve_ed25519
    → base.scheme ≡ scheme_slip10_ed25519
    → (paths : Bytes × Bytes × Bytes) × (normalize_paths base ≡ ok paths)
      × (◌≡◌ {A = Result Error Context} (ok (set_paths base paths)) (ok out))
    → Good IsEddsa base out
IsEddsa-pathed base out alg curve scheme ((account, child, full), hp, e) =
    subst (Good IsEddsa base) {x = set_paths base (account, child, full)} (cc) (
      record { algorithm = alg; curve = curve; scheme = scheme },
      kept base base.scheme account child full,
      normalize_paths_sound base account child full hp,
    )

normalize_eddsa_context_sound :
    (base out : Context)
    → base.algorithm ≡ algorithm_eddsa
    → normalize_eddsa_context base ≡ ok out
    → Good IsEddsa base out
unfolding normalize_eddsa_context
normalize_eddsa_context_sound base out alg e = elim (Bool-cases (base.curve =? curve_ed25519)) [
  | inr other ↦ absurd (cc (rw other at e))
  | inl same ↦ elim (Bool-cases (base.scheme =? scheme_slip10_ed25519)) [
    | inr other ↦ absurd (cc (rw (same, other) at e))
    | inl known ↦
        IsEddsa-pathed base out alg ((=?_iff base.curve curve_ed25519).0 same)
          ((=?_iff base.scheme scheme_slip10_ed25519).0 known)
          (>>=-eq-ok (normalize_paths base) _ (rw (same, known) at e))
  ]
]

-- The default for the format leaves no empty format behind in an ECDSA context.
format_given :
    (c : Context)
    → (with_defaults c).algorithm ≡ algorithm_ecdsa
    → ((with_defaults c).public_key_format =? []) ≡ false
unfolding with_defaults ◌=?◌
format_given c e = elim (Bool-cases (c.public_key_format =? [])) [
  | inl h ↦ rw ((=?_iff (or_default true algorithm_ecdsa c.algorithm) algorithm_ecdsa).1 e, h)
  | inr h ↦ rw h h
]

dispatch_algorithm_sound :
    (p : Platform) (base out : Context)
    → (base.algorithm ≡ algorithm_ecdsa → (base.public_key_format =? []) ≡ false)
    → dispatch_algorithm p base ≡ ok out
    → Good (λ c. IsEcdsa p c ⊎ IsEddsa c) base out
unfolding dispatch_algorithm
dispatch_algorithm_sound p base out format e =
    elim (Bool-cases (base.algorithm =? algorithm_ecdsa)) [
      | inl ecdsa ↦
          let alg = (=?_iff base.algorithm algorithm_ecdsa).0 ecdsa in
          let (names, keeps, paths) =
            normalize_ecdsa_context_sound p base out alg (format alg) (rw ecdsa at e) in
          (inl names, keeps, paths)
      | inr other ↦ elim (Bool-cases (base.algorithm =? algorithm_eddsa)) [
        | inl eddsa ↦
            let (names, keeps, paths) =
              normalize_eddsa_context_sound base out
                ((=?_iff base.algorithm algorithm_eddsa).0 eddsa) (rw (other, eddsa) at e) in
            (inr names, keeps, paths)
        | inr unknown ↦ absurd (cc (rw (other, unknown) at e))
      ]
    ]

-- An accepted context comes out canonical, and its public key format is the given one, trimmed and
-- in lower case, or the default.
pub normalize_context-IsCanonical :
    (p : Platform) (c out : Context)
    → normalize_context p c ≡ ok out
    → IsCanonical p out × (out.public_key_format ≡ (with_defaults (trimmed p c)).public_key_format)
unfolding normalize_context trimmed with_defaults
normalize_context-IsCanonical p c out e = elim (Bool-cases (trim_space c.profile_id =? [])) [
  | inl missing ↦ absurd (cc (rw missing at e))
  | inr given ↦
      let base = with_defaults (trimmed p c) in
      let (names, keeps, paths) =
        dispatch_algorithm_sound p base out (format_given (trimmed p c)) (rw given at e) in
      (canonical names keeps paths given, keeps.format)
]
  where
    canonical :
        IsEcdsa p out ⊎ IsEddsa out
        → Keeps (with_defaults (trimmed p c)) out
        → HasPaths out.account_path out.child_path out.full_path
        → (trim_space c.profile_id =? []) ≡ false
        → IsCanonical p out
    canonical names keeps paths given = record {
      profile_given = ap (λ s. s =? []) keeps.profile ∙ given;
      profile_trimmed =
          ap trim_space keeps.profile ∙ trim_space_idem c.profile_id ∙ sym keeps.profile;
      template_trimmed =
          ap trim_space keeps.template ∙ trim_space_idem c.profile_template_id ∙ sym keeps.template;
      chain_trimmed = ap trim_space keeps.chain ∙ trim_space_idem c.chain ∙ sym keeps.chain;
      names = names;
      paths = paths;
    }
