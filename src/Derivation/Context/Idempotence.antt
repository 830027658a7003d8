-- ===== src/Derivation/Context/Idempotence.antt =====
-- A canonical context is kept by `NormalizeContext`.
use brosettlement_mpc_core.Base.{
  ◌≡◌, refl, sym, ◌∙◌, ap, subst, ◌⊎◌, inl, inr, Bool, true, false, ◌&&◌, if◌then◌else◌, [], ◌∷◌,
  Bytes, ◌=?◌, =?_iff, =?_refl, ok, Bool-cases,
}
use brosettlement_mpc_core.Text.{trim_space, to_lower, is_ascii}
use brosettlement_mpc_core.Text.Trim.{trim_space_idem}
use brosettlement_mpc_core.Text.Lower.{to_lower_idem, trim_space-to_lower}
use brosettlement_mpc_core.Derivation.Path.{canonical_full_path}
use brosettlement_mpc_core.Derivation.Path.Account.{normalize_account_path_canonical}
use brosettlement_mpc_core.Derivation.Path.Child.{normalize_child_path_canonical}
use brosettlement_mpc_core.Derivation.Path.Full.{normalize_full_path_canonical}
use brosettlement_mpc_core.Derivation.PublicKey.{Platform}
use brosettlement_mpc_core.Derivation.Context.{
  Context, algorithm_ecdsa, algorithm_eddsa, curve_secp256k1, curve_ed25519, scheme_slip10_ed25519,
  public_key_format_uncompressed_hex, check_full_path, normalize_paths, normalize_ecdsa_context,
  normalize_eddsa_context, normalize_ecdsa_scheme, trimmed, with_defaults, or_default,
  dispatch_algorithm, normalize_context,
}
use brosettlement_mpc_core.Derivation.Context.Canonical.{
  IsEcdsa, IsEddsa, HasPaths, IsCanonical, normalize_context-IsCanonical,
}

check_full_path_canonical :
    (account child full : Bytes)
    → HasPaths account child full
    → check_full_path full (canonical_full_path account child) ≡ ok tt
unfolding check_full_path
check_full_path_canonical account child full h = elim (Bool-cases (trim_space full =? [])) [
  | inl missing ↦ rw missing
  | inr given ↦ rw given (
      rw h.is_full (
        rw (
          normalize_full_path_canonical account child h.indices h.is_account h.is_child,
          =?_refl (canonical_full_path account child),
        )))
]

normalize_paths_canonical :
    (c : Context)
    → HasPaths c.account_path c.child_path c.full_path
    → normalize_paths c ≡ ok (c.account_path, c.child_path, c.full_path)
unfolding normalize_paths
normalize_paths_canonical c h =
    rw
      (
        normalize_account_path_canonical c.account_path h.is_account,
        normalize_child_path_canonical c.child_path h.indices h.is_child,
        check_full_path_canonical c.account_path c.child_path c.full_path h,
      )
      (ap (λ f. ok (c.account_path, c.child_path, f)) (sym h.is_full))

normalize_ecdsa_context_canonical :
    (p : Platform) (c : Context)
    → IsEcdsa p c
    → HasPaths c.account_path c.child_path c.full_path
    → normalize_ecdsa_context p c ≡ ok c
unfolding normalize_ecdsa_context normalize_ecdsa_scheme
normalize_ecdsa_context_canonical p c h paths =
    let curve = (=?_iff c.curve curve_secp256k1).1 h.curve in
    let scheme : normalize_ecdsa_scheme c.scheme ≡ ok c.scheme =
      rw h.scheme (unfold ◌=?◌ in refl) in
    rw (curve, scheme, normalize_paths_canonical c paths, h.key)

normalize_eddsa_context_canonical :
    (c : Context)
    → IsEddsa c
    → HasPaths c.account_path c.child_path c.full_path
    → normalize_eddsa_context c ≡ ok c
unfolding normalize_eddsa_context
normalize_eddsa_context_canonical c h paths =
    let curve = (=?_iff c.curve curve_ed25519).1 h.curve in
    let scheme = (=?_iff c.scheme scheme_slip10_ed25519).1 h.scheme in
    rw (curve, scheme, normalize_paths_canonical c paths)

-- A name that is written with lower-case letters and no outer space is kept.
IsPlain : Platform → Bytes → Type 0
IsPlain p s = to_lower p.wide (trim_space s) ≡ s

and_false : (b : Bool) (s t : Bytes) → (if b && false then s else t) ≡ t
and_false true s t = refl
and_false false s t = refl

module _ (p : Platform) where
  IsPlain-names :
      (c : Context)
      → IsEcdsa p c ⊎ IsEddsa c
      → IsPlain p c.algorithm × IsPlain p c.curve × IsPlain p c.scheme
  unfolding IsPlain trim_space to_lower
  IsPlain-names c (inl h) = (rw h.algorithm, rw h.curve, rw h.scheme)
  IsPlain-names c (inr h) = (rw h.algorithm, rw h.curve, rw h.scheme)

  trimmed_canonical :
      (c : Context) → IsCanonical p c → IsPlain p c.public_key_format → trimmed p c ≡ c
  unfolding trimmed IsPlain
  trimmed_canonical c h format =
      let (algorithm, curve, scheme) = IsPlain-names c h.names in
      λ i. record c {
        profile_id = h.profile_trimmed i;
        profile_template_id = h.template_trimmed i;
        chain = h.chain_trimmed i;
        algorithm = algorithm i;
        curve = curve i;
        scheme = scheme i;
        public_key_format = format i;
      }

  with_defaults_canonical : (c : Context) → IsEcdsa p c ⊎ IsEddsa c → with_defaults c ≡ c
  unfolding with_defaults ◌=?◌
  with_defaults_canonical c (inl h) =
      let algorithm : or_default true algorithm_ecdsa c.algorithm ≡ c.algorithm = rw h.algorithm in
      let ecdsa = or_default true algorithm_ecdsa c.algorithm =? algorithm_ecdsa in
      let format : or_default ecdsa public_key_format_uncompressed_hex c.public_key_format
          ≡ c.public_key_format =
        rw h.format_given in
      let curve : or_default ecdsa curve_secp256k1 c.curve ≡ c.curve = rw h.curve in
      λ i. record c { algorithm = algorithm i; public_key_format = format i; curve = curve i }
  with_defaults_canonical c (inr h) =
      let algorithm : or_default true algorithm_ecdsa c.algorithm ≡ c.algorithm = rw h.algorithm in
      let ecdsa = or_default true algorithm_ecdsa c.algorithm =? algorithm_ecdsa in
      let other : ecdsa ≡ false = rw h.algorithm in
      let format : or_default ecdsa public_key_format_uncompressed_hex c.public_key_format
          ≡ c.public_key_format =
        rw other (and_false (c.public_key_format =? []) _ _) in
      let curve : or_default ecdsa curve_secp256k1 c.curve ≡ c.curve = rw h.curve in
      λ i. record c { algorithm = algorithm i; public_key_format = format i; curve = curve i }

  dispatch_algorithm_canonical :
      (c : Context)
      → IsEcdsa p c ⊎ IsEddsa c
      → HasPaths c.account_path c.child_path c.full_path
      → dispatch_algorithm p c ≡ ok c
  unfolding dispatch_algorithm
  dispatch_algorithm_canonical c (inl h) paths =
      rw ((=?_iff c.algorithm algorithm_ecdsa).1 h.algorithm)
        (normalize_ecdsa_context_canonical p c h paths)
  dispatch_algorithm_canonical c (inr h) paths =
      let other : (c.algorithm =? algorithm_ecdsa) ≡ false = rw h.algorithm (unfold ◌=?◌ in refl) in
      rw (other, (=?_iff c.algorithm algorithm_eddsa).1 h.algorithm)
        (normalize_eddsa_context_canonical c h paths)

  normalize_context_canonical :
      (c : Context) → IsCanonical p c → IsPlain p c.public_key_format → normalize_context p c ≡ ok c
  unfolding normalize_context
  normalize_context_canonical c h format =
      let given : (trim_space c.profile_id =? []) ≡ false =
        ap (λ s. s =? []) h.profile_trimmed ∙ h.profile_given in
      rw given (
        ap (λ d. dispatch_algorithm p (with_defaults d)) (trimmed_canonical c h format)
        ∙ ap (dispatch_algorithm p) (with_defaults_canonical c h.names)
        ∙ dispatch_algorithm_canonical c h.names h.paths)

  IsPlain-format :
      (s : Bytes) → is_ascii (trim_space s) ≡ true → IsPlain p (to_lower p.wide (trim_space s))
  unfolding IsPlain
  IsPlain-format s ascii =
      ap (to_lower p.wide) (trim_space-to_lower p.wide (trim_space s) ascii (trim_space_idem s))
      ∙ to_lower_idem p.wide (trim_space s) ascii

  IsPlain-default :
      (b : Bool) (s : Bytes)
      → IsPlain p s
      → IsPlain p (or_default b public_key_format_uncompressed_hex s)
  unfolding IsPlain trim_space to_lower ◌=?◌
  IsPlain-default true [] h = refl
  IsPlain-default false [] h = h
  IsPlain-default b (c ∷ s) h = h

  -- Normalising a context twice is normalising it once, if the public key format is ASCII.
  pub normalize_context_idem :
      (c out : Context)
      → is_ascii (trim_space c.public_key_format) ≡ true
      → normalize_context p c ≡ ok out
      → normalize_context p out ≡ ok out
  unfolding trimmed with_defaults
  normalize_context_idem c out ascii e =
      let (canonical, format) = normalize_context-IsCanonical p c out e in
      normalize_context_canonical out canonical (
        subst (IsPlain p) (sym format)
          (IsPlain-default _ _ (IsPlain-format c.public_key_format ascii)))
