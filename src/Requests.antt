-- ===== src/Requests.antt =====
-- internal/tss/requests/validate.go and internal/tssbnb/utils/build_params.go, but for the values
-- that it makes with tss-lib: whether a request is complete, and the parameters of a run.
mod Tests
use brosettlement_mpc_core.Base.{
  ℕ, ◌-◌, ◌+◌, ◌<◌, ◌≤◌, ◌≡◌, Bool, true, false, not, ◌||◌, ◌==◌, Option, none, some, List, [], ◌∷◌,
  Bytes, codes, ltb, ◌=?◌, if◌then◌else◌, Result, ok, err, length, arith,
}
use brosettlement_mpc_core.Text.{trim_space, to_lower}

pub record SessionDescriptor : Type 0 where
  pub session_id : Bytes
  pub org_id : Bytes
  pub key_id : Bytes
  pub parties : List Bytes
  pub threshold : ℕ  -- uint32

pub record DkgRequest : Type 0 where
  pub session : SessionDescriptor
  pub local_party_id : Bytes
  pub has_transport : Bool

pub record SignRequest : Type 0 where
  pub session : SessionDescriptor
  pub local_party_id : Bytes
  pub digest : Bytes
  pub has_transport : Bool

pub data RequestError : Type 0 where
  invalid_session : RequestError
  local_party_required : RequestError
  key_id_required : RequestError
  digest_required : RequestError
  transport_required : RequestError

unfoldable pub is_valid_session_descriptor : SessionDescriptor → Bool
is_valid_session_descriptor session =
    if (session.session_id =? []) || (session.org_id =? [])
    then false
    else if (length session.parties == 0) || (session.threshold == 0)
    then false
    else true

unfoldable pub validate_dkg : DkgRequest → Option RequestError
unfolding is_valid_session_descriptor
validate_dkg req =
    if not (is_valid_session_descriptor req.session)
    then some invalid_session
    else if trim_space req.local_party_id =? []
    then some local_party_required
    else if not req.has_transport
    then some transport_required
    else none

unfoldable pub validate_sign : SignRequest → Option RequestError
unfolding is_valid_session_descriptor
validate_sign req =
    if not (is_valid_session_descriptor req.session)
    then some invalid_session
    else if trim_space req.local_party_id =? []
    then some local_party_required
    else if trim_space req.session.key_id =? []
    then some key_id_required
    else if length req.digest == 0
    then some digest_required
    else if not req.has_transport
    then some transport_required
    else none

pub data ParamsError : Type 0 where
  too_few_parties : ParamsError
  invalid_signer_count : ParamsError
  unknown_local_party : ParamsError
  unsupported_curve : ParamsError
  unsupported_algorithm : ParamsError

-- tss-lib's threshold is one less than the number of signers; none is an error.
unfoldable pub to_tss_lib_threshold : ℕ → ℕ → Result ParamsError ℕ
to_tss_lib_threshold required party_count =
    if ltb required 2 || ltb party_count required
    then err invalid_signer_count
    else ok (required - 1)

abbrev pub occurs_in : Bytes → List Bytes → Bool
occurs_in p [] = false
occurs_in p (q ∷ qs) = (q =? p) || occurs_in p qs

-- The party map has the sorted parties; none is nil.
unfoldable pub pick_local_party_id : List Bytes → Bytes → Option Bytes
pick_local_party_id sorted requested =
    if not (requested =? [])
    then if occurs_in requested sorted then some requested else none
    else elim sorted [ [] ↦ none | p ∷ ps ↦ some p ]

pub data Curve : Type 0 where
  s256 : Curve
  edwards : Curve

-- `wide` is Unicode's case table, `equal_fold` is `strings.EqualFold`.
unfoldable pub select_curve :
    (Bytes → Bytes) → (Bytes → Bytes → Bool) → Bytes → Bytes → Result ParamsError Curve
select_curve wide equal_fold curve algorithm =
    let alg = to_lower wide (trim_space algorithm) in
    if (alg =? []) || (alg =? codes "ecdsa")
    then if curve =? []
      then ok s256
      else if to_lower wide (trim_space curve) =? codes "secp256k1"
      then ok s256
      else err unsupported_curve
    else if alg =? codes "eddsa"
    then if (curve =? []) || equal_fold curve (codes "ed25519")
      then ok edwards
      else err unsupported_curve
    else err unsupported_algorithm
