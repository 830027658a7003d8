-- ===== src/Requests/Tests.antt =====
-- Runs of the request checks on concrete inputs, and the instances of the theorems about them.
use brosettlement_mpc_core.Base.{◌≡◌, refl, true, none, [], ◌∷◌, codes, ◌=?◌}
use brosettlement_mpc_core.Text.{trim_space}
use brosettlement_mpc_core.Requests.{SignRequest, validate_sign, is_valid_session_descriptor}

abbrev request : SignRequest
request = record {
  session = record {
    session_id = codes "s1";
    org_id = codes "o1";
    key_id = codes "k1";
    parties = codes "a" ∷ codes "b" ∷ [];
    threshold = 2;
  };
  local_party_id = codes "a";
  digest = codes "digest";
  has_transport = true;
}

request_accepted : validate_sign request ≡ none
unfolding validate_sign is_valid_session_descriptor trim_space ◌=?◌
request_accepted = refl
