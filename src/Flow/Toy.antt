-- ===== src/Flow/Toy.antt =====
-- A small tss-lib for the tests: a party keeps the payloads it is given, and a key share is its
-- public bytes.
use brosettlement_mpc_core.Base.{true, none, List, [], ◌∷◌, Bytes, codes, ◌=?◌, ok, length}
use brosettlement_mpc_core.Execution.State.{Library}
use brosettlement_mpc_core.Flow.{TssLib, SignatureData}

abbrev pub toy_library : Library
toy_library = record {
  PartyId = Bytes;
  ParsedMessage = Bytes;
  Message = Bytes;
  Party = List Bytes;
  KeyShare = Bytes;
  Signature = SignatureData;
  parse_wire_message = λ payload from all. ok payload;
  update = λ party message. (message ∷ party, (true, none));
  msg_type = λ message. codes "SignRound1Message1";
  wire_bytes = λ message. ok (message, record { from = codes "a"; to = []; is_broadcast = true });
  sha256 = λ s. codes "Z";
}

abbrev pub toy : TssLib
toy = record {
  library = toy_library;
  PeerContext = List Bytes;
  Parameters = List Bytes;
  PreParams = Bytes;
  new_party_id = λ id moniker key. id;
  sort_party_ids = λ ids. ids;
  new_peer_context = λ ids. ids;
  new_parameters = λ curve ctx local count threshold. ctx;
  new_keygen_party = λ params pre. params;
  new_eddsa_keygen_party = λ params. params;
  new_signing_party = λ m params share delta. params;
  signature_data = λ sig. sig;
  has_ecdsa_pub = λ share. true;
  big_xj_length = λ share. length share;
  ks_length = λ share. length share;
  wide = λ s. s;
  equal_fold = λ s t. s =? t;
}
