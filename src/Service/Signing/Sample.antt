-- ===== src/Service/Signing/Sample.antt =====
-- A signing session with a small tss-lib, for the tests.
use brosettlement_mpc_core.Runner.{export_ecdsa_signature}
use brosettlement_mpc_core.Base.{
  Bytes, true, ok, ◌≡◌, refl, false, none, some, [], ◌∷◌, codes, ◌=?◌,
}
use brosettlement_mpc_core.Table.{lookup, delete}
use brosettlement_mpc_core.Text.{trim_space, to_lower}
use brosettlement_mpc_core.Text.Sort.{sort, insert, string_le}
use brosettlement_mpc_core.Requests.{to_tss_lib_threshold, pick_local_party_id, select_curve}
use brosettlement_mpc_core.Execution.State.{new_execution, mark_progress}
use brosettlement_mpc_core.Execution.Run.{
  run, run_loop, run_step, handle_event, finish_terminal_event,
}
use brosettlement_mpc_core.Flow.{count_outcome}
use brosettlement_mpc_core.Flow.Params.{build_params, party_map_from, stable_party_key}
use brosettlement_mpc_core.Flow.Toy.{toy}
use brosettlement_mpc_core.Flow.Sign as sign_flow
use brosettlement_mpc_core.Runner.{
  SignJob, set_ecdsa_signature, is_zero_ecdsa_share, on_signature, exported_error, finish_sign,
  run_sign,
}
use brosettlement_mpc_core.Runner.Sample.{choices, runner, stored_run}
use brosettlement_mpc_core.Derivation.Path.{
  normalize_child_path, parse_child_indices, parse_child_index,
}
use brosettlement_mpc_core.Text.{has_prefix, trim_prefix, split, contains_any}
use brosettlement_mpc_core.Text.Decimal.{parse_uint32}
use brosettlement_mpc_core.Derivation.Ecdsa.{
  PreparedEcdsaSigningShare, check_algorithm, check_derived_public_key, parse_child_path,
  derive_ecdsa_child_key, derive_ecdsa_child_key_for_context, prepare_ecdsa_signing_share,
  encode_uncompressed_secp256k1,
}
use brosettlement_mpc_core.Shares.{
  ShareEnvelope, unmarshal_key_material, validate_key_material_meta,
}
use brosettlement_mpc_core.Service.Errors.{share_not_found}
use brosettlement_mpc_core.Service.Wallet.{system, wallet_normal, normal_normalizes, wallet_hash}
use brosettlement_mpc_core.Service.Sign.{is_ecdsa, check_material, check_hash}
use brosettlement_mpc_core.Service.Dkg.{normalize_key_id}
use brosettlement_mpc_core.Service.Signing.{
  SignInput, SignParts, load_ecdsa_key_material, prepare_derived_ecdsa_sign_job, run_sign_session,
}

abbrev pub job : SignJob toy
job = record {
  session_id = codes "s";
  local_party_id = codes "a";
  org_id = codes "o";
  key_id = codes "k";
  parties = codes "b" ∷ codes "a" ∷ [];
  digest = 7 ∷ [];
  algorithm = codes "ecdsa";
  chain = codes "bitcoin";
  key_share = codes "adjusted";
  key_derivation_delta = some 1;
  derivation_context_hash = codes "5a";
}

pub session_named : (job.session_id =? []) ≡ false
unfolding ◌=?◌
session_named = refl

pub key_named : (job.key_id =? []) ≡ false
unfolding ◌=?◌
key_named = refl

signs : run_sign toy runner job (codes "c") 1 choices ≡ some (stored_run, none)
unfolding run_sign is_zero_ecdsa_share finish_sign on_signature exported_error set_ecdsa_signature
    sign_flow.run_sign sign_flow.new_sign_execution sign_flow.build_sign sign_flow.finish_sign
    sign_flow.after_run sign_flow.deliver_signature build_params party_map_from stable_party_key
    sort insert string_le to_tss_lib_threshold pick_local_party_id select_curve trim_space to_lower
    run run_loop run_step handle_event finish_terminal_event new_execution count_outcome
    mark_progress ◌=?◌ delete
signs = refl

abbrev pub input : SignInput
input = record {
  session_id = codes "s";
  local_party_id = codes "a";
  org_id = codes "o";
  key_id = codes "k";
  parties = codes "b" ∷ codes "a" ∷ [];
  digest = 7 ∷ [];
  algorithm = codes "ecdsa";
  curve = [];
  chain = codes "bitcoin";
  derivation_context = wallet_normal;
  derivation_context_hash = codes "5a";
  empty_key_err = share_not_found;
}

-- A store with one share.
abbrev pub envelope : ShareEnvelope Bytes
envelope = record {
  version = 2;
  share = codes "share";
  meta = record {
    chain_code = codes "0123456789abcdef0123456789abcdef";
    public_key_format = codes "uncompressed_hex";
    derivation_scheme = codes "bip32_secp256k1";
  };
}

abbrev pub parts : SignParts toy
parts = record {
  platform = system;
  ckd = record {
    is_on_curve = λ x y. true;
    derive_child_key = λ indices point chain_code. some (1, (8, 9));
    adjust_share = λ delta share child. some (codes "adjusted");
    ecdsa_pub = λ share. some (6, 7);
  };
  gob = record { encode = λ env. some []; decode = λ blob. some (envelope, []) };
  share_reader = some (λ key_id. ok (codes "blob"));
}

abbrev pub prepared : PreparedEcdsaSigningShare Bytes
prepared = record {
  share = codes "adjusted";
  derived_public_key = encode_uncompressed_secp256k1 parts.ckd.is_on_curve (8, 9);
  key_derivation_delta = 1;
}

share_prepared :
    prepare_ecdsa_signing_share system parts.ckd
      (codes "share")
      envelope.meta.chain_code
      wallet_normal
    ≡ ok prepared
unfolding prepare_ecdsa_signing_share derive_ecdsa_child_key_for_context check_algorithm
    parse_child_path derive_ecdsa_child_key check_derived_public_key normalize_child_path trim_space
    has_prefix trim_prefix split parse_child_indices parse_child_index contains_any parse_uint32
    ◌=?◌
share_prepared = rw normal_normalizes refl

job_prepared : prepare_derived_ecdsa_sign_job parts input ≡ ok job
unfolding prepare_derived_ecdsa_sign_job is_ecdsa to_lower trim_space ◌=?◌ load_ecdsa_key_material
    normalize_key_id unmarshal_key_material validate_key_material_meta check_material check_hash
job_prepared = rw (wallet_hash, share_prepared) refl

pub session_run :
    run_sign_session parts runner input (codes "c") 1 choices ≡ some (stored_run, none)
unfolding run_sign_session export_ecdsa_signature lookup ◌=?◌
session_run = rw (job_prepared, signs) refl
