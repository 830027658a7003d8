-- ===== src/Service/Dkg/Tests.antt =====
-- A session of the key generation over the runner with a small tss-lib, and the instances of the
-- theorems about sessions.
use brosettlement_mpc_core.Base.{
  ◌≡◌, refl, ◌⊎◌, true, false, Option, none, some, List, [], ◌∷◌, Bytes, codes, ◌=?◌, ok, err,
}
use brosettlement_mpc_core.Text.{trim_space, to_lower, has_prefix}
use brosettlement_mpc_core.Text.Sort.{sort, insert, string_le}
use brosettlement_mpc_core.Requests.{to_tss_lib_threshold, pick_local_party_id, select_curve}
use brosettlement_mpc_core.RunnerConfig.{default_runner_config}
use brosettlement_mpc_core.Derivation.PublicKey.{hex_decode, hex_digit}
use brosettlement_mpc_core.Derivation.Hash.{hex_encode}
use brosettlement_mpc_core.BigInt.{fill_bytes}
use brosettlement_mpc_core.Derivation.Ecdsa.{
  validate_dkg_material, is_ecdsa_algorithm, parse_chain_code_hex,
  encode_ec_point_uncompressed_secp256k1, encode_uncompressed_secp256k1,
}
use brosettlement_mpc_core.Execution.Errors.{Error, deadline_exceeded}
use brosettlement_mpc_core.Execution.State.{new_execution, mark_progress}
use brosettlement_mpc_core.Execution.Run.{
  ProtocolResult, Choice, event, protocol_done, run, run_loop, run_step, handle_event,
  finish_terminal_event,
}
use brosettlement_mpc_core.Flow.{
  count_outcome, sessions_started, sessions_succeeded, session_duration,
}
use brosettlement_mpc_core.Flow.Params.{build_params, party_map_from, stable_party_key}
use brosettlement_mpc_core.Flow.Toy.{toy, toy_library}
use brosettlement_mpc_core.Flow.Dkg as dkg_flow
use brosettlement_mpc_core.Flow.Dkg.{normalize_algorithm}
use brosettlement_mpc_core.Runner.{
  BnbRunner, new_bnb_runner, run_dkg, finish_dkg, set_temporary_ecdsa_dkg_share,
  export_temporary_ecdsa_dkg_share, delete_temporary_ecdsa_dkg_share, lookup_run, delete_run,
}
use brosettlement_mpc_core.Shares.{SaveShareInput, marshal_key_material, validate_key_material_meta}
use brosettlement_mpc_core.Service.Errors.{
  key_id_required, share_writer_required, duplicate_dkg_run,
}
use brosettlement_mpc_core.Service.Runs.{RunKey, begin_dkg_run, end_dkg_run, is_active}
use brosettlement_mpc_core.Service.Sign.{is_ecdsa}
use brosettlement_mpc_core.Service.Dkg.{
  DkgInput, DkgOutput, ShareWriter, PreParamsSource, DkgRunner, run_key, resolve_dkg_output_key_id,
  normalize_key_id, normalize_dkg_material,
}
use brosettlement_mpc_core.Service.Dkg.Session.{
  State, Parts, run_dkg_session_from, dkg_steps, with_pre_params, attach_pre_params, run_protocol,
  store_ecdsa, build_ecdsa_dkg_output, persist_ecdsa_share_after_dkg,
}
use brosettlement_mpc_core.Service.Dkg.Ended.{run_dkg_session-IsEnded}
use brosettlement_mpc_core.Service.Dkg.Persisted.{IsPersisted, run_dkg_session-IsPersisted}

abbrev result : ProtocolResult toy_library
result = record { ecdsa_key_share = some (codes "share"); signature = none }

abbrev choices : List (Choice toy_library)
choices = event (protocol_done result) none 5 none ∷ []

abbrev returned :
    BnbRunner toy → Option (BnbRunner toy × Option Error) → BnbRunner toy × Option Error
returned r none = (r, some (deadline_exceeded ∷ []))
returned r (some v) = v

abbrev runner : DkgRunner toy (BnbRunner toy)
runner = record {
  run_dkg = λ r job. returned r (run_dkg toy r job (codes "c") 1 choices);
  export_temporary_ecdsa_dkg_share = λ r key. export_temporary_ecdsa_dkg_share toy r key;
  delete_temporary_ecdsa_dkg_share = λ r key. delete_temporary_ecdsa_dkg_share toy r key;
}

-- The store of shares keeps what it is given.
abbrev writer : ShareWriter (List SaveShareInput)
writer = record { save_share = λ saved input. (input ∷ saved, none) }

abbrev source : PreParamsSource (List Bytes) Bytes
source = record { acquire = λ given. (codes "pre" ∷ given, ok (codes "pre")); try_acquire = none }

abbrev parts : Parts toy (BnbRunner toy) (List SaveShareInput) (List Bytes)
parts = record {
  runner = runner;
  share_writer = some writer;
  pre_params_source = some source;
  gob = record { encode = λ env. some env.share; decode = λ s. none };
  ckd = record {
    is_on_curve = λ x y. true;
    derive_child_key = λ indices point chain_code. none;
    adjust_share = λ delta share child. none;
    ecdsa_pub = λ share. some (6, 7);
  };
}

abbrev start : State (BnbRunner toy) (List SaveShareInput) (List Bytes)
start = record {
  active_dkg_runs = [];
  runner = new_bnb_runner toy default_runner_config;
  writer = [];
  source = [];
}

abbrev zeros : Bytes
zeros = codes "0000000000000000000000000000000000000000000000000000000000000000"

abbrev input : DkgInput
input = record {
  session_id = codes "s";
  local_party_id = codes "a";
  org_id = codes "o";
  key_id = codes " k ";
  opaque_descriptor_fingerprint = [];
  parties = codes "b" ∷ codes "a" ∷ [];
  threshold = 2;
  curve = [];
  algorithm = codes "ecdsa";
  derivation_material = record { chain_code = zeros; derivation_scheme = codes "bip32_secp256k1" };
  empty_key_err = key_id_required;
  missing_pub = none;
}

ecdsa : is_ecdsa toy.wide input.algorithm ≡ true
unfolding is_ecdsa to_lower trim_space ◌=?◌
ecdsa = refl

abbrev point : Bytes
point = encode_uncompressed_secp256k1 (λ x y. true) (6, 7)

abbrev after : State (BnbRunner toy) (List SaveShareInput) (List Bytes)
after = record start {
  runner = record start.runner {
    metrics =
        session_duration (codes "dkg")
        ∷ sessions_succeeded (codes "dkg")
        ∷ sessions_started (codes "dkg")
        ∷ [];
  };
  writer =
      record {
        session_id = codes "s";
        key_id = codes "k";
        local_party_id = codes "a";
        opaque_descriptor_fingerprint = [];
        codec_blob = codes "share";
      }
      ∷ [];
  source = codes "pre" ∷ [];
}

abbrev output : DkgOutput
output = record {
  key_id = codes "k";
  public_key = point;
  chain_code = zeros;
  public_key_format = codes "uncompressed_hex";
  derivation_scheme = codes "bip32_secp256k1";
}

session : run_dkg_session_from parts start input none ≡ (after, ok output)
unfolding run_dkg_session_from dkg_steps with_pre_params attach_pre_params run_protocol store_ecdsa
    build_ecdsa_dkg_output persist_ecdsa_share_after_dkg resolve_dkg_output_key_id normalize_key_id
    normalize_dkg_material validate_dkg_material is_ecdsa_algorithm parse_chain_code_hex hex_decode
    hex_digit has_prefix is_ecdsa to_lower trim_space ◌=?◌ begin_dkg_run end_dkg_run run_dkg
    finish_dkg set_temporary_ecdsa_dkg_share export_temporary_ecdsa_dkg_share
    delete_temporary_ecdsa_dkg_share lookup_run delete_run dkg_flow.run_dkg
    dkg_flow.new_dkg_execution dkg_flow.build_dkg dkg_flow.finish_dkg normalize_algorithm
    build_params party_map_from stable_party_key sort insert string_le to_tss_lib_threshold
    pick_local_party_id select_curve run run_loop run_step handle_event finish_terminal_event
    new_execution mark_progress count_outcome marshal_key_material validate_key_material_meta
    encode_ec_point_uncompressed_secp256k1 encode_uncompressed_secp256k1 hex_encode fill_bytes
session = refl

run_dkg_session-IsPersisted_example : IsPersisted toy parts start input output after
run_dkg_session-IsPersisted_example =
    run_dkg_session-IsPersisted toy parts start input none after output ecdsa session

run_dkg_session-IsEnded_example :
    ((run_dkg_session_from parts start input none ≡ (start, err share_writer_required))
      ⊎ ((is_active (run_key input) [] ≡ true)
          × (run_dkg_session_from parts start input none ≡ (start, err duplicate_dkg_run))))
    ⊎ ((is_active (run_key input) [] ≡ false)
        × ((q : RunKey)
            → is_active q (run_dkg_session_from parts start input none).0.active_dkg_runs
              ≡ is_active q []))
run_dkg_session-IsEnded_example = run_dkg_session-IsEnded toy parts start input none
