-- ===== src/Runner/Tests.antt =====
-- Runs of the runner with a small tss-lib, and the instances of the theorems about it.
use brosettlement_mpc_core.Base.{◌≡◌, refl, false, none, some, [], ◌∷◌, codes, ◌=?◌}
use brosettlement_mpc_core.Table.{delete}
use brosettlement_mpc_core.Text.{trim_space, to_lower}
use brosettlement_mpc_core.Text.Sort.{sort, insert, string_le}
use brosettlement_mpc_core.Requests.{to_tss_lib_threshold, pick_local_party_id, select_curve}
use brosettlement_mpc_core.RunnerConfig.{default_runner_config}
use brosettlement_mpc_core.Execution.State.{new_execution, mark_progress}
use brosettlement_mpc_core.Execution.Run.{
  run, run_loop, run_step, handle_event, finish_terminal_event,
}
use brosettlement_mpc_core.Flow.{count_outcome}
use brosettlement_mpc_core.Flow.Params.{build_params, party_map_from, stable_party_key}
use brosettlement_mpc_core.Flow.Toy.{toy}
use brosettlement_mpc_core.Flow.Sign as sign_flow
use brosettlement_mpc_core.Runner.{
  SignJob, set_ecdsa_signature, is_zero_ecdsa_share, on_signature, exported_error, finish_sign,
  run_sign,
}
use brosettlement_mpc_core.Runner.Sample.{choices, runner, stored_run, carries}
use brosettlement_mpc_core.Runner.Stored.{IsKept, run_sign-IsKept}
use brosettlement_mpc_core.Runner.Store.{view}
use brosettlement_mpc_core.Runner.Refines.{
  sign_call, delete_call, after_calls, spec_calls, after_calls-refines,
}

abbrev job : SignJob toy
job = record {
  session_id = codes "s";
  local_party_id = codes "a";
  org_id = codes "o";
  key_id = codes "k";
  parties = codes "b" ∷ codes "a" ∷ [];
  digest = 7 ∷ [];
  algorithm = [];
  chain = [];
  key_share = codes "share";
  key_derivation_delta = some 3;
  derivation_context_hash = codes "d";
}

session_named : (job.session_id =? []) ≡ false
unfolding ◌=?◌
session_named = refl

key_named : (job.key_id =? []) ≡ false
unfolding ◌=?◌
key_named = refl

signs : run_sign toy runner job (codes "c") 1 choices ≡ some (stored_run, none)
unfolding run_sign is_zero_ecdsa_share finish_sign on_signature exported_error set_ecdsa_signature
    sign_flow.run_sign sign_flow.new_sign_execution sign_flow.build_sign sign_flow.finish_sign
    sign_flow.after_run sign_flow.deliver_signature build_params party_map_from stable_party_key
    sort insert string_le to_tss_lib_threshold pick_local_party_id select_curve trim_space to_lower
    run run_loop run_step handle_event finish_terminal_event new_execution count_outcome
    mark_progress ◌=?◌ delete
signs = refl

run_sign-IsKept_example : IsKept toy runner job stored_run none
run_sign-IsKept_example =
    run_sign-IsKept toy runner job (codes "c") 1 choices stored_run none session_named key_named
      carries signs

after_calls-refines_example :
    view toy (
      after_calls toy runner
        (sign_call job (codes "c") 1 choices ∷ delete_call (codes "s", codes "a") ∷ []))
    ≡ spec_calls toy default_runner_config
        (view toy runner)
        (sign_call job (codes "c") 1 choices ∷ delete_call (codes "s", codes "a") ∷ [])
after_calls-refines_example =
    after_calls-refines toy runner
      (sign_call job (codes "c") 1 choices ∷ delete_call (codes "s", codes "a") ∷ [])
