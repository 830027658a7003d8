-- ===== src/Service/Signing/Tests.antt =====
-- The instance of the theorem about signing sessions, with a small tss-lib.
use brosettlement_mpc_core.Base.{codes}
use brosettlement_mpc_core.Flow.Toy.{toy}
use brosettlement_mpc_core.Runner.{SignJob}
use brosettlement_mpc_core.Runner.Sample.{choices, runner, stored_run, carries}
use brosettlement_mpc_core.Service.Signing.Sample.{
  input, parts, session_named, key_named, session_run,
}
use brosettlement_mpc_core.Service.Signing.Signed.{IsRun, IsSigned, run_sign_session-IsSigned}

run_sign_session-IsSigned_example :
    IsSigned toy parts input stored_run
    × ((j : SignJob toy) × IsRun toy parts input (codes "c") 1 choices runner stored_run j)
run_sign_session-IsSigned_example =
    run_sign_session-IsSigned toy parts runner input (codes "c") 1 choices stored_run session_named
      key_named carries session_run
