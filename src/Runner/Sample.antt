-- ===== src/Runner/Sample.antt =====
-- A signing run for the tests: its choices, and the runner before and after it.
use brosettlement_mpc_core.Base.{◌≡◌, refl, subst, inl, inr, none, some, List, [], ◌∷◌, codes}
use brosettlement_mpc_core.RunnerConfig.{default_runner_config}
use brosettlement_mpc_core.Execution.Run.{ProtocolResult, Choice, event, protocol_done}
use brosettlement_mpc_core.Execution.Run.Events.{Delivers}
use brosettlement_mpc_core.Flow.{
  SignatureData, sessions_started, sessions_succeeded, session_duration,
}
use brosettlement_mpc_core.Flow.Toy.{toy, toy_library}
use brosettlement_mpc_core.Runner.{BnbRunner, new_bnb_runner}
use brosettlement_mpc_core.Runner.Stored.{CarriesSignatures}

-- `M` has a leading zero that the digest has not.
abbrev pub signature : SignatureData
signature = record {
  signature = codes "sig";
  signature_recovery = [];
  r = [];
  s = [];
  m = 0 ∷ 7 ∷ [];
}

abbrev pub result : ProtocolResult toy_library
result = record { ecdsa_key_share = none; signature = some signature }

abbrev pub choices : List (Choice toy_library)
choices = event (protocol_done result) none 5 none ∷ []

abbrev pub runner : BnbRunner toy
runner = new_bnb_runner toy default_runner_config

abbrev pub kept : SignatureData
kept = record signature { m = 7 ∷ [] }

abbrev pub stored_run : BnbRunner toy
stored_run = record runner {
  ecdsa_sigs = (codes "k", kept) ∷ (codes "s", kept) ∷ [];
  metrics =
      session_duration (codes "sign")
      ∷ sessions_succeeded (codes "sign")
      ∷ sessions_started (codes "sign")
      ∷ [];
}

pub carries : CarriesSignatures toy choices
unfolding Delivers
carries r (inl (now, e)) =
    let same : result ≡ r = cc in
    subst (λ x. (sig : SignatureData) × (x.signature ≡ some sig)) same (signature, refl)
carries r (inr nowhere) = absurd nowhere
