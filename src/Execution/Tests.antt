-- ===== src/Execution/Tests.antt =====
-- Runs of an execution with a small tss-lib, and the instances of the theorems about it.
use brosettlement_mpc_core.Base.{
  ◌-◌, ◌^◌, ◌≡◌, refl, ◌⊎◌, true, false, Option, none, some, List, [], ◌∷◌, ◌++◌, Bytes, codes,
  ◌=?◌, arith, ok, All,
}
use brosettlement_mpc_core.Table.{has_key, filter, lookup}
use brosettlement_mpc_core.Text.{join}
use brosettlement_mpc_core.Text.Decimal.{format_uint}
use brosettlement_mpc_core.Protocol.{Frame}
use brosettlement_mpc_core.RunnerConfig.{
  Environment, default_runner_config, load_runner_config_from_env, corrected, read_config,
  env_duration, add_durations,
}
use brosettlement_mpc_core.RunnerConfig.Bounds.{IsUsable, load_runner_config_from_env-IsUsable}
use brosettlement_mpc_core.Execution.Errors.{Error, canceled, stalled_protocol}
use brosettlement_mpc_core.Execution.Deduper.{
  Deduper, new_deduper, should_accept, frame_dedup_key, key_parts, key_hash, prune, evict, oldest,
  accept_key, oldest_from,
}
use brosettlement_mpc_core.Execution.Deduper.Key.{IsPlain, SameKey, frame_dedup_key-injective}
use brosettlement_mpc_core.Execution.Deduper.Bounds.{IsBounded, should_accept-IsBounded}
use brosettlement_mpc_core.Execution.Deduper.Replay.{
  accepted_keys, AllDistinct, IsQuiet, accepted_keys-AllDistinct, should_accept-oldest,
}
use brosettlement_mpc_core.Execution.State.{
  Library, Params, ProtocolExecution, new_execution, mark_progress,
}
use brosettlement_mpc_core.Execution.Inbound.{
  TerminalState, success, handle_incoming, validate_inbound, validate_derivation_context_hash,
}
use brosettlement_mpc_core.Execution.Inbound.Accepted.{IsDelivered, handle_incoming-IsDelivered}
use brosettlement_mpc_core.Execution.Run.{
  ProtocolResult, Choice, ctx_done, event, protocol_done, run, run_loop, run_step, handle_event,
  finish_terminal_event,
}
use brosettlement_mpc_core.Execution.Run.Events.{IsPending}
use brosettlement_mpc_core.Execution.Run.Outcome.{IsOutcome, run-IsOutcome, run-returns}
use brosettlement_mpc_core.Execution.Watchdog.{run_watchdog}
use brosettlement_mpc_core.Execution.Watchdog.Stall.{run_watchdog-mark_progress, run_watchdog_late}
use brosettlement_mpc_core.Execution.Outbound.{Transport, forward_outgoing}
use brosettlement_mpc_core.Execution.Outbound.Peers.{IsWelcome, IsPeer, forward_outgoing-IsWelcome}

-- A party that keeps the payloads it is given; a message is a payload for two receivers.
abbrev toy : Library
toy = record {
  PartyId = Bytes;
  ParsedMessage = Bytes;
  Message = Bytes;
  Party = List Bytes;
  KeyShare = Bytes;
  Signature = Bytes;
  parse_wire_message = λ payload from all. ok payload;
  update = λ party message. (message ∷ party, (true, none));
  msg_type = λ message. codes "SignRound1Message1";
  wire_bytes = λ message.
      ok (
        message,
        record { from = codes "a"; to = codes "b" ∷ codes "c" ∷ []; is_broadcast = false },
      );
  sha256 = λ s. s;
}

abbrev params : Params toy
params = record {
  session_id = codes "s1";
  local_party_id = codes "b";
  correlation_id = codes "corr";
  stage = codes "sign";
  algorithm = codes "ecdsa";
  derivation_context_hash = codes "d1";
  party = [];
  party_ids = (codes "a", codes "a") ∷ (codes "b", codes "b") ∷ [];
  config = default_runner_config;
}

abbrev start : ProtocolExecution toy
start = new_execution params

abbrev frame : Frame
frame = record {
  session_id = codes "s1";
  stage = codes "sign";
  org_id = [];
  message_id = codes "m1";
  seq = 1;
  round = 0;
  round_hint = 1;
  broadcast = true;
  protocol = codes "ecdsa";
  message_type = codes "SignRound1Message1";
  payload_hash = codes "aa";
  derivation_context_hash = codes "d1";
  from_party = codes "a";
  to_party = [];
  payload = codes "hello";
  correlation_id = [];
  sent_at = 0;
}

-- A frame of the session reaches the party.
delivers : (handle_incoming start frame 100).0.party ≡ codes "hello" ∷ []
unfolding new_execution handle_incoming validate_inbound should_accept prune evict accept_key
    frame_dedup_key key_parts key_hash join format_uint lookup has_key filter ◌=?◌
delivers = refl

handle_incoming-IsDelivered_example :
    ((handle_incoming start frame 100).0.party ≡ start.party)
    ⊎ IsDelivered start frame 100 (handle_incoming start frame 100).0.party
handle_incoming-IsDelivered_example = handle_incoming-IsDelivered start frame 100

abbrev result : ProtocolResult toy
result = record { ecdsa_key_share = none; signature = some (codes "sig") }

abbrev choices : List (Choice toy)
choices = event (protocol_done result) none 200 none ∷ []

abbrev finished : ProtocolExecution toy
finished = record (mark_progress start 100 (codes "start") 0) {
  signature = some (codes "sig");
  protocol_done_flag = true;
}

runs : run start 100 choices ≡ some (finished, (success, none))
unfolding run run_loop run_step handle_event finish_terminal_event mark_progress new_execution
runs = refl

pending : IsPending start
unfolding new_execution
pending = refl

run-IsOutcome_example : IsOutcome choices (finished, (success, none))
run-IsOutcome_example = run-IsOutcome start 100 choices (finished, (success, none)) pending runs

run-returns_example :
    (r : ProtocolExecution toy × (TerminalState × Option Error)) × (run start 100
        (ctx_done (canceled ∷ []) ∷ [])
      ≡ some r)
run-returns_example = run-returns start 100 (ctx_done (canceled ∷ []) ∷ []) refl

run_watchdog-mark_progress_example :
    (run_watchdog (mark_progress start 1000 (codes "x") 1) (5000000000 ∷ 90000000000 ∷ [])).1 ≡ none
unfolding new_execution
run_watchdog-mark_progress_example =
    run_watchdog-mark_progress start 1000 (codes "x") 1 (5000000000 ∷ 90000000000 ∷ [])
      (omega arith) (omega arith, (omega arith, tt))

run_watchdog_late_example :
    (run_watchdog start (1000 ∷ [] ++ 200000000000 ∷ [])).1 ≡ some (stalled_protocol ∷ [])
unfolding new_execution
run_watchdog_late_example = run_watchdog_late start (1000 ∷ []) 200000000000 [] (omega arith)

abbrev fine : Transport
fine = record { ctx_err = λ f. none; send = λ f. none }

start-IsPeer : IsPeer start start
unfolding new_execution ◌=?◌
start-IsPeer = record { session = refl; context = refl; given = refl }

forward_outgoing-IsWelcome_example :
    All (IsWelcome start) (forward_outgoing start none fine (codes "id") 100 (codes "hello")).1.0
forward_outgoing-IsWelcome_example =
    forward_outgoing-IsWelcome start start fine (codes "id") 100 (codes "hello") start-IsPeer

frame-IsWelcome : IsWelcome start frame
unfolding new_execution validate_derivation_context_hash ◌=?◌
frame-IsWelcome = record { session = refl; context = refl }

frame_accepted : (should_accept toy.sha256 start.deduper frame 100).1 ≡ (true, none)
unfolding new_execution should_accept prune evict accept_key has_key filter
frame_accepted = refl

-- The deduper.
frame-IsPlain : IsPlain (λ s. s) frame
unfolding key_hash ◌=?◌
frame-IsPlain = record {
  session_id = ground arith;
  stage = ground arith;
  from_party = ground arith;
  hash = ground arith;
}

abbrev resent : Frame
resent = record frame { message_id = codes "m2"; sent_at = 5 }

resent-IsPlain : IsPlain (λ s. s) resent
unfolding key_hash ◌=?◌
resent-IsPlain = record {
  session_id = ground arith;
  stage = ground arith;
  from_party = ground arith;
  hash = ground arith;
}

same_key : frame_dedup_key (λ s. s) frame ≡ frame_dedup_key (λ s. s) resent
unfolding frame_dedup_key key_parts key_hash ◌=?◌
same_key = refl

frame_dedup_key-injective_example : SameKey (λ s. s) frame resent
frame_dedup_key-injective_example =
    frame_dedup_key-injective (λ s. s) frame resent frame-IsPlain resent-IsPlain same_key

abbrev deduper : Deduper
deduper = new_deduper 600 2 100

new-IsBounded : IsBounded deduper
unfolding new_deduper
new-IsBounded = record { table = tt; named = tt; room = omega arith; bound = omega arith }

should_accept-IsBounded_example : IsBounded (should_accept (λ s. s) deduper frame 100).0
should_accept-IsBounded_example = should_accept-IsBounded (λ s. s) deduper frame 100 new-IsBounded

deduper-IsQuiet : IsQuiet 100 2 deduper
unfolding new_deduper
deduper-IsQuiet = record { stamped = tt; space = omega arith }

accepted_keys-AllDistinct_example :
    AllDistinct (accepted_keys (λ s. s) deduper ((frame, 100) ∷ (frame, 200) ∷ []))
unfolding new_deduper
accepted_keys-AllDistinct_example =
    accepted_keys-AllDistinct (λ s. s) 100 deduper ((frame, 100) ∷ (frame, 200) ∷ [])
      ((omega arith, omega arith), ((omega arith, omega arith), tt)) deduper-IsQuiet

-- A full table whose oldest entry is the frame's.
abbrev full : Deduper
full = record {
  seen = (codes "x|s|a|1|bb", 150) ∷ (codes "s1|sign|a|1|aa", 100) ∷ [];
  insertions = 2;
  ttl_nanos = 600;
  max_entries = 2;
  max_frame_size = 100;
}

full-IsBounded : IsBounded full
unfolding has_key ◌=?◌
full-IsBounded = record {
  table = (refl, (refl, tt));
  named = (refl, (refl, tt));
  room = omega arith;
  bound = omega arith;
}

full_oldest : frame_dedup_key (λ s. s) frame ≡ oldest full.seen
unfolding frame_dedup_key key_parts key_hash join format_uint oldest oldest_from ◌=?◌
full_oldest = refl

should_accept-oldest_example : (should_accept (λ s. s) full frame 200).1 ≡ (true, none)
should_accept-oldest_example =
    should_accept-oldest (λ s. s) full frame 200 full-IsBounded refl (omega arith) (omega arith)
      full_oldest

abbrev env : Environment
env = record { getenv = λ key. codes "5"; parse_duration = λ s. some 5; atoi = λ s. some 5 }

load_runner_config_from_env-IsUsable_example : IsUsable (load_runner_config_from_env env)
load_runner_config_from_env-IsUsable_example =
    load_runner_config_from_env-IsUsable env (λ s n h. let is : 5 ≡ n = cc in omega (arith, is))

-- The largest duration for the warning, and a failure that is not later.
late_warning :
    (load_runner_config_from_env
      (record env { parse_duration = λ s. some (2 ^ 63 - 1) })).stall_fail
    ≡ 0
unfolding load_runner_config_from_env corrected read_config env_duration add_durations ◌=?◌
late_warning = refl
