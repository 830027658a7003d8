-- ===== src/Execution/Receive/Tests.antt =====
-- A loop that receives a frame that is too large, and the instances of the results about it.
use brosettlement_mpc_core.Base.{
  ◌≡◌, refl, Bytes, false, true, none, some, List, [], ◌∷◌, codes, ok,
}
use brosettlement_mpc_core.Protocol.{Frame}
use brosettlement_mpc_core.Execution.Errors.{frame_too_large, queue_full}
use brosettlement_mpc_core.Execution.Receive.{
  Arrival, Bounds, recv_loop, inbound_frame, run_recv_worker,
}
use brosettlement_mpc_core.Execution.Receive.Lost.{
  IsReceived, recv_loop-IsReceived, queue_first, run_recv_worker_lost,
}

abbrev frame_of : Bytes → Frame
frame_of payload = record {
  session_id = codes "s1";
  stage = codes "sign";
  org_id = [];
  message_id = [];
  seq = 1;
  round = 0;
  round_hint = 1;
  broadcast = true;
  protocol = codes "ecdsa";
  message_type = codes "SignRound1Message1";
  payload_hash = [];
  derivation_context_hash = codes "d1";
  from_party = codes "a";
  to_party = [];
  payload = payload;
  correlation_id = [];
  sent_at = 0;
}

abbrev arrival : Bytes → Arrival
arrival payload = record {
  received = ok (frame_of payload);
  context_error = none;
  has_room = true;
  takes_context = false;
}

abbrev bounds : Bounds
bounds = record {
  max_frame_bytes = 5;
  err_frame_too_large = frame_too_large ∷ [];
  err_queue_full = queue_full ∷ [];
}

abbrev arrivals : List Arrival
arrivals = arrival (codes "hello") ∷ arrival (codes "hello!") ∷ arrival [] ∷ []

too_large : recv_loop bounds none arrivals ≡ record {
  queued = frame_of (codes "hello") ∷ [];
  returned = some (some (frame_too_large ∷ []));
}
unfolding recv_loop
too_large = refl

recv_loop-IsReceived_example : IsReceived 5 arrivals (recv_loop bounds none arrivals)
recv_loop-IsReceived_example = recv_loop-IsReceived bounds none arrivals

run_recv_worker_lost_example :
    run_recv_worker
      (frame_of (codes "hello") ∷ [])
      (some (frame_too_large ∷ []))
      (queue_first (frame_of (codes "hello") ∷ []))
    ≡ record { events = inbound_frame (frame_of (codes "hello")) ∷ []; is_over = true }
run_recv_worker_lost_example =
    run_recv_worker_lost (frame_of (codes "hello") ∷ []) (frame_too_large ∷ [])
