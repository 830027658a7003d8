-- ===== src/Execution/Receive.antt =====
-- internal/tssbnb/utils/recv_loop.go, and `runRecvWorker` of internal/tssbnb/execution/inbound.go:
-- the loop that receives frames into a queue, and the worker that passes them on. What the
-- transport gives and how the two are scheduled are arguments.
pub mod Lost
mod Tests
use brosettlement_mpc_core.Base.{
  ℕ, Bool, true, false, Option, none, some, List, [], ◌∷◌, ltb, if◌then◌else◌, Result, ok, err,
  length,
}
use brosettlement_mpc_core.Protocol.{Frame}
use brosettlement_mpc_core.Execution.Errors.{Error}

-- One round of the loop: what is received, the error of the context if it is done, whether the queue
-- has room, and which case is taken if both are ready.
pub record Arrival : Type 0 where
  pub received : Result Error Frame
  pub context_error : Option Error
  pub has_room : Bool
  pub takes_context : Bool

pub record Bounds : Type 0 where
  pub max_frame_bytes : ℕ
  pub err_frame_too_large : Error
  pub err_queue_full : Error

-- The frames put into the queue; and when the loop has returned, what the channel for its error holds.
pub record Received : Type 0 where
  pub queued : List Frame
  pub returned : Option (Option Error)

-- A send that does not wait, to a channel with room for one error.
abbrev pub report : Option Error → Error → Option Error
report none x = some x
report (some earlier) x = some earlier

abbrev pub stop : Option Error → Error → Received
stop slot x = record { queued = []; returned = some (report slot x) }

abbrev pub enqueued : Frame → Received → Received
enqueued f r = record r { queued = f ∷ r.queued }

-- The last `select` of a round, for the context, the room in the queue, and the case that is taken.
abbrev pub hand_over :
    Bounds → Option Error → Frame → Option Error → Bool → Bool → Received → Received
hand_over b slot f none true takes_context rest = enqueued f rest
hand_over b slot f none false takes_context rest = stop slot b.err_queue_full
hand_over b slot f (some x) true true rest = stop slot x
hand_over b slot f (some x) true false rest = enqueued f rest
hand_over b slot f (some x) false takes_context rest = stop slot x

abbrev pub recv_round : Bounds → Option Error → Arrival → Result Error Frame → Received → Received
recv_round b slot a (err x) rest = stop slot x
recv_round b slot a (ok f) rest =
    if ltb b.max_frame_bytes (length f.payload)
    then stop slot b.err_frame_too_large
    else hand_over b slot f a.context_error a.has_room a.takes_context rest

-- `slot` is what the channel for the error holds.
unfoldable pub recv_loop : Bounds → Option Error → List Arrival → Received
recv_loop b slot [] = record { queued = []; returned = none }
recv_loop b slot (a ∷ rest) = recv_round b slot a a.received (recv_loop b slot rest)

-- The case that the `select` of the worker takes, and whether an event is taken by the run.
pub data Pick : Type 0 where
  context_done : Pick
  inbound : Bool → Pick
  failure : Bool → Pick

pub data RecvEvent : Type 0 where
  inbound_frame : Frame → RecvEvent
  recv_error : Error → RecvEvent

-- The events of the worker, and whether it has returned.
pub record Emitted : Type 0 where
  pub events : List RecvEvent
  pub is_over : Bool

abbrev pub over : Emitted
over = record { events = []; is_over = true }

abbrev pub emit : RecvEvent → Bool → Emitted → Emitted
emit x true rest = record rest { events = x ∷ rest.events }
emit x false rest = over

-- The worker from the return of the loop on: the queue is closed, and holds the frames that are left.
-- A case that is not ready is not taken.
unfoldable pub run_recv_worker : List Frame → Option Error → List Pick → Emitted
run_recv_worker queue slot [] = record { events = []; is_over = false }
run_recv_worker queue slot (context_done ∷ picks) = over
run_recv_worker [] slot (inbound is_taken ∷ picks) = over
run_recv_worker (f ∷ queue) slot (inbound is_taken ∷ picks) =
    emit (inbound_frame f) is_taken (run_recv_worker queue slot picks)
run_recv_worker queue none (failure is_taken ∷ picks) = run_recv_worker queue none picks
run_recv_worker queue (some x) (failure is_taken ∷ picks) = emit (recv_error x) is_taken over
