-- ===== src/Execution/Receive/Lost.antt =====
-- What the loop that receives frames leaves for the worker, and what the worker may do with it.
use brosettlement_mpc_core.Base.{
  ℕ, ◌≤◌, ◌≡◌, refl, ap, ◌⊎◌, suc, inl, inr, Bool, true, false, Option, none, some, List, [], ◌∷◌,
  map, ltb, Result, ok, err, length, Bool-cases, arith,
}
use brosettlement_mpc_core.Protocol.{Frame}
use brosettlement_mpc_core.Execution.Errors.{Error}
use brosettlement_mpc_core.Execution.Receive.{
  Arrival, Bounds, Received, report, stop, enqueued, hand_over, recv_round, recv_loop, Pick,
  inbound, inbound_frame, emit, run_recv_worker,
}

-- The queue holds the frames that arrived first, in their order, each within the bound.
pub data IsQueued (max : ℕ) : List Arrival → List Frame → Type 0 where
  nothing : {later : List Arrival} → IsQueued max later []
  one :
      {a : Arrival} {later : List Arrival} {f : Frame} {fs : List Frame}
      → a.received ≡ ok f
      → length f.payload ≤ max
      → IsQueued max later fs
      → IsQueued max (a ∷ later) (f ∷ fs)

-- A loop that runs has put every frame into the queue; one that has returned has left an error.
abbrev pub IsReceived : ℕ → List Arrival → Received → Type 0
IsReceived max later r =
    IsQueued max later r.queued
    × (((r.returned ≡ none) × (length r.queued ≡ length later))
        ⊎ ((x : Error) × (r.returned ≡ some (some x))))

report-some : (slot : Option Error) (x : Error) → (y : Error) × (report slot x ≡ some y)
report-some none x = (x, refl)
report-some (some y) x = (y, refl)

stop-IsReceived :
    (max : ℕ) (later : List Arrival) (slot : Option Error) (x : Error)
    → IsReceived max later (stop slot x)
stop-IsReceived max later slot x = let (y, e) = report-some slot x in (nothing, inr (y, ap some e))

enqueued-IsReceived :
    (max : ℕ) (a : Arrival) (later : List Arrival) (f : Frame) (r : Received)
    → a.received ≡ ok f
    → length f.payload ≤ max
    → IsReceived max later r
    → IsReceived max (a ∷ later) (enqueued f r)
enqueued-IsReceived max a later f r given fits (queued, inl (runs, all)) =
    (one given fits queued, inl (runs, ap suc all))
enqueued-IsReceived max a later f r given fits (queued, inr left) =
    (one given fits queued, inr left)

hand_over-IsReceived :
    (b : Bounds) (slot : Option Error) (a : Arrival) (later : List Arrival) (f : Frame)
    (ctx : Option Error) (has_room takes_context : Bool) (r : Received)
    → a.received ≡ ok f
    → length f.payload ≤ b.max_frame_bytes
    → IsReceived b.max_frame_bytes later r
    → IsReceived b.max_frame_bytes (a ∷ later) (hand_over b slot f ctx has_room takes_context r)
hand_over-IsReceived b slot a later f none true takes r given fits rest =
    enqueued-IsReceived b.max_frame_bytes a later f r given fits rest
hand_over-IsReceived b slot a later f none false takes r given fits rest =
    stop-IsReceived b.max_frame_bytes (a ∷ later) slot b.err_queue_full
hand_over-IsReceived b slot a later f (some x) true true r given fits rest =
    stop-IsReceived b.max_frame_bytes (a ∷ later) slot x
hand_over-IsReceived b slot a later f (some x) true false r given fits rest =
    enqueued-IsReceived b.max_frame_bytes a later f r given fits rest
hand_over-IsReceived b slot a later f (some x) false takes r given fits rest =
    stop-IsReceived b.max_frame_bytes (a ∷ later) slot x

recv_round-IsReceived :
    (b : Bounds) (slot : Option Error) (a : Arrival) (later : List Arrival) (m : Result Error Frame)
    (r : Received)
    → a.received ≡ m
    → IsReceived b.max_frame_bytes later r
    → IsReceived b.max_frame_bytes (a ∷ later) (recv_round b slot a m r)
recv_round-IsReceived b slot a later (err x) r given rest =
    stop-IsReceived b.max_frame_bytes (a ∷ later) slot x
recv_round-IsReceived b slot a later (ok f) r given rest =
    elim (Bool-cases (ltb b.max_frame_bytes (length f.payload))) [
      | inl large ↦
          rw large (stop-IsReceived b.max_frame_bytes (a ∷ later) slot b.err_frame_too_large)
      | inr fits ↦ rw fits (
          hand_over-IsReceived b slot a later f a.context_error a.has_room a.takes_context r given
            (ground (arith, fits)) rest)
    ]

-- The loop queues the frames that arrived first, in their order, and each is within the bound. While
-- it runs, all that arrived are queued; once it has returned, it has left an error for the worker.
pub recv_loop-IsReceived :
    (b : Bounds) (slot : Option Error) (arrivals : List Arrival)
    → IsReceived b.max_frame_bytes arrivals (recv_loop b slot arrivals)
unfolding recv_loop
recv_loop-IsReceived b slot [] = (nothing, inl (refl, refl))
recv_loop-IsReceived b slot (a ∷ rest) =
    recv_round-IsReceived b slot a rest a.received (recv_loop b slot rest) refl
      (recv_loop-IsReceived b slot rest)

-- The worker takes the frames that are queued, and then the end of the queue.
abbrev pub queue_first : List Frame → List Pick
queue_first [] = inbound true ∷ []
queue_first (f ∷ queue) = inbound true ∷ queue_first queue

-- Whatever error the loop has left, the worker may emit every queued frame, find the queue closed,
-- and return without an event for the error.
pub run_recv_worker_lost :
    (queue : List Frame) (x : Error)
    → run_recv_worker queue (some x) (queue_first queue)
      ≡ record { events = map inbound_frame queue; is_over = true }
unfolding run_recv_worker
run_recv_worker_lost [] x = refl
run_recv_worker_lost (f ∷ queue) x = ap (emit (inbound_frame f) true) (run_recv_worker_lost queue x)
