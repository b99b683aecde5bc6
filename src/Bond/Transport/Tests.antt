-- ===== src/Bond/Transport/Tests.antt =====
-- Two transports at concrete values.
use fecalia.Base.{
  ℕ, ◌+◌, ◌^◌, ◌≡◌, refl, true, false, none, some, List, [], ◌∷◌, arith, replicate, be, read_be,
}
use fecalia.Frame.{Control}
use fecalia.Bond.{Epoch, data_frame, parse_header}
use fecalia.Bond.Ack.{ack_frame, parse_ack, received}
use fecalia.Bond.Receipts.{oldest, mark, new_receipts}
use fecalia.Bond.Transport.{
  Receiver, Class, realtime, type_cause, Datagram, Lane, Transport, find_lane, new_lane, zero_epoch,
  empty_ledger, new, set_remote, path,
}
use fecalia.Bond.Transport.Flight.{member, keep_alive, time_out}
use fecalia.Bond.Transport.Receive.{
  new_receiver, Delivery, rejected, delivered, delivery_of, receive, receive_frame, open_receiver,
}
use fecalia.Bond.Transport.Send.{transmit, acknowledgement}
use fecalia.Bond.Transport.Balance.{all, of_class, held}
use fecalia.Bond.Transport.Run.{
  Call, receives, sets_remote, leases, keeps_alive, times_out, sends, repairs, call_all,
  call_all-Balanced,
}
use fecalia.Bond.Transport.Reception.{Genuine}
use fecalia.Bond.Transport.Delivered.{IsFilled, receive-Genuine}
use fecalia.Bond.Transport.Once.{log_all, Distinct, call_all-Once}
use fecalia.Bond.Receipts.Observed.{marked, highest}
use fecalia.Bond.Transport.Reports.{acknowledgement-received}
use fecalia.Bond.Transport.Rejected.{after_rejection, receive-rejected}
use fecalia.Bond.Transport.Arrives.{Ready, transmit-received}

abbrev here : Epoch
here = record { boot = 77; generation = 2 }

abbrev there : Epoch
there = record { boot = 99; generation = 1 }

abbrev begun : Epoch → Transport
begun epoch = record {
  epoch = epoch;
  remote = zero_epoch;
  paths = [];
  receivers = [];
  ledger = empty_ledger;
  pending_order = [];
  seq = 0;
  bulk_seq = 0;
  interactive_seq = 0;
  realtime_path = none;
  realtime_moves = 0;
  last_time = 0;
  rejected = λ _. 0;
  expired = 0;
  duplicates = 0;
  received = new_receipts;
  unreported = new_receipts;
}

begun-new : new here ≡ some (begun here)
unfolding new
begun-new = refl

-- A voice datagram of 20 bytes that waits in the queue.
abbrev voice : Datagram
voice = record {
  seq = 0;
  order = 0;
  class = realtime;
  interactive = true;
  payload = replicate 20 7;
  created = 5;
  repair_deadline = 0;
  last_sent = 0;
  last_path = 0;
  last_lane_seq = 0;
  attempts = 0;
}

-- The path 3 comes up; the datagram is sent over it, a keepalive behind it, and the datagram again
-- after its timeout; an acknowledgement reports the first of the three.
abbrev report : Control
report = ack_frame there 3 1 (record {
  observed = here;
  high = 1;
  mask = 1;
  bytes = 100;
  elapsed = 5;
  delay = 5;
  received_high = 1;
  received_mask = 1 ∷ 0 ∷ 0 ∷ 0 ∷ [];
})

abbrev calls : List Call
calls =
    sets_remote there false
    ∷ leases 3 4 10
    ∷ sends voice 3 20
    ∷ keeps_alive 3 0 30
    ∷ times_out 3 5 40
    ∷ repairs 1 3 50
    ∷ receives 3 report 60
    ∷ []

abbrev lane_after : Lane
lane_after = elim (find_lane (call_all (begun here) calls).paths 3) [
  | none ↦ new_lane 3 4 10
  | some p ↦ p
]

lane_after-found : find_lane (call_all (begun here) calls).paths 3 ≡ some lane_after
unfolding call_all path set_remote transmit keep_alive time_out receive receive_frame parse_header
    read_be ack_frame be parse_ack mark received
lane_after-found = refl

call_all-Balanced_example :
    (lane_after.inflight ≡ held all lane_after.attempts)
    × ((c : Class) → lane_after.class_inflight c ≡ held (of_class c) lane_after.attempts)
    × ((k : ℕ)
        → member k (call_all (begun here) calls).ledger.pending ≡ true
        → member k (call_all (begun here) calls).ledger.acked ≡ false)
call_all-Balanced_example =
    call_all-Balanced here (begun here) calls 3 lane_after begun-new lane_after-found

-- The other endpoint sends its first datagram over its lane 4, whose frame arrives on the path 3.
abbrev sender : Transport
sender = record (begun there) { remote = here }

abbrev sending_lane : Lane
sending_lane = new_lane 4 3 10

abbrev leased_lane : Lane
leased_lane = record (new_lane 3 4 10) { lease = some 10 }

abbrev receiver : Transport
receiver = record (begun here) { remote = there; paths = leased_lane ∷ [] }

ready : Ready sender receiver voice sending_lane 3 40
unfolding open_receiver mark
ready = record {
  to = refl;
  from = refl;
  header = record {
    boot = omega arith;
    generation = omega arith;
    lane = omega arith;
    boot_set = omega arith;
    generation_set = omega arith;
  };
  boot = omega arith;
  generation = omega arith;
  unsent = refl;
  filled = omega arith;
  bounded = omega arith;
  seq_fits = omega arith;
  interactive_fits = omega arith;
  bulk_fits = omega arith;
  on_time = omega arith;
  lane = leased_lane;
  found = refl;
  leased = refl;
  remote_lane = refl;
  on_path = refl;
  new_frame = refl;
  new_datagram = refl;
}

transmit-received_example :
    (receive receiver 3 (transmit sender voice sending_lane 20).1 40).1
    ≡ delivered (record { sequence = 1; interactive = true; payload = replicate 20 7 } ∷ [])
transmit-received_example = transmit-received sender receiver voice sending_lane 20 3 40 ready

abbrev frame_in : Control
frame_in = data_frame there here 4 1 1 (2 ^ 63 + 1) (5 ∷ 6 ∷ [])

frame_in-delivered :
    (receive receiver 3 frame_in 40).1 ≡ delivered (delivery_of frame_in.payload ∷ [])
unfolding receive receive_frame parse_header read_be data_frame be mark
frame_in-delivered = refl

abbrev nothing : List Delivery
nothing = []

receive-Genuine_example :
    Genuine receiver 3 frame_in 40
    × IsFilled frame_in.payload
    × (delivery_of frame_in.payload ≡ delivery_of frame_in.payload)
    × (nothing ≡ [])
receive-Genuine_example =
    receive-Genuine receiver 3 frame_in 40 (delivery_of frame_in.payload) nothing frame_in-delivered

-- The frame comes twice.
abbrev replayed : List Call
replayed =
    sets_remote there false ∷ leases 3 4 10 ∷ receives 3 frame_in 20 ∷ receives 3 frame_in 30 ∷ []

call_all-Once_example : Distinct (log_all (begun here) replayed [])
call_all-Once_example = call_all-Once here (begun here) replayed begun-new

abbrev replayed_state : Transport
replayed_state = call_all (begun here) replayed

abbrev peer : Receiver
peer = new_receiver 3 4 20

replayed_high : (acknowledgement replayed_state peer 40).received_high ≡ 1
unfolding acknowledgement call_all path set_remote receive receive_frame parse_header read_be
    data_frame be mark oldest
replayed_high = refl

replayed_log : highest (log_all (begun here) replayed []) ≡ 1
unfolding call_all path set_remote receive receive_frame parse_header read_be data_frame be mark
replayed_log = refl

acknowledgement-received_example :
    received (acknowledgement replayed_state peer 40) 1
    ≡ marked 1 (log_all (begun here) replayed [])
acknowledgement-received_example =
    acknowledgement-received here (begun here) replayed peer 40 1 begun-new
      (omega (arith, replayed_log)) (omega arith) (omega (arith, replayed_high))
      (omega (arith, replayed_high)) (omega (arith, replayed_log))

-- A frame of an unknown type.
abbrev stray : Control
stray = record { control_type = 9; seq = 1; payload = frame_in.payload }

stray-rejected : (receive receiver 3 stray 40).1 ≡ rejected type_cause
unfolding receive receive_frame parse_header read_be data_frame be
stray-rejected = refl

receive-rejected_example : (receive receiver 3 stray 40).0 ≡ after_rejection receiver 40 type_cause
receive-rejected_example = receive-rejected receiver 3 stray 40 type_cause stray-rejected
