-- ===== src/Bond/Transport/Received.antt =====
-- Receiving a frame keeps the invariant of a transport.
use fecalia.Base.{ℕ, ◌≡◌, refl, Bool, List, ltb, ◌==◌, if◌then◌else◌, if_both}
use fecalia.Frame.{Control}
use fecalia.Bond.{PacketHeader}
use fecalia.Bond.Ack.{Acknowledgement}
use fecalia.Bond.Receipts.{ReceiptWindow, mark}
use fecalia.Bond.Transport.{Class, Lane, Transport, Receiver, interactive_bit, put_lane}
use fecalia.Bond.Transport.Flight.{ack}
use fecalia.Bond.Transport.Receive.{
  Reply, rejected, delivered, count_bulk, open_receiver, take_datagram, take_frame, take_ack,
  receive_from, receive_frame, count_rejection, receive, order_of, seq_of,
}
use fecalia.Bond.Transport.Cases.{
  receive_data_cases, receive_ack_cases, receive_from_cases, receive_frame_cases,
}
use fecalia.Bond.Transport.Balanced.{IsLane, AreLanes, find_lane-IsLane, put_lane-AreLanes}
use fecalia.Bond.Transport.Acked.{ack-AreLanes}
use fecalia.Bond.Transport.Monotone.{same_counters}
use fecalia.Bond.Transport.Valid.{IsValid}

abbrev ValidReply : Transport × Reply → Type 0
ValidReply r = IsValid r.0

module _ (t : Transport) (v : IsValid t) where
  -- A change of one lane that the invariant does not read.
  pub put_same :
      (p q : Lane)
      → IsLane t.seq p
      → q.inflight ≡ p.inflight
      → q.seq ≡ p.seq
      → ((c : Class) → q.class_inflight c ≡ p.class_inflight c)
      → q.attempts ≡ p.attempts
      → AreLanes t.seq (put_lane t.paths q)
  put_same p q lane bytes seq classes e =
      put_lane-AreLanes t.seq t.paths q v.lanes (same_counters t.seq p q bytes seq classes e lane)

  pub with_lanes : (l : List Lane) → AreLanes t.seq l → IsValid (record t { paths = l })
  with_lanes l vs = record { lanes = vs; ledger = v.ledger; order = v.order }

  count_bulk-AreLanes :
      (p : Lane) (order : ℕ) → IsLane t.seq p → AreLanes t.seq (count_bulk t.paths p order)
  count_bulk-AreLanes p order lane =
      if_both (AreLanes t.seq) (ltb order interactive_bit)
        (put_same p _ lane refl refl (λ _. refl) refl) v.lanes

  take_datagram-IsValid :
      (p : Lane) (b : List ℕ) → IsLane t.seq p → ValidReply (take_datagram t p b)
  unfolding take_datagram
  take_datagram-IsValid p b lane =
      let counted = count_bulk-AreLanes p (order_of b) lane in
      if_both ValidReply (seq_of b == 0) v (
        if_both ValidReply (mark t.received (seq_of b)).1
          (record { lanes = counted; ledger = v.ledger; order = v.order })
          (record { lanes = counted; ledger = v.ledger; order = v.order }))

module _ (t : Transport) (v : IsValid t) where
  take_frame-IsValid :
      (p : Lane) (r : Receiver) (f : Control) (now : ℕ)
      → IsLane t.seq p
      → ValidReply (take_frame t p r f now)
  unfolding take_frame
  take_frame-IsValid p r f now lane =
      if_both ValidReply (mark r.receipts f.seq).1
        (take_datagram-IsValid (record t { receivers = _ })
          (record { lanes = v.lanes; ledger = v.ledger; order = v.order }) p f.payload lane)
        (record { lanes = v.lanes; ledger = v.ledger; order = v.order })

  ack-IsValid :
      (p : Lane) (a : Acknowledgement) (fresh : Bool) → IsLane t.seq p → IsValid (ack t p a fresh)
  unfolding ack
  ack-IsValid p a fresh lane =
      let (lanes, settled) = ack-AreLanes t.seq t p a fresh v.lanes v.ledger lane in
      record { lanes = lanes; ledger = settled.0; order = v.order }

  with_receivers : (l : List Receiver) → IsValid (record t { receivers = l })
  with_receivers l = record { lanes = v.lanes; ledger = v.ledger; order = v.order }

  take_ack-IsValid :
      (p : Lane) (a : Acknowledgement) (seq : ℕ) (m : ReceiptWindow × Bool)
      → IsLane t.seq p
      → ValidReply (take_ack t p a seq m)
  unfolding take_ack
  take_ack-IsValid p a seq (window, unseen) lane =
      let q : Lane = record p {
        ack_receipts = window;
        ack_revision = if ltb p.ack_revision seq then seq else p.ack_revision;
      } in
      let marked : IsLane t.seq q = same_counters t.seq p q refl refl (λ _. refl) refl lane in
      if_both ValidReply unseen (ack-IsValid q a (ltb p.ack_revision seq) marked) (
        with_lanes t v (put_lane t.paths (record p { ack_receipts = window }))
          (put_same t v p (record p { ack_receipts = window }) lane refl refl (λ _. refl) refl))

receive_from-IsValid :
    (t : Transport) (id : ℕ) (h : PacketHeader) (f : Control) (now : ℕ)
    → IsValid t
    → ValidReply (receive_from t id h f now)
receive_from-IsValid t id h f now v =
    receive_from_cases ValidReply t id f h now (λ _. v)
      (λ p found _ _ _.
        receive_data_cases ValidReply t id f p h now (λ _. v)
          (λ _. with_receivers t v (open_receiver t.receivers id h.lane now).1)
          (λ _.
            let r = open_receiver t.receivers id h.lane now in
            take_frame-IsValid (record t { receivers = r.1 }) (with_receivers t v r.1) p r.0 f now
              (find_lane-IsLane t.seq t.paths id p v.lanes found)))
      (λ p found.
        receive_ack_cases ValidReply t id f p h (λ _. v)
          (λ a.
            take_ack-IsValid t v p a f.seq (mark p.ack_receipts f.seq)
              (find_lane-IsLane t.seq t.paths id p v.lanes found)))

frame-IsValid :
    (t : Transport) (id : ℕ) (f : Control) (now : ℕ)
    → IsValid t
    → ValidReply (receive_frame t id f now)
frame-IsValid t id f now v =
    let later : IsValid (record t { last_time = now }) = record {
      lanes = v.lanes;
      ledger = v.ledger;
      order = v.order;
    } in
    receive_frame_cases ValidReply t id f now (λ _. v) (λ _. later)
      (λ h _ _. receive_from-IsValid (record t { last_time = now }) id h f now later)

counted-IsValid : (r : Transport × Reply) → ValidReply r → ValidReply (count_rejection r)
unfolding count_rejection
counted-IsValid (u, rejected c) w = record { lanes = w.lanes; ledger = w.ledger; order = w.order }
counted-IsValid (u, delivered l) w = w

pub receive-IsValid :
    (t : Transport) (id : ℕ) (f : Control) (now : ℕ) → IsValid t → IsValid (receive t id f now).0
unfolding receive
receive-IsValid t id f now v =
    counted-IsValid (receive_frame t id f now) (frame-IsValid t id f now v)
