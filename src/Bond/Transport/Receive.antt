-- ===== src/Bond/Transport/Receive.antt =====
-- `Receive` of internal/bond/bond.go: the frames that a transport takes, and what it does with them.
use fecalia.Base.{
  ℕ, ◌+◌, ◌-◌, ◌%◌, Bool, not, ◌&&◌, ◌||◌, Option, none, some, List, [], ◌∷◌, ◌++◌, ltb, leb, ◌==◌,
  if◌then◌else◌, add64, length, drop, read_be,
}
use fecalia.Frame.{Control}
use fecalia.Bond.{Epoch, PacketHeader, data_type, header_bytes, data_field_bytes, parse_header}
use fecalia.Bond.Ack.{Acknowledgement, ack_type, parse_ack}
use fecalia.Bond.Receipts.{ReceiptWindow, new_receipts, mark}
use fecalia.Bond.Transport.{
  max_datagram, wire_overhead, interactive_bit, Cause, malformed, epoch_cause, path_cause,
  lane_cause, ack_cause, type_cause, time_cause, same_cause, Lane, Receiver, Transport, same_epoch,
  find_lane, put_lane, up, check_time,
}
use fecalia.Bond.Transport.Flight.{ack}

pub record Delivery : Type 0 where
  pub sequence : ℕ
  pub interactive : Bool
  pub payload : List ℕ

-- The two results of `receive`: an error, or the deliveries.
pub data Reply : Type 0 where
  rejected : Cause → Reply
  delivered : List Delivery → Reply

-- The word of a payload at an offset; the code reads none behind the end.
abbrev pub word : List ℕ → ℕ → ℕ
word b offset = elim (read_be 8 0 (drop offset b)) [ none ↦ 0 | some (v, _) ↦ v ]

abbrev pub destination : List ℕ → Epoch
destination b = record { boot = word b header_bytes; generation = word b (header_bytes + 8) }

abbrev pub seq_of : List ℕ → ℕ
seq_of b = word b (header_bytes + 16)

abbrev pub order_of : List ℕ → ℕ
order_of b = word b (header_bytes + 24)

-- `map[PathID]*receiver`, whose keys are the remote lanes.
abbrev pub find_receiver : List Receiver → ℕ → Option Receiver
find_receiver [] lane = none
find_receiver (r ∷ l) lane = if r.remote_lane == lane then some r else find_receiver l lane

abbrev pub put_receiver : List Receiver → Receiver → List Receiver
put_receiver [] q = []
put_receiver (r ∷ l) q = if r.remote_lane == q.remote_lane then q ∷ l else r ∷ put_receiver l q

abbrev pub new_receiver : ℕ → ℕ → ℕ → Receiver
new_receiver path lane now = record {
  path = path;
  remote_lane = lane;
  receipts = new_receipts;
  bytes = 0;
  start = now;
  last = 0;
  high_at = 0;
  pending = 0;
  revision = 0;
}

-- The receiver of a lane, and the receivers with it.
unfoldable pub open_receiver : List Receiver → ℕ → ℕ → ℕ → Receiver × List Receiver
open_receiver l path lane now = elim (find_receiver l lane) [
  | none ↦ let r = new_receiver path lane now in (r, l ++ (r ∷ []))
  | some r ↦ (r, l)
]

-- The receiver with a frame of its lane that is new, after `mark`.
unfoldable pub count_frame : Receiver → ReceiptWindow → ℕ → ℕ → ℕ → Receiver
count_frame r receipts seq size now = record r {
  receipts = receipts;
  high_at = if ltb r.receipts.high seq then now else r.high_at;
  bytes = add64 r.bytes (size - header_bytes - data_field_bytes + wire_overhead);
  last = now;
  pending = r.pending + 1;
}

abbrev pub count_bulk : List Lane → Lane → ℕ → List Lane
count_bulk l p order =
    if ltb order interactive_bit
    then put_lane l (record p { bulk_received = add64 p.bulk_received 1 })
    else l

-- What is handed over of the payload of a frame.
abbrev pub delivery_of : List ℕ → Delivery
delivery_of b = record {
  sequence = order_of b % interactive_bit;
  interactive = leb interactive_bit (order_of b);
  payload = drop (header_bytes + 32) b;
}

-- The rest of a DATA frame whose number is new on its lane: a keepalive ends here, and a datagram is
-- handed over the first time.
unfoldable pub take_datagram : Transport → Lane → List ℕ → Transport × Reply
take_datagram t p b =
    if seq_of b == 0
    then (t, delivered [])
    else (let counted = record t { paths = count_bulk t.paths p (order_of b) } in
        let (window, fresh) = mark t.received (seq_of b) in
        if fresh
        then (
          record counted { received = window; unreported = (mark t.unreported (seq_of b)).0 },
          delivered (delivery_of b ∷ []),
        )
        else (
          record counted { received = window; duplicates = add64 t.duplicates 1 },
          delivered [],
        ))

-- The number of the frame on its lane.
unfoldable pub take_frame : Transport → Lane → Receiver → Control → ℕ → Transport × Reply
unfolding count_frame take_datagram
take_frame t p r f now =
    let (window, fresh) = mark r.receipts f.seq in
    if fresh
    then (let q = count_frame r window f.seq (length f.payload) now in
        take_datagram (record t { receivers = put_receiver t.receivers q }) p f.payload)
    else (
      record t {
        receivers = put_receiver t.receivers (record r { receipts = window });
        duplicates = add64 t.duplicates 1;
      },
      delivered [],
    )

-- A keepalive has no order and no payload; a datagram has both.
unfoldable pub is_malformed : List ℕ → Bool
is_malformed b =
    seq_of b == 0 && (not (order_of b == 0) || not (length b == header_bytes + 32))
    || not (seq_of b == 0) && (order_of b % interactive_bit == 0 || length b == header_bytes + 32)

unfoldable pub receive_data : Transport → ℕ → Lane → PacketHeader → Control → ℕ → Transport × Reply
unfolding open_receiver take_frame is_malformed
receive_data t path p h f now =
    if not (h.lane == p.remote_id)
    then (t, rejected lane_cause)
    else (if ltb (length f.payload) (header_bytes + 32)
          || ltb (header_bytes + 32 + max_datagram) (length f.payload)
        then (t, rejected malformed)
        else (if not (same_epoch (destination f.payload) t.epoch)
            then (t, rejected epoch_cause)
            else (if is_malformed f.payload
                then (t, rejected malformed)
                else (let (r, l) = open_receiver t.receivers path h.lane now in
                    if not (r.path == path)
                    then (record t { receivers = l }, rejected lane_cause)
                    else take_frame (record t { receivers = l }) p r f now))))

-- Whether an acknowledgement claims what was not sent or what it cannot know at its revision, before
-- its receipt is marked.
unfoldable pub is_impossible : Transport → Lane → Acknowledgement → Bool → Bool
is_impossible t p a fresh =
    ltb p.seq a.high
    || ltb t.seq a.received_high
    || fresh && (ltb a.bytes p.acked_bytes || ltb a.elapsed p.acked_elapsed)
    || not fresh && (ltb p.acked_bytes a.bytes || ltb p.acked_elapsed a.elapsed)

-- The acknowledgement with its number marked.
unfoldable pub take_ack :
    Transport → Lane → Acknowledgement → ℕ → ReceiptWindow × Bool → Transport × Reply
unfolding ack
take_ack t p a seq (window, unseen) =
    let fresh = ltb p.ack_revision seq in
    if unseen
    then (let q : Lane = record p {
      ack_receipts = window;
      ack_revision = if fresh then seq else p.ack_revision;
    } in
        (ack t q a fresh, delivered []))
    else (
      record t { paths = put_lane t.paths (record p { ack_receipts = window }) },
      rejected ack_cause,
    )

unfoldable pub judge_ack : Transport → Lane → Acknowledgement → ℕ → Transport × Reply
unfolding is_impossible take_ack
judge_ack t p a seq =
    if not (same_epoch a.observed t.epoch)
    then (t, rejected epoch_cause)
    else (if is_impossible t p a (ltb p.ack_revision seq)
        then (t, rejected ack_cause)
        else take_ack t p a seq (mark p.ack_receipts seq))

unfoldable pub receive_ack : Transport → ℕ → Lane → PacketHeader → Control → Transport × Reply
unfolding judge_ack
receive_ack t path p h f =
    if not (h.lane == path) then (t, rejected lane_cause) else (elim (parse_ack f.payload) [
      | none ↦ (t, rejected malformed)
      | some a ↦ judge_ack t p a f.seq
    ])

-- The `switch` on the type of the frame.
unfoldable pub receive_on : Transport → ℕ → Lane → PacketHeader → Control → ℕ → Transport × Reply
unfolding receive_data receive_ack
receive_on t path p h f now =
    if f.control_type == data_type
    then receive_data t path p h f now
    else (if f.control_type == ack_type then receive_ack t path p h f else (t, rejected type_cause))

unfoldable pub receive_from : Transport → ℕ → PacketHeader → Control → ℕ → Transport × Reply
unfolding receive_on
receive_from t path h f now =
    if not (same_epoch h.epoch t.remote) || f.seq == 0
    then (t, rejected epoch_cause)
    else (elim (find_lane t.paths path) [
      | none ↦ (t, rejected path_cause)
      | some p ↦ if up p now then receive_on t path p h f now else (t, rejected path_cause)
    ])

-- `receive`.
unfoldable pub receive_frame : Transport → ℕ → Control → ℕ → Transport × Reply
unfolding check_time receive_from
receive_frame t path f now = elim (check_time t now) [
  | none ↦ (t, rejected time_cause)
  | some t ↦ elim (parse_header f.payload) [
    | none ↦ (t, rejected malformed)
    | some h ↦ receive_from t path h f now
  ]
]

-- `Receive`: a rejection is counted under its cause.
unfoldable pub count_rejection : Transport × Reply → Transport × Reply
count_rejection (t, delivered l) = (t, delivered l)
count_rejection (t, rejected c) = (
  record t { rejected = λ d. if same_cause c d then add64 (t.rejected d) 1 else t.rejected d },
  rejected c,
)

unfoldable pub receive : Transport → ℕ → Control → ℕ → Transport × Reply
unfolding receive_frame count_rejection
receive t path f now = count_rejection (receive_frame t path f now)
