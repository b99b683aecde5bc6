-- ===== src/Bond/Transport/Send.antt =====
-- `transmit` of internal/bond/bond.go, and what its `Poll` does with the datagrams that wait for
-- their receipt. Which lane carries a datagram is the choice of the scheduler: the lane is an argument.
-- The meters of demand and of waiting times, and the pacing, are left out.
use fecalia.Base.{
  ℕ, zero, suc, ◌+◌, ◌-◌, ◌*◌, ◌^◌, min, Bool, not, ◌&&◌, ◌||◌, Option, none, some, List, [], ◌∷◌,
  ◌++◌, ltb, ◌==◌, if◌then◌else◌, add64, sub64, length,
}
use fecalia.Frame.{Control}
use fecalia.Bond.{data_frame}
use fecalia.Bond.Transport.{
  wire_overhead, interactive_bit, Class, realtime, small, bulk, Datagram, Lane, Ledger, Transport,
  Receiver, find_lane, up, put_lane,
}
use fecalia.Bond.Ack.{Acknowledgement, ack_frame}
use fecalia.Bond.Receipts.{ack_receipt_bits, oldest, bitmap, forget_through}
use fecalia.Bond.Transport.Receive.{put_receiver}
use fecalia.Bond.Transport.Flight.{member, delete, begin_attempt, launch}

abbrev pub max_packet_age : ℕ
max_packet_age = 250 * 10 ^ 6

abbrev pub put_datagram : List Datagram → Datagram → List Datagram
put_datagram [] q = []
put_datagram (d ∷ l) q = if d.seq == q.seq then q ∷ l else d ∷ put_datagram l q

-- The first transmission of a datagram gives it its sequence and its order. The bit of an
-- interactive order is set by a sum: the counter is below it.
unfoldable pub number : Transport → Datagram → ℕ → Transport × Datagram
number t d now =
    let q : Datagram = record d {
      repair_deadline = if d.interactive then d.created + max_packet_age else now + max_packet_age;
      seq = t.seq + 1;
      order = if d.interactive then t.interactive_seq + 1 + interactive_bit else t.bulk_seq + 1;
    } in
    (
      record t {
        seq = t.seq + 1;
        interactive_seq = if d.interactive then t.interactive_seq + 1 else t.interactive_seq;
        bulk_seq = if d.interactive then t.bulk_seq else t.bulk_seq + 1;
        pending_order = t.pending_order ++ (q ∷ []);
      },
      q,
    )

-- The counts of original datagrams, of the lane and of the moves between lanes.
unfoldable pub count_original : Transport → Lane → Class → Transport × Lane
count_original t p realtime = (
  record t {
    realtime_path = some p.id;
    realtime_moves = elim t.realtime_path [
      | none ↦ t.realtime_moves
      | some id ↦ if id == p.id then t.realtime_moves else add64 t.realtime_moves 1
    ];
  },
  record p { realtime_originals = add64 p.realtime_originals 1 },
)
count_original t p small = (t, p)
count_original t p bulk = (t, record p { bulk_originals = add64 p.bulk_originals 1 })

-- `t.pending[p.seq] = p`.
abbrev pub await_receipt : Ledger → ℕ → Ledger
await_receipt g seq = record g {
  pending = if member seq g.pending then g.pending else seq ∷ g.pending;
}

-- The lane with the datagram in flight.
unfoldable pub carry : Lane → Datagram → ℕ → Lane
unfolding launch
carry p d now =
    let size = length d.payload + wire_overhead in
    let q : Lane =
      launch (begin_attempt p) (some (record { seq = d.seq; class = d.class })) size now in
    record q {
      interactive_sent =
          if d.interactive then add64 q.interactive_sent size else q.interactive_sent;
      retries = if ltb 0 d.attempts then add64 q.retries 1 else q.retries;
    }

-- The part of `transmit` that every transmission shares.
unfoldable pub send_datagram : Transport → Datagram → Lane → ℕ → Transport × Control
unfolding carry
send_datagram t d p now =
    let q = carry p d now in
    let sent : Datagram = record d {
      attempts = d.attempts + 1;
      last_sent = now;
      last_path = q.id;
      last_lane_seq = q.seq;
    } in
    (
      record t {
        paths = put_lane t.paths q;
        ledger = await_receipt t.ledger d.seq;
        pending_order = put_datagram t.pending_order sent;
      },
      data_frame t.epoch t.remote q.id q.seq d.seq d.order d.payload,
    )

-- `transmit`; a datagram that was not sent before has the sequence 0.
unfoldable pub transmit : Transport → Datagram → Lane → ℕ → Transport × Control
unfolding number count_original send_datagram
transmit t d p now =
    if d.seq == 0
    then (let (t, p) = count_original t p d.class in
        let (t, d) = number t d now in send_datagram t d p now)
    else send_datagram t d p now

-- What the loop of `Poll` over `pendingOrder` keeps, forgets and counts as expired.
unfoldable pub retain : ℕ → List Datagram → Ledger → ℕ → List Datagram × (Ledger × ℕ)
retain now [] g expired = ([], (g, expired))
retain now (d ∷ l) g expired =
    if member d.seq g.acked
    then retain now l (record g { pending = delete d.seq g.pending }) expired
    else (if ltb d.repair_deadline now
        then retain now l (record g { pending = delete d.seq g.pending }) (add64 expired 1)
        else (let rest = retain now l g expired in (d ∷ rest.0, rest.1)))

unfoldable pub expire_pending : Transport → ℕ → Transport
unfolding retain
expire_pending t now =
    let (kept, (g, expired)) = retain now t.pending_order t.ledger t.expired in
    record t { pending_order = kept; ledger = g; expired = expired }

-- The number whose bit `i` is the bit `i` of a word, below `n`.
unfoldable pub number_of : ℕ → (ℕ → Bool) → ℕ
number_of zero w = 0
number_of (suc n) w = (if w 0 then 1 else 0) + 2 * number_of n (λ i. w (i + 1))

-- The acknowledgement that `Poll` makes of a receiver. A receipt that is not reported yet reaches the
-- peer even after newer ones have moved past the bitmap.
unfoldable pub acknowledgement : Transport → Receiver → ℕ → Acknowledgement
unfolding number_of
acknowledgement t r now =
    let first = oldest t.unreported in
    let high =
      if first == 0
      then t.received.high
      else first + min (ack_receipt_bits - 1) (sub64 t.received.high first) in
    let bits = bitmap t.received high in
    record {
      observed = t.remote;
      high = r.receipts.high;
      mask = number_of 64 (r.receipts.mask 0);
      bytes = r.bytes;
      elapsed = r.high_at - r.start;
      delay = now - r.high_at;
      received_high = high;
      received_mask =
          number_of 64 (bits 0)
          ∷ number_of 64 (bits 1)
          ∷ number_of 64 (bits 2)
          ∷ number_of 64 (bits 3)
          ∷ [];
    }

-- The acknowledgement is sent: what it reports is no longer due.
unfoldable pub acknowledged : Transport → Receiver → ℕ → Transport × Option Control
unfolding acknowledgement
acknowledged t r now =
    let a = acknowledgement t r now in
    (
      record t {
        receivers = put_receiver t.receivers (record r { revision = r.revision + 1; pending = 0 });
        unreported = forget_through t.unreported a.received_high;
      },
      some (ack_frame t.epoch r.remote_lane (r.revision + 1) a),
    )

-- The acknowledgement of a receiver on a path that is up, if there is something to acknowledge and the
-- time for it has come, with its frame. The pacing of acknowledgements decides when it is due.
unfoldable pub acknowledge : Transport → Receiver → ℕ → Bool → Transport × Option Control
unfolding acknowledged
acknowledge t r now due = elim (find_lane t.paths r.path) [
  | none ↦ (t, none)
  | some p ↦
      if up p now && (ltb 0 r.pending || not (oldest t.unreported == 0)) && due
      then acknowledged t r now
      else (t, none)
]
