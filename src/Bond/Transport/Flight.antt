-- ===== src/Bond/Transport/Flight.antt =====
-- What is in flight on a lane: `transmit`, `release`, the timeouts of `Poll`, and what an
-- acknowledgement confirms, `confirmArrived` and `ack`.
use fecalia.Base.{
  ℕ, ◌+◌, ◌-◌, ◌*◌, min, max, Bool, true, false, not, ◌&&◌, ◌||◌, Option, none, some, List, [], ◌∷◌,
  ltb, leb, ◌==◌, if◌then◌else◌, add64,
}
use fecalia.Frame.{Control}
use fecalia.Bond.{data_frame}
use fecalia.Bond.Ack.{Acknowledgement, bit, received}
use fecalia.Bond.Receipts.{max_packets}
use fecalia.Bond.Transport.{
  max_datagram, wire_overhead, feedback_horizon, Class, same_class, Carried, Attempt, Lane, Ledger,
  Transport, put_lane, up,
}

abbrev pub Entry : Type 0
Entry = ℕ × Attempt

abbrev pub take_from : (Class → ℕ) → Class → ℕ → Class → ℕ
take_from n c bytes d = if same_class c d then n d - bytes else n d

abbrev pub add_to : (Class → ℕ) → Class → ℕ → Class → ℕ
add_to n c bytes d = if same_class c d then n d + bytes else n d

unfoldable pub release : Lane → Attempt → Lane
release p a = elim a.packet [
  | none ↦ record p { inflight = p.inflight - a.bytes }
  | some k ↦ record p {
    inflight = p.inflight - a.bytes;
    class_inflight = take_from p.class_inflight k.class a.bytes;
  }
]

-- The guard `if !a.released` in front of every call of `release`.
abbrev pub release_once : Lane → Attempt → Lane
release_once p a = if a.released then p else release p a

abbrev pub member : ℕ → List ℕ → Bool
member k [] = false
member k (x ∷ l) = x == k || member k l

abbrev pub delete : ℕ → List ℕ → List ℕ
delete k [] = []
delete k (x ∷ l) = let rest = delete k l in if x == k then rest else x ∷ rest

-- `sent.packet.acked = true` and `delete(t.pending, sent.packet.seq)`.
unfoldable pub settle : Ledger → ℕ → Ledger
settle g seq = record { pending = delete seq g.pending; acked = seq ∷ g.acked }

abbrev pub settle_carried : Ledger → Option Carried → Ledger
settle_carried g none = g
settle_carried g (some k) = settle g k.seq

-- The first loop of `ack`, over the pending datagrams: what it leaves, and what it marks.
unfoldable pub settle_pending : Acknowledgement → List ℕ → List ℕ → List ℕ × List ℕ
settle_pending a [] acked = ([], acked)
settle_pending a (seq ∷ l) acked =
    let rest = settle_pending a l acked in
    if received a seq then (rest.0, seq ∷ rest.1) else (seq ∷ rest.0, rest.1)

-- Whether the bitmap of the lane reports the attempt.
abbrev pub reported : Acknowledgement → ℕ → Bool
reported a seq = leb seq a.high && ltb (a.high - seq) 64 && bit a.mask (a.high - seq)

-- Whether the datagram of an attempt is known to have arrived.
abbrev pub arrived : Acknowledgement → Ledger → Option Carried → Bool
arrived a g none = false
arrived a g (some k) = member k.seq g.acked || received a k.seq

-- Whether the datagram is known to have arrived and the bitmap has moved past the attempt.
abbrev pub outlived : Acknowledgement → Ledger → ℕ → Attempt → Bool
outlived a g seq s = arrived a g s.packet && ltb seq a.high && leb 64 (a.high - seq)

abbrev pub count_wire : Lane → Attempt → Lane
count_wire p s = elim s.packet [
  | none ↦ p
  | some _ ↦ record p {
    confirmed_wire_bytes = min (max_packets * max_datagram) (p.confirmed_wire_bytes + s.bytes);
  }
]

-- A lane and the receipts, as a loop over its attempts leaves them; `counted` is the count of wire
-- bytes through the acknowledged sequence.
pub record Sweep : Type 0 where
  pub lane : Lane
  pub ledger : Ledger
  pub counted : Option ℕ

-- An attempt that is confirmed: its bytes are released and counted, its datagram is settled.
unfoldable pub confirm : Sweep → Attempt → Sweep
unfolding release settle
confirm w s =
    let p = release_once (count_wire w.lane s) s in
    record w {
      lane = record p { acked = add64 p.acked s.bytes };
      ledger = settle_carried w.ledger s.packet;
    }

-- The loop of `ack` over the attempts of its lane: what it keeps, and how it leaves the lane.
unfoldable pub confirm_loop : Acknowledgement → Bool → List Entry → Sweep → List Entry × Sweep
unfolding confirm
confirm_loop a fresh [] w = ([], w)
confirm_loop a fresh ((seq, s) ∷ l) w =
    if reported a seq
    then (let next = confirm w s in
        confirm_loop a fresh l
          (if fresh && seq == a.high then record next { counted = some s.through } else next))
    else (if outlived a w.ledger seq s
        then confirm_loop a fresh l (record w { lane = release_once w.lane s })
        else (let rest = confirm_loop a fresh l w in ((seq, s) ∷ rest.0, rest.1)))

-- The loop of `confirmArrived`.
unfoldable pub arrived_loop : ℕ → List Entry → Sweep → List Entry × Sweep
unfolding confirm
arrived_loop high [] w = ([], w)
arrived_loop high ((seq, s) ∷ l) w =
    if ltb high seq
    then (let rest = arrived_loop high l w in ((seq, s) ∷ rest.0, rest.1))
    else arrived_loop high l (confirm w s)

unfoldable pub confirm_arrived : Acknowledgement → ℕ → Sweep → Sweep
unfolding arrived_loop
confirm_arrived a through w =
    if through == a.bytes
    then (let rest = arrived_loop a.high w.lane.attempts w in
        record rest.1 { lane = record (rest.1.lane) { attempts = rest.0 } })
    else w

-- The part of `ack` that it does for a fresh acknowledgement behind the first loops.
unfoldable pub ack_through : Acknowledgement → Sweep → Sweep
unfolding confirm_arrived
ack_through a w =
    let p : Lane = elim w.counted [
      | none ↦ w.lane
      | some through ↦ record (w.lane) { received_through = through }
    ] in
    if ltb 0 p.received_through && a.high == p.received_high
    then confirm_arrived a p.received_through (record w { lane = p })
    else record w { lane = p }

-- The loop of `ack` over the attempts of every lane: a datagram that is known to have arrived holds
-- no bytes of any lane.
unfoldable pub global_loop :
    Acknowledgement → List Entry → Lane → Ledger → List Entry × (Lane × Ledger)
unfolding release
global_loop a [] p g = ([], (p, g))
global_loop a ((seq, s) ∷ l) p g =
    if arrived a g s.packet && not s.confirmed
    then (let rest =
          global_loop a l (release_once p s)
            (elim s.packet [ none ↦ g | some k ↦ record g { acked = k.seq ∷ g.acked } ]) in
        ((seq, record s { released = true; confirmed = true }) ∷ rest.0, rest.1))
    else (let rest = global_loop a l p g in ((seq, s) ∷ rest.0, rest.1))

unfoldable pub global_lanes : Acknowledgement → List Lane → Ledger → List Lane × Ledger
unfolding global_loop
global_lanes a [] g = ([], g)
global_lanes a (p ∷ l) g =
    let (kept, (q, g)) = global_loop a p.attempts p g in
    let rest = global_lanes a l g in (record q { attempts = kept } ∷ rest.0, rest.1)

-- `ack` up to its first loop: the highest sequence that the peer reported on the lane.
abbrev pub note_high : Lane → ℕ → Lane
note_high p high = record p {
  received_through = if ltb p.received_high high then 0 else p.received_through;
  received_high = max p.received_high high;
}

-- The loops of `ack` over the lane of the acknowledgement.
unfoldable pub ack_lane : Lane → Ledger → Acknowledgement → Bool → Sweep
unfolding settle_pending confirm_loop ack_through
ack_lane p g a fresh =
    let settled = settle_pending a g.pending g.acked in
    let rest = confirm_loop a fresh p.attempts (record {
      lane = note_high p a.high;
      ledger = record { pending = settled.0; acked = settled.1 };
      counted = none;
    }) in
    let w = record rest.1 { lane = record (rest.1.lane) { attempts = rest.0 } } in
    if fresh then ack_through a w else w

-- `ack`.
unfoldable pub ack : Transport → Lane → Acknowledgement → Bool → Transport
unfolding ack_lane global_lanes
ack t p a fresh =
    let w = ack_lane p t.ledger a fresh in
    let q : Lane =
      if fresh
      then record (w.lane) { acked_bytes = a.bytes; acked_elapsed = a.elapsed }
      else w.lane in
    let rest = global_lanes a (put_lane t.paths q) w.ledger in
    record t { paths = rest.0; ledger = rest.1 }

-- `beginAttempt`.
abbrev pub begin_attempt : Lane → Lane
begin_attempt p = record p { seq = p.seq + 1 }

-- An attempt is put in flight, under the sequence that `beginAttempt` gave it.
unfoldable pub launch : Lane → Option Carried → ℕ → ℕ → Lane
launch p packet size now =
    let a : Attempt = record {
      packet = packet;
      sent = now;
      bytes = size;
      released = false;
      confirmed = false;
      through = add64 p.sent size;
    } in
    record p {
      attempts = (p.seq, a) ∷ p.attempts;
      inflight = p.inflight + size;
      class_inflight = elim packet [
        | none ↦ p.class_inflight
        | some k ↦ add_to p.class_inflight k.class size
      ];
      sent = add64 p.sent size;
      last_transmit = now;
    }

-- A keepalive of `Poll`, with its frame. The interval depends on the liveness of the lane.
unfoldable pub keep_alive : Transport → Lane → ℕ → ℕ → Transport × Option Control
unfolding launch
keep_alive t p interval now =
    if up p now && leb interval (now - p.last_transmit)
    then (let q = launch (begin_attempt p) none wire_overhead now in
        (
          record t { paths = put_lane t.paths q },
          some (data_frame t.epoch t.remote q.id q.seq 0 0 []),
        ))
    else (t, none)

-- The timeouts of `Poll`, over the attempts of a lane.
unfoldable pub timeout_loop : ℕ → ℕ → List Entry → Lane → List Entry × Lane
unfolding release
timeout_loop rto now [] p = ([], p)
timeout_loop rto now ((seq, s) ∷ l) p =
    let late = not s.released && leb rto (now - s.sent) in
    let q = if late then release p s else p in
    let a : Attempt = if late then record s { released = true } else s in
    if leb feedback_horizon (now - s.sent)
    then timeout_loop rto now l (release_once q a)
    else (let rest = timeout_loop rto now l q in ((seq, a) ∷ rest.0, rest.1))

unfoldable pub time_out : Lane → ℕ → ℕ → Lane
unfolding timeout_loop
time_out p rto now =
    let rest = timeout_loop rto now p.attempts p in record (rest.1) { attempts = rest.0 }
