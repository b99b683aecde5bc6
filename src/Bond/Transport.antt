-- ===== src/Bond/Transport.antt =====
-- The transport of internal/bond/bond.go: the epochs, the lanes, the receivers, what is in flight and
-- what waits for its receipt. A lane is its part that is counted in whole numbers; its estimates
-- (rates, round trips, delays, losses) are computed from the same events, and no field here is
-- computed from them. A time is a number of nanoseconds, the zero time none. The maps are lists: the
-- order of the list is the order of the iteration. Sequences count up from 0 without wrapping round.
use fecalia.Base.{
  ℕ, zero, suc, ◌+◌, ◌-◌, ◌*◌, ◌^◌, Bool, true, false, not, ◌&&◌, ◌||◌, Option, none, some, List,
  [], ◌∷◌, ◌++◌, ltb, leb, ◌==◌, if◌then◌else◌, add64,
}
use fecalia.Bond.{Epoch, overhead}
use fecalia.Bond.Receipts.{ReceiptWindow, new_receipts}
pub mod Flight
pub mod Receive
pub mod Send
pub mod Cases
pub mod Balance
pub mod Loops
pub mod Kept
pub mod Ledgers
pub mod Settle
pub mod Balanced
pub mod Acked
pub mod Monotone
pub mod Valid
pub mod Received
pub mod Run
pub mod Once
pub mod Reception
pub mod Delivered
pub mod Rejected
pub mod Accepted
pub mod Words
pub mod Arrives
pub mod Acknowledged
pub mod Reports
pub mod Tests

abbrev pub max_datagram : ℕ
max_datagram = 9000

abbrev pub wire_overhead : ℕ
wire_overhead = overhead + 28

abbrev pub path_lease : ℕ
path_lease = 10 ^ 9

abbrev pub feedback_horizon : ℕ
feedback_horizon = 2 * 10 ^ 9

-- `interactiveBit`.
abbrev pub interactive_bit : ℕ
interactive_bit = 2 ^ 63

pub data Class : Type 0 where
  realtime small bulk : Class

abbrev pub same_class : Class → Class → Bool
same_class realtime realtime = true
same_class small small = true
same_class bulk bulk = true
same_class _ _ = false

-- `RejectionCause`.
pub data Cause : Type 0 where
  malformed epoch_cause path_cause lane_cause ack_cause type_cause time_cause : Cause

abbrev pub same_cause : Cause → Cause → Bool
same_cause malformed malformed = true
same_cause epoch_cause epoch_cause = true
same_cause path_cause path_cause = true
same_cause lane_cause lane_cause = true
same_cause ack_cause ack_cause = true
same_cause type_cause type_cause = true
same_cause time_cause time_cause = true
same_cause _ _ = false

-- The part of a `packet` that is read once it is sent. Its mark `acked` is kept by the transport.
pub record Datagram : Type 0 where
  pub seq : ℕ
  pub order : ℕ
  pub class : Class
  pub interactive : Bool
  pub payload : List ℕ
  pub created : ℕ
  pub repair_deadline : ℕ
  pub last_sent : ℕ
  pub last_path : ℕ
  pub last_lane_seq : ℕ
  pub attempts : ℕ

-- The datagram that an attempt carries, none in a keepalive: its delivery sequence and its class.
pub record Carried : Type 0 where
  pub seq : ℕ
  pub class : Class

-- `attempt`.
pub record Attempt : Type 0 where
  pub packet : Option Carried
  pub sent : ℕ
  pub bytes : ℕ
  pub released : Bool
  pub confirmed : Bool
  pub through : ℕ

pub record Lane : Type 0 where
  pub id : ℕ
  pub remote_id : ℕ
  pub lease : Option ℕ
  pub inflight : ℕ
  pub class_inflight : Class → ℕ
  pub confirmed_wire_bytes : ℕ
  pub seq : ℕ
  pub ack_revision : ℕ
  pub received_high : ℕ
  pub received_through : ℕ
  pub ack_receipts : ReceiptWindow
  pub acked_bytes : ℕ
  pub acked_elapsed : ℕ
  pub last_transmit : ℕ
  pub attempts : List (ℕ × Attempt)
  pub sent : ℕ
  pub interactive_sent : ℕ
  pub realtime_originals : ℕ
  pub bulk_originals : ℕ
  pub bulk_received : ℕ
  pub acked : ℕ
  pub retries : ℕ

-- `receiver`, without what times the acknowledgements.
pub record Receiver : Type 0 where
  pub path : ℕ
  pub remote_lane : ℕ
  pub receipts : ReceiptWindow
  pub bytes : ℕ
  pub start : ℕ
  pub last : ℕ
  pub high_at : ℕ
  pub pending : ℕ
  pub revision : ℕ

-- Receipts: `pending` holds the sequences of the map of that name, `acked` those of the datagrams
-- that are marked as acknowledged.
pub record Ledger : Type 0 where
  pub pending : List ℕ
  pub acked : List ℕ

pub record Transport : Type 0 where
  pub epoch : Epoch
  pub remote : Epoch
  pub paths : List Lane
  pub receivers : List Receiver
  pub ledger : Ledger
  pub pending_order : List Datagram
  pub seq : ℕ
  pub bulk_seq : ℕ
  pub interactive_seq : ℕ
  pub realtime_path : Option ℕ
  pub realtime_moves : ℕ
  pub last_time : ℕ
  pub rejected : Cause → ℕ
  pub expired : ℕ
  pub duplicates : ℕ
  pub received : ReceiptWindow
  pub unreported : ReceiptWindow

abbrev pub zero_epoch : Epoch
zero_epoch = record { boot = 0; generation = 0 }

abbrev pub empty_ledger : Ledger
empty_ledger = record { pending = []; acked = [] }

-- `New`; a zero epoch is a panic.
unfoldable pub new : Epoch → Option Transport
new epoch =
    if epoch.boot == 0 || epoch.generation == 0
    then none
    else some (record {
      epoch = epoch;
      remote = zero_epoch;
      paths = [];
      receivers = [];
      ledger = empty_ledger;
      pending_order = [];
      seq = 0;
      bulk_seq = 0;
      interactive_seq = 0;
      realtime_path = none;
      realtime_moves = 0;
      last_time = 0;
      rejected = λ _. 0;
      expired = 0;
      duplicates = 0;
      received = new_receipts;
      unreported = new_receipts;
    })

abbrev pub same_epoch : Epoch → Epoch → Bool
same_epoch a b = a.boot == b.boot && a.generation == b.generation

abbrev pub find_lane : List Lane → ℕ → Option Lane
find_lane [] id = none
find_lane (p ∷ l) id = if p.id == id then some p else find_lane l id

-- A write through the pointer that `find` returns.
abbrev pub put_lane : List Lane → Lane → List Lane
put_lane [] q = []
put_lane (p ∷ l) q = if p.id == q.id then q ∷ l else p ∷ put_lane l q

-- `lane.up`.
abbrev pub up : Lane → ℕ → Bool
up p now = elim p.lease [ none ↦ false | some lease ↦ ltb (now - lease) path_lease ]

-- `checkTime`: none if the time goes back.
unfoldable pub check_time : Transport → ℕ → Option Transport
check_time t now = if ltb now t.last_time then none else some (record t { last_time = now })

-- A lane as `Path` begins it.
abbrev pub new_lane : ℕ → ℕ → ℕ → Lane
new_lane id remote_id now = record {
  id = id;
  remote_id = remote_id;
  lease = none;
  inflight = 0;
  class_inflight = λ _. 0;
  confirmed_wire_bytes = 0;
  seq = 0;
  ack_revision = 0;
  received_high = 0;
  received_through = 0;
  ack_receipts = new_receipts;
  acked_bytes = 0;
  acked_elapsed = 0;
  last_transmit = now;
  attempts = [];
  sent = 0;
  interactive_sent = 0;
  realtime_originals = 0;
  bulk_originals = 0;
  bulk_received = 0;
  acked = 0;
  retries = 0;
}

-- The lane of `Path`, which it leaves with a new lease, and the lanes with it.
unfoldable pub lease_lane : List Lane → ℕ → ℕ → ℕ → List Lane
lease_lane l id remote_id now = elim (find_lane l id) [
  | none ↦ l ++ (record (new_lane id remote_id now) { lease = some now } ∷ [])
  | some p ↦ put_lane l (record p { lease = some now })
]

-- `Path`: the error is a time that goes back.
unfoldable pub path : Transport → ℕ → ℕ → ℕ → Option Transport
unfolding check_time lease_lane
path t id remote_id now = elim (check_time t now) [
  | none ↦ none
  | some t ↦ some (record t { paths = lease_lane t.paths id remote_id now })
]

unfoldable pub disable : Transport → ℕ → Transport
disable t id = elim (find_lane t.paths id) [
  | none ↦ t
  | some p ↦ record t { paths = put_lane t.paths (record p { lease = none }) }
]

-- What `SetRemote` leaves of a lane.
unfoldable pub reset_lane : Lane → Lane
reset_lane p = record p {
  lease = none;
  attempts = [];
  inflight = 0;
  class_inflight = λ _. 0;
  seq = 0;
  ack_revision = 0;
  received_high = 0;
  received_through = 0;
  ack_receipts = new_receipts;
  acked_bytes = 0;
  acked_elapsed = 0;
}

abbrev pub reset_lanes : List Lane → List Lane
reset_lanes [] = []
reset_lanes (p ∷ l) = reset_lane p ∷ reset_lanes l

abbrev pub count : List ℕ → ℕ
count [] = 0
count (x ∷ l) = suc (count l)

-- Whether `SetRemote` takes the epoch.
unfoldable pub takes_epoch : Epoch → Epoch → Bool → Bool
takes_epoch remote epoch adopted =
    not (same_epoch epoch remote)
    && not (epoch.boot == 0 || epoch.generation == 0)
    && (remote.boot == 0
        || not (epoch.boot == remote.boot && leb epoch.generation remote.generation)
          && not (not (epoch.boot == remote.boot) && not adopted))

unfoldable pub set_remote : Transport → Epoch → Bool → Transport × Bool
unfolding takes_epoch reset_lane
set_remote t epoch adopted =
    if takes_epoch t.remote epoch adopted
    then (
      record t {
        remote = epoch;
        expired = add64 t.expired (count t.ledger.pending);
        ledger = empty_ledger;
        pending_order = [];
        seq = 0;
        bulk_seq = 0;
        interactive_seq = 0;
        receivers = [];
        received = new_receipts;
        unreported = new_receipts;
        paths = reset_lanes t.paths;
      },
      true,
    )
    else (t, false)
