-- ===== src/Bond/Queue.antt =====
-- The queue of small datagrams, `fairPacketQueue` of internal/bond/queue.go. The ring of flows is a
-- list, its head first; the map from identifiers to flows is a search of the ring. A flow is a
-- number, the zero `FlowID` 0; of a packet, what the queue reads and its payload.
use fecalia.Frame.{◌>>=◌}
use fecalia.Base.{
  ℕ, zero, suc, ◌+◌, ◌-◌, ◌%◌, ◌^◌, ◌≤◌, ◌<◌, Bool, true, false, not, ◌&&◌, ◌||◌, Option, none,
  some, List, [], ◌∷◌, ◌++◌, ltb, ◌==◌, if◌then◌else◌,
}
pub mod Turn
pub mod Flows
pub mod Invariant
pub mod Tests

pub record TcpAck : Type 0 where
  pub eligible : Bool
  pub sequence : ℕ
  pub acknowledgement : ℕ
  pub window : ℕ
  pub traffic_class : ℕ
  pub timestamp : Bool
  pub ts_val : ℕ
  pub ts_ecr : ℕ

pub record Packet : Type 0 where
  pub flow : ℕ
  pub ack : TcpAck
  pub payload : List ℕ

-- The difference of two `uint32`; as an `int32` it is not negative below `2 ^ 31`.
abbrev pub sub32 : ℕ → ℕ → ℕ
sub32 a b = (a + 2 ^ 32 - b) % 2 ^ 32

abbrev same : Bool → Bool → Bool
same true b = b
same false b = not b

unfoldable pub supersedes : TcpAck → TcpAck → Bool
supersedes new old =
    new.eligible
    && old.eligible
    && new.sequence == old.sequence
    && not (new.window == 0)
    && not (old.window == 0)
    && new.traffic_class == old.traffic_class
    && ltb 0 (sub32 new.acknowledgement old.acknowledgement)
    && ltb (sub32 new.acknowledgement old.acknowledgement) (2 ^ 31)
    && same new.timestamp old.timestamp
    && (not new.timestamp
        || ltb (sub32 new.ts_val old.ts_val) (2 ^ 31) && ltb (sub32 new.ts_ecr old.ts_ecr) (2 ^ 31))

-- `packetFIFO.peek`.
abbrev pub first : List Packet → Option Packet
first [] = none
first (p ∷ l) = some p

-- `packetFlow`, without its links.
pub record Flow : Type 0 where
  pub id : ℕ
  pub packets : List Packet

pub record FairQueue : Type 0 where
  pub ring : List Flow
  pub count : ℕ

-- A packet behind the packets of its flow: whether it takes the place of the last one, and they.
unfoldable pub extend : List Packet → Packet → Bool × List Packet
unfolding supersedes
extend [] p = (false, p ∷ [])
extend (a ∷ []) p = (false, a ∷ p ∷ [])
extend (a ∷ b ∷ []) p =
    if not (p.flow == 0) && supersedes b.ack a.ack && supersedes p.ack b.ack
    then (true, a ∷ p ∷ [])
    else (false, a ∷ b ∷ p ∷ [])
extend (a ∷ b ∷ c ∷ l) p = let (coalesced, rest) = extend (b ∷ c ∷ l) p in (coalesced, a ∷ rest)

-- A packet in the ring; a new flow comes last, in front of the head.
unfoldable pub insert : List Flow → Packet → Bool × List Flow
unfolding extend
insert [] p = (false, record { id = p.flow; packets = p ∷ [] } ∷ [])
insert (f ∷ l) p =
    let (coalesced, rest) = insert l p in
    if f.id == p.flow
    then (let (merged, packets) = extend f.packets p in
        (merged, record f { packets = packets } ∷ l))
    else (coalesced, f ∷ rest)

-- `push`: the queue, and whether the packet was coalesced.
unfoldable pub push : FairQueue → Packet → FairQueue × Bool
unfolding insert
push q p =
    let (coalesced, ring) = insert q.ring p in
    (record { ring = ring; count = if coalesced then q.count else q.count + 1 }, coalesced)

unfoldable pub peek : FairQueue → Option Packet
peek q = elim q.ring [ [] ↦ none | f ∷ l ↦ first f.packets ]

-- The ring after the first packet of the head is gone: the next flow is the head, and the flow goes
-- behind the others, if it has packets left.
unfoldable pub rotate : Flow → List Packet → List Flow → List Flow
rotate f [] l = l
rotate f (p ∷ rest) l = l ++ (record f { packets = p ∷ rest } ∷ [])

unfoldable pub pop_ring : List Flow → Option (List Flow)
unfolding rotate
pop_ring [] = none
pop_ring (f ∷ l) = elim f.packets [ [] ↦ none | p ∷ rest ↦ some (rotate f rest l) ]

-- `pop`: on an empty queue the source panics, here none.
unfoldable pub pop : FairQueue → Option FairQueue
unfolding pop_ring
pop q = do ring ← pop_ring q.ring; some (record { ring = ring; count = q.count - 1 })
