-- ===== src/Bond/Queue/Tests.antt =====
-- The fair queue with a burst in one flow, and acknowledgements that coalesce.
use fecalia.Base.{ℕ, ◌≡◌, refl, true, false, some, List, [], ◌∷◌, arith}
use fecalia.Bond.Queue.{
  TcpAck, Packet, FairQueue, supersedes, extend, insert, push, peek, rotate, pop_ring, pop,
}
use fecalia.Bond.Queue.Invariant.{IsValid}
use fecalia.Bond.Queue.Flows.{Takes, ring_of, pop-Takes}
use fecalia.Bond.Queue.Turn.{Use, gives, takes, run, push_turn}

-- What the tests compute with.
computing : Unit {0}
unfolding supersedes extend insert push peek rotate pop_ring pop
computing = tt

abbrev ack : ℕ → TcpAck
ack n = record {
  eligible = true;
  sequence = 1;
  acknowledgement = n;
  window = 100;
  traffic_class = 0;
  timestamp = false;
  ts_val = 0;
  ts_ecr = 0;
}

abbrev packet : ℕ → ℕ → Packet
packet flow n = record { flow = flow; ack = ack n; payload = n ∷ [] }

abbrev burst : FairQueue
burst = record {
  ring =
      record { id = 7; packets = packet 7 10 ∷ packet 7 20 ∷ [] }
      ∷ record { id = 8; packets = packet 8 5 ∷ [] }
      ∷ [];
  count = 3;
}

burst-IsValid : IsValid burst
burst-IsValid = record {
  flows = (omega arith, ((λ e. omega arith), tt), (omega arith, tt, tt));
  counted = refl;
}

-- The third of three advancing acknowledgements takes the place of the second; the wrap of the number
-- is an advance.
coalesces : (push burst (packet 7 30)).1 ≡ true
unfolding computing
coalesces = refl

wraps : supersedes (ack 3) (ack 4294967290) ≡ true
unfolding computing
wraps = refl

stays_behind : supersedes (ack 4294967290) (ack 3) ≡ false
unfolding computing
stays_behind = refl

pop-Takes_example : Takes burst.ring (peek burst) (ring_of (pop burst))
pop-Takes_example = pop-Takes burst burst-IsValid

-- While flow 7 goes on, the packet of flow 9 comes after two turns.
abbrev uses : List Use
uses = gives (packet 7 21) ∷ takes ∷ gives (packet 8 6) ∷ takes ∷ gives (packet 7 22) ∷ []

push_turn_example :
    (r : FairQueue) × ((run (push burst (packet 9 1)).0 uses ≡ some r)
      × (peek r ≡ some (packet 9 1)))
push_turn_example =
    push_turn burst (packet 9 1) uses burst-IsValid ((λ e. omega arith), ((λ e. omega arith), tt))
      refl
