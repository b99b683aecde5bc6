-- ===== src/Bond/Transport/Acked.antt =====
-- An acknowledgement keeps the lanes and the receipts sound.
use fecalia.Base.{
  ℕ, ◌≡◌, refl, ◌∙◌, Bool, ◌&&◌, Option, none, some, List, [], ◌∷◌, ltb, ◌==◌, if◌then◌else◌,
  if_both,
}
use fecalia.Bond.Ack.{Acknowledgement}
use fecalia.Bond.Transport.{Lane, Ledger, Transport, put_lane}
use fecalia.Bond.Transport.Flight.{
  Entry, settle_pending, note_high, Sweep, confirm_loop, arrived_loop, confirm_arrived, ack_through,
  global_loop, global_lanes, ack_lane, ack, time_out, timeout_loop,
}
use fecalia.Bond.Transport.Balance.{Counter, all, latest, of_class, counter, Holds, base}
use fecalia.Bond.Transport.Loops.{
  confirm_loop-Holds, arrived_loop-Holds, global_loop-Holds, timeout_loop-Holds,
}
use fecalia.Bond.Transport.Kept.{
  Each, confirm_loop-Each, arrived_loop-Each, global_loop-Each, timeout_loop-Each,
}
use fecalia.Bond.Transport.Ledgers.{Sound, Keys, Settled}
use fecalia.Bond.Transport.Settle.{
  confirm_loop-Settled, arrived_loop-Settled, global_loop-Settled, settle_pending-Settled,
}
use fecalia.Bond.Transport.Balanced.{IsLane, AreLanes, put_lane-AreLanes, counter-attempts, lane_of}

-- Where a loop over the attempts of a lane has come to: what it keeps, with the receipts.
pub record IsSweep (n m : ℕ) (a : Acknowledgement) (kept : List Entry) (w : Sweep) : Type 0 where
  pub held_back : Holds w.lane (base m) kept
  pub keys : Each (Keys m n) kept
  pub settled : Settled n a w.ledger

-- The lane that a loop leaves.
abbrev stored : List Entry → Sweep → Sweep
stored kept w = record w { lane = record (w.lane) { attempts = kept } }

abbrev Swept : ℕ → ℕ → Acknowledgement → Sweep → Type 0
Swept n m a w = IsSweep n m a w.lane.attempts w

counter-received_through :
    (p : Lane) (n : ℕ) (k : Counter) → counter (record p { received_through = n }) k ≡ counter p k
counter-received_through p n all = refl
counter-received_through p n latest = refl
counter-received_through p n (of_class c) = refl

counter-note_high : (p : Lane) (n : ℕ) (k : Counter) → counter (note_high p n) k ≡ counter p k
counter-note_high p n all = refl
counter-note_high p n latest = refl
counter-note_high p n (of_class c) = refl

counter-acked_bytes :
    (p : Lane) (b e : ℕ) (k : Counter)
    → counter (record p { acked_bytes = b; acked_elapsed = e }) k ≡ counter p k
counter-acked_bytes p b e all = refl
counter-acked_bytes p b e latest = refl
counter-acked_bytes p b e (of_class c) = refl

module _ (n m : ℕ) (a : Acknowledgement) where
  store : (kept : List Entry) (w : Sweep) → IsSweep n m a kept w → Swept n m a (stored kept w)
  store kept w v = record {
    held_back = λ k. counter-attempts w.lane kept k ∙ v.held_back k;
    keys = v.keys;
    settled = v.settled;
  }

  confirm_arrived-Swept :
      (through : ℕ) (w : Sweep) → Swept n m a w → Swept n m a (confirm_arrived a through w)
  unfolding confirm_arrived
  confirm_arrived-Swept through w v =
      let l = w.lane.attempts in
      if_both (Swept n m a) (through == a.bytes)
        (store (arrived_loop a.high l w).0 (arrived_loop a.high l w).1 (record {
          held_back = arrived_loop-Holds a.high l w (base m) v.held_back;
          keys = arrived_loop-Each (Keys m n) a.high l w v.keys;
          settled = arrived_loop-Settled n a m a.high l w v.keys v.settled;
        }))
        v

  ack_through-Swept : (w : Sweep) → Swept n m a w → Swept n m a (ack_through a w)
  unfolding ack_through
  ack_through-Swept w v = go (thr w.counted) (same w.counted)
    where
      thr : Option ℕ → Lane
      thr o = elim o [
        | none ↦ w.lane
        | some through ↦ record (w.lane) { received_through = through }
      ]

      same : (o : Option ℕ) → Swept n m a (record w { lane = thr o })
      same none = v
      same (some through) = record {
        held_back = λ k. counter-received_through w.lane through k ∙ v.held_back k;
        keys = v.keys;
        settled = v.settled;
      }

      go :
          (p : Lane)
          → Swept n m a (record w { lane = p })
          → Swept n m a (
              if ltb 0 p.received_through && a.high == p.received_high
              then confirm_arrived a p.received_through (record w { lane = p })
              else record w { lane = p })
      go p u =
          if_both (Swept n m a) (ltb 0 p.received_through && a.high == p.received_high)
            (confirm_arrived-Swept p.received_through (record w { lane = p }) u) u

ack_lane-Swept :
    (n : ℕ) (p : Lane) (g : Ledger) (a : Acknowledgement) (fresh : Bool)
    → IsLane n p
    → Sound n g
    → Swept n p.seq a (ack_lane p g a fresh)
unfolding ack_lane
ack_lane-Swept n p g a fresh v sound =
    let settled = settle_pending a g.pending g.acked in
    let start : Sweep = record {
      lane = note_high p a.high;
      ledger = record { pending = settled.0; acked = settled.1 };
      counted = none;
    } in
    let rest = confirm_loop a fresh p.attempts start in
    let swept : Swept n p.seq a (stored rest.0 rest.1) = store n p.seq a rest.0 rest.1 (record {
      held_back =
          confirm_loop-Holds a fresh p.attempts start (base p.seq)
            (λ k. counter-note_high p a.high k ∙ v.balanced k);
      keys = confirm_loop-Each (Keys p.seq n) a fresh p.attempts start v.keys;
      settled =
          confirm_loop-Settled n a p.seq fresh p.attempts start v.keys
            (settle_pending-Settled n a g sound);
    }) in
    if_both (Swept n p.seq a) fresh (ack_through-Swept n p.seq a (stored rest.0 rest.1) swept) swept

global_lanes-AreLanes :
    (n : ℕ) (a : Acknowledgement) (l : List Lane) (g : Ledger)
    → AreLanes n l
    → Settled n a g
    → AreLanes n (global_lanes a l g).0 × Settled n a (global_lanes a l g).1
unfolding global_lanes
global_lanes-AreLanes n a [] g vs h = (vs, h)
global_lanes-AreLanes n a (p ∷ l) g (v, vs) h =
    let r = global_loop a p.attempts p g in
    let (rest, settled) =
      global_lanes-AreLanes n a l r.1.1 vs
        (global_loop-Settled n a p.seq p.attempts p g v.keys h) in
    (
      (
        lane_of n p.seq r.1.0 r.0 (global_loop-Holds a p.attempts p g (base p.seq) v.balanced)
            (global_loop-Each (Keys p.seq n) a p.attempts p g v.keys),
        rest,
      ),
      settled,
    )

-- From lanes and receipts that are sound, an acknowledgement of a sound lane leaves sound ones, and no
-- datagram that it reports is pending.
pub ack-AreLanes :
    (n : ℕ) (t : Transport) (p : Lane) (a : Acknowledgement) (fresh : Bool)
    → AreLanes n t.paths
    → Sound n t.ledger
    → IsLane n p
    → AreLanes n (ack t p a fresh).paths × Settled n a (ack t p a fresh).ledger
unfolding ack
ack-AreLanes n t p a fresh vs sound v =
    let w : Sweep = ack_lane p t.ledger a fresh in
    let u : Swept n p.seq a w = ack_lane-Swept n p t.ledger a fresh v sound in
    let q : Lane = record (w.lane) { acked_bytes = a.bytes; acked_elapsed = a.elapsed } in
    let stale : IsLane n w.lane = lane_of n p.seq w.lane w.lane.attempts u.held_back u.keys in
    let q_IsLane : IsLane n q =
      lane_of n p.seq q w.lane.attempts
        (λ k. counter-acked_bytes w.lane a.bytes a.elapsed k ∙ u.held_back k) u.keys in
    if_both
      (λ (r : Lane).
        AreLanes n (global_lanes a (put_lane t.paths r) w.ledger).0
        × Settled n a (global_lanes a (put_lane t.paths r) w.ledger).1)
      fresh {x = q} {y = w.lane}
      (global_lanes-AreLanes n a (put_lane t.paths q) w.ledger
        (put_lane-AreLanes n t.paths q vs q_IsLane) u.settled)
      (global_lanes-AreLanes n a (put_lane t.paths w.lane) w.ledger
        (put_lane-AreLanes n t.paths w.lane vs stale) u.settled)

pub time_out-IsLane : (n : ℕ) (p : Lane) (rto now : ℕ) → IsLane n p → IsLane n (time_out p rto now)
unfolding time_out
time_out-IsLane n p rto now v =
    let r = timeout_loop rto now p.attempts p in
    lane_of n p.seq r.1 r.0 (timeout_loop-Holds rto now p.attempts p (base p.seq) v.balanced)
      (timeout_loop-Each (Keys p.seq n) rto now p.attempts p v.keys)
