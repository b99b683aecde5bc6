-- ===== src/Bond/Transport/Valid.antt =====
-- The invariant of a transport, and that sending and expiring keep it.
use fecalia.Base.{
  ℕ, ◌+◌, ◌≤◌, ◌≡◌, refl, sym, Bool, true, false, some, ◌==◌, if_cases, arith, length,
}
use mathlib.Core.Path.{subst}
use fecalia.Frame.{Control}
use fecalia.Bond.Transport.{
  Class, realtime, small, bulk, wire_overhead, Datagram, Carried, Lane, Transport,
}
use fecalia.Bond.Transport.Flight.{member, begin_attempt, launch}
use fecalia.Bond.Transport.Send.{
  number, count_original, carry, send_datagram, transmit, expire_pending,
}
use fecalia.Bond.Transport.Ledgers.{Sound}
use fecalia.Bond.Transport.Balanced.{IsLane, AreLanes, put_lane-AreLanes}
use fecalia.Bond.Transport.Monotone.{
  AreOrdered, Keys-mono, lanes_mono, order_mono, order_append, order_put, Sound-mono,
  await_receipt-Sound, retain-Sound, same_counters, launch-IsLane,
}

pub record IsValid (t : Transport) : Type 0 where
  pub lanes : AreLanes t.seq t.paths
  pub ledger : Sound t.seq t.ledger
  pub order : AreOrdered t.seq t.pending_order

carry-IsLane :
    (n : ℕ) (p : Lane) (d : Datagram) (now : ℕ) → d.seq ≤ n → IsLane n p → IsLane n (carry p d now)
unfolding carry
carry-IsLane n p d now le v =
    let k : Carried = record { seq = d.seq; class = d.class } in
    let q : Lane = launch (begin_attempt p) (some k) (length d.payload + wire_overhead) now in
    same_counters n q (carry p d now) refl refl (λ _. refl) refl
      (launch-IsLane n p (some k) (length d.payload + wire_overhead) now le v)

pub send_datagram-IsValid :
    (t : Transport) (d : Datagram) (p : Lane) (now : ℕ)
    → IsValid t
    → IsLane t.seq p
    → d.seq ≤ t.seq
    → member d.seq t.ledger.acked ≡ false
    → IsValid (send_datagram t d p now).0
unfolding send_datagram
send_datagram-IsValid t d p now v lane le unset = record {
  lanes =
      put_lane-AreLanes t.seq t.paths (carry p d now) v.lanes (carry-IsLane t.seq p d now le lane);
  ledger = await_receipt-Sound t.seq d.seq t.ledger le unset v.ledger;
  order = order_put t.seq t.pending_order _ v.order le;
}

-- A new number is above every number that was given.
number-IsValid : (t : Transport) (d : Datagram) (now : ℕ) → IsValid t → IsValid (number t d now).0
unfolding number
number-IsValid t d now v = record {
  lanes = lanes_mono t.seq (t.seq + 1) t.paths (omega arith) v.lanes;
  ledger = Sound-mono t.seq (t.seq + 1) t.ledger (omega arith) v.ledger;
  order =
      order_append (t.seq + 1) t.pending_order _
        (order_mono t.seq (t.seq + 1) t.pending_order (omega arith) v.order) (omega arith);
}

count_original-IsValid :
    (t : Transport) (p : Lane) (c : Class)
    → IsValid t
    → IsLane t.seq p
    → IsValid (count_original t p c).0
      × IsLane t.seq (count_original t p c).1
      × ((count_original t p c).0.seq ≡ t.seq)
unfolding count_original
count_original-IsValid t p realtime v lane = (
  record { lanes = v.lanes; ledger = v.ledger; order = v.order },
  same_counters t.seq p _ refl refl (λ _. refl) refl lane,
  refl,
)
count_original-IsValid t p small v lane = (v, lane, refl)
count_original-IsValid t p bulk v lane =
    (v, same_counters t.seq p _ refl refl (λ _. refl) refl lane, refl)

send_new-IsValid :
    (t : Transport) (d : Datagram) (p : Lane) (now : ℕ)
    → IsValid t
    → IsLane t.seq p
    → IsValid (let (u, e) = number t d now in (send_datagram u e p now).0)
unfolding number
send_new-IsValid t d p now v lane =
    let u = (number t d now).0 in
    let e = (number t d now).1 in
    let unset : member e.seq u.ledger.acked ≡ false =
      unseen (member e.seq u.ledger.acked)
        (λ q. omega (arith, v.ledger.acked_bound (t.seq + 1) q)) in
    send_datagram-IsValid u e p now (number-IsValid t d now v)
      (record {
        balanced = lane.balanced;
        keys =
            Keys-mono p.seq p.seq t.seq (t.seq + 1) p.attempts (omega arith) (omega arith)
              lane.keys;
      })
      (omega arith) unset
  where
    unseen : (b : Bool) → (b ≡ true → ⊥) → b ≡ false
    unseen true h = absurd (h refl)
    unseen false h = refl

-- A datagram is sent for the first time, or again while it is not acknowledged.
pub transmit-IsValid :
    (t : Transport) (d : Datagram) (p : Lane) (now : ℕ)
    → IsValid t
    → IsLane t.seq p
    → ((d.seq == 0) ≡ false → (d.seq ≤ t.seq) × (member d.seq t.ledger.acked ≡ false))
    → IsValid (transmit t d p now).0
unfolding transmit
transmit-IsValid t d p now v lane known =
    let (v2, lane2, e) = count_original-IsValid t p d.class v lane in
    if_cases (λ (r : Transport × Control). IsValid r.0) (d.seq == 0)
      (λ _.
        send_new-IsValid (count_original t p d.class).0 d (count_original t p d.class).1 now v2
          (subst (λ n. IsLane n (count_original t p d.class).1) (sym e) lane2))
      (λ again. let (le, unset) = known again in send_datagram-IsValid t d p now v lane le unset)

pub expire_pending-IsValid : (t : Transport) (now : ℕ) → IsValid t → IsValid (expire_pending t now)
unfolding expire_pending
expire_pending-IsValid t now v =
    let (kept, sound) =
      retain-Sound t.seq now t.pending_order t.ledger t.expired v.order v.ledger in
    record { lanes = v.lanes; ledger = sound; order = kept }
