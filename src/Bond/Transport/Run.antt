-- ===== src/Bond/Transport/Run.antt =====
-- The calls of a transport in any order, and the invariant that they keep.
use fecalia.Base.{
  ℕ, ◌-◌, ◌≡◌, inl, inr, refl, sym, ◌∙◌, Bool, true, false, not, ◌||◌, Option, none, some, List, [],
  ◌∷◌, ◌++◌, ltb, leb, ◌&&◌, ◌==◌, if◌then◌else◌, if_true, if_false, if_both, if_cases, Bool-cases,
  arith,
}
use mathlib.Core.Path.{subst}
use mathlib.Core.Option.{some-injective}
use fecalia.Frame.{Control}
use fecalia.Bond.{Epoch}
use fecalia.Bond.Transport.{
  Class, Datagram, Lane, Transport, Receiver, wire_overhead, find_lane, put_lane, up, check_time,
  reset_lane, reset_lanes, lease_lane, path, disable, takes_epoch, set_remote, new, new_lane,
}
use fecalia.Bond.Transport.Flight.{member, keep_alive, time_out}
use fecalia.Bond.Transport.Receive.{receive, find_receiver}
use fecalia.Bond.Transport.Send.{transmit, expire_pending, acknowledged, acknowledge}
use fecalia.Bond.Transport.Acknowledged.{acknowledge_cases}
use fecalia.Bond.Transport.Balance.{all, of_class, held}
use fecalia.Bond.Transport.Balanced.{IsLane, AreLanes, find_lane-IsLane, put_lane-AreLanes}
use fecalia.Bond.Transport.Acked.{time_out-IsLane}
use fecalia.Bond.Transport.Monotone.{AreOrdered, idle-IsLane, launch-IsLane}
use fecalia.Bond.Transport.Valid.{IsValid, transmit-IsValid, expire_pending-IsValid}
use fecalia.Bond.Transport.Received.{put_same, with_lanes, receive-IsValid}

-- A call from outside, or a part of `Poll`: the lanes and the datagrams that the scheduler chooses,
-- and the intervals that it derives from its estimates, are arguments.
pub data Call : Type 0 where
  receives : ℕ → Control → ℕ → Call
  sets_remote : Epoch → Bool → Call
  leases : ℕ → ℕ → ℕ → Call
  disables : ℕ → Call
  keeps_alive : ℕ → ℕ → ℕ → Call
  times_out : ℕ → ℕ → ℕ → Call
  expires : ℕ → Call
  sends : Datagram → ℕ → ℕ → Call
  repairs : ℕ → ℕ → ℕ → Call
  acknowledges : ℕ → ℕ → Bool → Call

-- A datagram of `pendingOrder` that is not acknowledged.
abbrev pub find_waiting : Transport → List Datagram → ℕ → Option Datagram
find_waiting t [] seq = none
find_waiting t (d ∷ l) seq =
    if d.seq == seq && not (member d.seq t.ledger.acked) then some d else find_waiting t l seq

abbrev pub on_lane : Transport → ℕ → (Lane → Transport) → Transport
on_lane t id f = elim (find_lane t.paths id) [ none ↦ t | some p ↦ f p ]

unfoldable pub call : Transport → Call → Transport
call t (receives id f now) = (receive t id f now).0
call t (sets_remote e adopted) = (set_remote t e adopted).0
call t (leases id remote_id now) = elim (path t id remote_id now) [ none ↦ t | some u ↦ u ]
call t (disables id) = disable t id
call t (keeps_alive id interval now) = on_lane t id (λ p. (keep_alive t p interval now).0)
call t (times_out id rto now) =
    on_lane t id (λ p. record t { paths = put_lane t.paths (time_out p rto now) })
call t (expires now) = expire_pending t now
call t (sends d id now) = on_lane t id (λ p. (transmit t (record d { seq = 0 }) p now).0)
call t (repairs seq id now) = elim (find_waiting t t.pending_order seq) [
  | none ↦ t
  | some d ↦ on_lane t id (λ p. (transmit t d p now).0)
]
call t (acknowledges lane now due) = elim (find_receiver t.receivers lane) [
  | none ↦ t
  | some r ↦ (acknowledge t r now due).0
]

unfoldable pub call_all : Transport → List Call → Transport
unfolding call
call_all t [] = t
call_all t (c ∷ l) = call_all (call t c) l

module _ (t : Transport) (v : IsValid t) where
  on_lane-IsValid :
      (id : ℕ) (f : Lane → Transport)
      → ((p : Lane) → IsLane t.seq p → IsValid (f p))
      → IsValid (on_lane t id f)
  on_lane-IsValid id f h =
      go (find_lane t.paths id) (λ p e. find_lane-IsLane t.seq t.paths id p v.lanes e)
    where
      go :
          (o : Option Lane)
          → ((p : Lane) → o ≡ some p → IsLane t.seq p)
          → IsValid (elim o as (λ _. Transport) [ none ↦ t | some p ↦ f p ])
      go none lanes = v
      go (some p) lanes = h p (lanes p refl)

  set_remote-IsValid : (e : Epoch) (adopted : Bool) → IsValid (set_remote t e adopted).0
  unfolding set_remote reset_lane
  set_remote-IsValid e adopted =
      if_both (λ (r : Transport × Bool). IsValid r.0) (takes_epoch t.remote e adopted)
        (record {
          lanes = reset t.paths;
          ledger = record {
            apart = λ k e. cc e;
            pending_bound = λ k e. cc e;
            acked_bound = λ k e. cc e;
          };
          order = tt;
        })
        v
    where
      reset : (l : List Lane) → AreLanes 0 (reset_lanes l)
      reset [] = tt
      reset (p ∷ l) = (idle-IsLane 0 (reset_lane p) refl refl (λ _. refl) refl, reset l)

  lease_lane-AreLanes :
      (id remote_id now : ℕ) → AreLanes t.seq (lease_lane t.paths id remote_id now)
  unfolding lease_lane
  lease_lane-AreLanes id remote_id now =
      go (find_lane t.paths id) (λ p e. find_lane-IsLane t.seq t.paths id p v.lanes e)
    where
      begun :
          (l : List Lane)
          → AreLanes t.seq l
          → AreLanes t.seq (l ++ (record (new_lane id remote_id now) { lease = some now } ∷ []))
      begun [] vs = (
        idle-IsLane t.seq (record (new_lane id remote_id now) { lease = some now }) refl refl
            (λ _. refl) refl,
        tt,
      )
      begun (p ∷ l) (w, vs) = (w, begun l vs)

      go :
          (o : Option Lane)
          → ((p : Lane) → o ≡ some p → IsLane t.seq p)
          → AreLanes t.seq (elim o as (λ _. List Lane) [
            | none ↦ t.paths ++ (record (new_lane id remote_id now) { lease = some now } ∷ [])
            | some p ↦ put_lane t.paths (record p { lease = some now })
          ])
      go none lanes = begun t.paths v.lanes
      go (some p) lanes = put_same t v p _ (lanes p refl) refl refl (λ _. refl) refl

  path-IsValid :
      (id remote_id now : ℕ)
      → IsValid (elim (path t id remote_id now) as (λ _. Transport) [ none ↦ t | some u ↦ u ])
  unfolding path check_time
  path-IsValid id remote_id now =
      if_both (λ o. IsValid (leased o)) (ltb now t.last_time) v
        (record {
          lanes = lease_lane-AreLanes id remote_id now;
          ledger = v.ledger;
          order = v.order;
        })
    where
      leased : Option Transport → Transport
      leased o =
          elim (elim o as (λ _. Option Transport) [
            | none ↦ none
            | some t ↦ some (record t { paths = lease_lane t.paths id remote_id now })
          ]) [ none ↦ t | some u ↦ u ]

  keep_alive-IsValid :
      (p : Lane) (interval now : ℕ) → IsLane t.seq p → IsValid (keep_alive t p interval now).0
  unfolding keep_alive
  keep_alive-IsValid p interval now lane =
      if_both (λ (r : Transport × Option Control). IsValid r.0)
        (up p now && leb interval (now - p.last_transmit))
        (with_lanes t v _ (
          put_lane-AreLanes t.seq t.paths _ v.lanes
            (launch-IsLane t.seq p none wire_overhead now tt lane)))
        v

  repairs-IsValid :
      (l : List Datagram) (seq id now : ℕ)
      → AreOrdered t.seq l
      → IsValid (elim (find_waiting t l seq) as (λ _. Transport) [
        | none ↦ t
        | some d ↦ on_lane t id (λ p. (transmit t d p now).0)
      ])
  repairs-IsValid [] seq id now h = v
  repairs-IsValid (d ∷ l) seq id now (low, h) =
      if_cases
        (λ (o : Option Datagram). IsValid (elim o as (λ _. Transport) [
          | none ↦ t
          | some d ↦ on_lane t id (λ p. (transmit t d p now).0)
        ]))
        (d.seq == seq && not (member d.seq t.ledger.acked))
        (λ e.
          on_lane-IsValid id (λ p. (transmit t d p now).0)
            (λ p lane.
              transmit-IsValid t d p now v lane
                (λ _. (low, unset (d.seq == seq) (member d.seq t.ledger.acked) e))))
        (λ _. repairs-IsValid l seq id now h)
    where
      unset : (b c : Bool) → (b && not c) ≡ true → c ≡ false
      unset b false e = refl
      unset true true e = cc e
      unset false true e = cc e

  acknowledges-IsValid :
      (o : Option Receiver) (now : ℕ) (due : Bool)
      → IsValid (elim o as (λ _. Transport) [ none ↦ t | some r ↦ (acknowledge t r now due).0 ])
  unfolding acknowledged
  acknowledges-IsValid none now due = v
  acknowledges-IsValid (some r) now due =
      acknowledge_cases (λ o. IsValid o.0) t r now due v
        (record { lanes = v.lanes; ledger = v.ledger; order = v.order })

pub call-IsValid : (t : Transport) (c : Call) → IsValid t → IsValid (call t c)
unfolding call disable
call-IsValid t (receives id f now) v = receive-IsValid t id f now v
call-IsValid t (sets_remote e adopted) v = set_remote-IsValid t v e adopted
call-IsValid t (leases id remote_id now) v = path-IsValid t v id remote_id now
call-IsValid t (disables id) v =
    on_lane-IsValid t v id (λ p. record t { paths = put_lane t.paths (record p { lease = none }) })
      (λ p lane. with_lanes t v _ (put_same t v p _ lane refl refl (λ _. refl) refl))
call-IsValid t (keeps_alive id interval now) v =
    on_lane-IsValid t v id _ (λ p lane. keep_alive-IsValid t v p interval now lane)
call-IsValid t (times_out id rto now) v =
    on_lane-IsValid t v id (λ p. record t { paths = put_lane t.paths (time_out p rto now) })
      (λ p lane.
        with_lanes t v _
          (put_lane-AreLanes t.seq t.paths _ v.lanes (time_out-IsLane t.seq p rto now lane)))
call-IsValid t (expires now) v = expire_pending-IsValid t now v
call-IsValid t (sends d id now) v =
    on_lane-IsValid t v id _
      (λ p lane. transmit-IsValid t (record d { seq = 0 }) p now v lane (λ e. cc e))
call-IsValid t (repairs seq id now) v = repairs-IsValid t v t.pending_order seq id now v.order
call-IsValid t (acknowledges lane now due) v =
    acknowledges-IsValid t v (find_receiver t.receivers lane) now due

call_all-IsValid : (t : Transport) (l : List Call) → IsValid t → IsValid (call_all t l)
unfolding call_all
call_all-IsValid t [] v = v
call_all-IsValid t (c ∷ l) v = call_all-IsValid (call t c) l (call-IsValid t c v)

new-IsValid : (e : Epoch) (t : Transport) → new e ≡ some t → IsValid t
unfolding new
new-IsValid e t h = elim (Bool-cases (e.boot == 0 || e.generation == 0)) [
  | inl y ↦ cc (sym (if_true (e.boot == 0 || e.generation == 0) _ _ y) ∙ h)
  | inr unset ↦
      subst IsValid
        (some-injective _ _ (sym (if_false (e.boot == 0 || e.generation == 0) _ _ unset) ∙ h))
        (record {
          lanes = tt;
          ledger = record {
            apart = λ k e. cc e;
            pending_bound = λ k e. cc e;
            acked_bound = λ k e. cc e;
          };
          order = tt;
        })
]

-- After any calls of a new transport, in any order and with whatever frames and choices of lanes,
-- every lane counts as in flight exactly the bytes of its attempts that are not released, altogether
-- and of each class, and no datagram that is marked as acknowledged is pending.
pub call_all-Balanced :
    (e : Epoch) (t : Transport) (l : List Call) (id : ℕ) (p : Lane)
    → new e ≡ some t
    → find_lane (call_all t l).paths id ≡ some p
    → (p.inflight ≡ held all p.attempts)
      × ((c : Class) → p.class_inflight c ≡ held (of_class c) p.attempts)
      × ((k : ℕ)
          → member k (call_all t l).ledger.pending ≡ true
          → member k (call_all t l).ledger.acked ≡ false)
call_all-Balanced e t l id p start found =
    let v = call_all-IsValid t l (new-IsValid e t start) in
    let lane = find_lane-IsLane (call_all t l).seq (call_all t l).paths id p v.lanes found in
    (
      (omega (arith, lane.balanced all)),
      (λ c. omega (arith, lane.balanced (of_class c))),
      v.ledger.apart,
    )
