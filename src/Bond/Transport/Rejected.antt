-- ===== src/Bond/Transport/Rejected.antt =====
-- A frame that a transport rejects.
use fecalia.Base.{
  ℕ, ◌≡◌, inl, inr, refl, sym, ap, ◌∙◌, true, false, not, Option, none, some, List, [], ◌∷◌, ◌++◌,
  ltb, ◌==◌, ==_iff, if◌then◌else◌, if_true, if_false, if_both, if_cases, Bool-cases, arith, add64,
}
use mathlib.Core.Path.{subst}
use fecalia.Frame.{Control}
use fecalia.Bond.{PacketHeader}
use fecalia.Bond.Ack.{Acknowledgement}
use fecalia.Bond.Receipts.{ReceiptWindow, mark}
use fecalia.Bond.Receipts.Stale.{mark-stale}
use fecalia.Bond.Transport.{Cause, same_cause, Lane, Receiver, Transport, find_lane, put_lane}
use fecalia.Bond.Transport.Cases.{
  receive_data_cases, receive_ack_cases, receive_from_cases, receive_frame_cases,
}
use fecalia.Bond.Transport.Receive.{
  Reply, rejected, delivered, seq_of, find_receiver, new_receiver, open_receiver, take_datagram,
  take_frame, take_ack, receive_from, receive_frame, count_rejection, receive,
}

-- If the reply is a rejection, the state is the given one.
abbrev Untouched : Transport → Transport × Reply → Type 0
Untouched t r = (c : Cause) → r.1 ≡ rejected c → r.0 ≡ t

abbrev IsDelivered : Reply → Type 0
IsDelivered (delivered l) = Unit
IsDelivered (rejected c) = ⊥

never : (r : Transport × Reply) (t : Transport) → IsDelivered r.1 → Untouched t r
never (u, delivered l) t d c e = absurd (subst IsDelivered e tt)
never (u, rejected _) t d c e = absurd d

-- A write of what a lane holds changes nothing.
put_lane-find : (l : List Lane) (id : ℕ) (p : Lane) → find_lane l id ≡ some p → put_lane l p ≡ l
put_lane-find [] id p e = refl
put_lane-find (q ∷ l) id p e = elim (Bool-cases (q.id == id)) [
  | inl y ↦
      let same : q ≡ p = cc (sym (if_true (q.id == id) (some q) (find_lane l id) y) ∙ e) in
      ap (λ (r : Lane). put_lane (q ∷ l) r) (sym same)
      ∙ if_true (q.id == q.id) _ _ (same_id q.id q.id refl)
  | inr unset ↦
      let later : find_lane l id ≡ some p =
        sym (if_false (q.id == id) (some q) (find_lane l id) unset) ∙ e in
      if_false (q.id == p.id) _ _ (subst (λ n. (q.id == n) ≡ false) (sym (id_of l later)) unset)
      ∙ ap (λ (r : List Lane). q ∷ r) (put_lane-find l id p later)
]
  where
    same_id : (a b : ℕ) → a ≡ b → (a == b) ≡ true
    same_id a b e = ground arith

    id_of : (l : List Lane) → find_lane l id ≡ some p → p.id ≡ id
    id_of [] e = cc e
    id_of (r ∷ l) e = elim (Bool-cases (r.id == id)) [
      | inl y ↦
          let same : r ≡ p = cc (sym (if_true (r.id == id) (some r) (find_lane l id) y) ∙ e) in
          ap (λ (s : Lane). s.id) (sym same) ∙ (==_iff r.id id).0 y
      | inr unset ↦ id_of l (sym (if_false (r.id == id) (some r) (find_lane l id) unset) ∙ e)
    ]

module _ (t : Transport) where
  take_frame-IsDelivered :
      (p : Lane) (r : Receiver) (f : Control) (now : ℕ) → IsDelivered (take_frame t p r f now).1
  unfolding take_frame take_datagram
  take_frame-IsDelivered p r f now =
      if_both (λ (o : Transport × Reply). IsDelivered o.1) (mark r.receipts f.seq).1
        (if_both (λ (o : Transport × Reply). IsDelivered o.1) (seq_of f.payload == 0) tt
          (if_both (λ (o : Transport × Reply). IsDelivered o.1)
            (mark t.received (seq_of f.payload)).1 tt tt))
        tt

  take_ack-Untouched :
      (p : Lane) (a : Acknowledgement) (seq : ℕ)
      → put_lane t.paths p ≡ t.paths
      → Untouched t (take_ack t p a seq (mark p.ack_receipts seq))
  unfolding take_ack
  take_ack-Untouched p a seq kept =
      if_cases (Untouched t) (mark p.ack_receipts seq).1 (λ _. never _ t tt)
        (λ stale c _.
          ap
            (λ (w : ReceiptWindow). record t {
              paths = put_lane t.paths (record p { ack_receipts = w });
            })
            (mark-stale p.ack_receipts seq stale)
          ∙ ap (λ (l : List Lane). record t { paths = l }) kept)

  -- The receiver of another path was there before.
  open_receiver-other :
      (id lane now : ℕ)
      → let r = open_receiver t.receivers id lane now in
        not (r.0.path == id) ≡ true → r.1 ≡ t.receivers
  unfolding open_receiver
  open_receiver-other id lane now = go (find_receiver t.receivers lane)
    where
      go :
          (o : Option Receiver)
          → let r = elim o as (λ _. Receiver × List Receiver) [
            | none ↦ let r = new_receiver id lane now in (r, t.receivers ++ (r ∷ []))
            | some r ↦ (r, t.receivers)
          ] in
            not (r.0.path == id) ≡ true → r.1 ≡ t.receivers
      go none e = absurd (other id id refl e)
        where
          other : (a b : ℕ) → a ≡ b → not (a == b) ≡ true → ⊥
          other a b p q = ground arith
      go (some r) e = refl

receive_from-Untouched :
    (t : Transport) (id : ℕ) (h : PacketHeader) (f : Control) (now : ℕ)
    → Untouched t (receive_from t id h f now)
receive_from-Untouched t id h f now =
    receive_from_cases (Untouched t) t id f h now (λ _ c e. refl)
      (λ p _ _ _ _.
        receive_data_cases (Untouched t) t id f p h now (λ _ c e. refl)
          (λ other c e.
            ap (λ (l : List Receiver). record t { receivers = l })
              (open_receiver-other t id h.lane now other))
          (λ _.
            let r = open_receiver t.receivers id h.lane now in
            never _ t (take_frame-IsDelivered (record t { receivers = r.1 }) p r.0 f now)))
      (λ p found.
        receive_ack_cases (Untouched t) t id f p h (λ _ c e. refl)
          (λ a. take_ack-Untouched t p a f.seq (put_lane-find t.paths id p found)))

-- A rejection with its count: the state is the given one but for the clock and the counter.
abbrev count_of : Transport → Cause → Cause → ℕ
count_of t c d = if same_cause c d then add64 (t.rejected d) 1 else t.rejected d

abbrev pub clock : Transport → ℕ → ℕ
clock t now = if ltb now t.last_time then t.last_time else now

-- The state after a frame that is rejected for the cause `c`.
abbrev pub after_rejection : Transport → ℕ → Cause → Transport
after_rejection t now c = record t { last_time = clock t now; rejected = count_of t c }

frame-Untouched :
    (t : Transport) (id : ℕ) (f : Control) (now : ℕ)
    → Untouched (record t { last_time = clock t now }) (receive_frame t id f now)
frame-Untouched t id f now =
    let C = Untouched (record t { last_time = clock t now }) in
    receive_frame_cases C t id f now
      (λ early c e.
        ap (λ n. record t { last_time = n })
          (sym (if_true (ltb now t.last_time) t.last_time now early)))
      (λ on_time c e. at_now on_time)
      (λ h on_time _.
        subst (λ u. Untouched u (receive_from (record t { last_time = now }) id h f now))
          (at_now on_time) (receive_from-Untouched (record t { last_time = now }) id h f now))
  where
    at_now :
        ltb now t.last_time ≡ false
        → Path Transport (record t { last_time = now }) (record t { last_time = clock t now })
    at_now on_time =
        ap (λ n. record t { last_time = n })
          (sym (if_false (ltb now t.last_time) t.last_time now on_time))

-- A frame that is rejected, for whatever cause, leaves the transport as it was, but that the clock has
-- advanced to its time, unless that lies before, and the cause is counted once more.
pub receive-rejected :
    (t : Transport) (id : ℕ) (f : Control) (now : ℕ) (c : Cause)
    → (receive t id f now).1 ≡ rejected c
    → (receive t id f now).0 ≡ after_rejection t now c
unfolding receive
receive-rejected t id f now c e = go (receive_frame t id f now) (frame-Untouched t id f now) e
  where
    cause : Reply → Cause
    cause (rejected d) = d
    cause _ = c

    go :
        (r : Transport × Reply)
        → Untouched (record t { last_time = clock t now }) r
        → (count_rejection r).1 ≡ rejected c
        → (count_rejection r).0 ≡ after_rejection t now c
    go (u, delivered l) h e = absurd (subst IsDelivered e tt)
    go (u, rejected d) h e =
        ap (λ (v : Transport). record v { rejected = count_of v d }) (h d refl)
        ∙ ap (λ (k : Cause). after_rejection t now k) (ap cause e)
