-- ===== src/Bond/Transport/Accepted.antt =====
-- A genuine frame with new numbers is handed over.
use fecalia.Base.{
  ℕ, ◌+◌, ◌≡◌, ◌≤◌, refl, sym, Bool, true, false, not, ◌||◌, Option, none, some, [], ◌∷◌, ltb, ◌==◌,
  if◌then◌else◌, if_true, if_false, arith, length, le→ltb_false,
}
use mathlib.Core.Path.{subst}
use fecalia.Frame.{Control}
use fecalia.Bond.{PacketHeader, parse_header, data_type, header_bytes}
use fecalia.Bond.Receipts.{mark}
use fecalia.Bond.Transport.{
  malformed, path_cause, time_cause, Lane, Receiver, Transport, max_datagram, same_epoch, up,
  check_time,
}
use fecalia.Bond.Transport.Receive.{
  Reply, rejected, delivered, seq_of, destination, delivery_of, open_receiver, take_datagram,
  take_frame, is_malformed, receive_data, receive_on, receive_from, receive_frame, count_rejection,
  receive,
}
use fecalia.Bond.Transport.Reception.{Genuine}

-- The numbers of a frame are new: on its lane, whose receiver is on the path, and among the delivery
-- sequences.
pub record New (t : Transport) (id remote_lane : ℕ) (f : Control) (now : ℕ) : Type 0 where
  pub numbered : (f.seq == 0) ≡ false
  pub sequenced : (seq_of f.payload == 0) ≡ false
  pub on_path : (open_receiver t.receivers id remote_lane now).0.path ≡ id
  pub frame : (mark (open_receiver t.receivers id remote_lane now).0.receipts f.seq).1 ≡ true
  pub datagram : (mark t.received (seq_of f.payload)).1 ≡ true

same_true : (a b : ℕ) → a ≡ b → (a == b) ≡ true
same_true a b e = ground arith

negated : (b : Bool) → b ≡ true → not b ≡ false
negated true e = refl
negated false e = cc e

abbrev Hands : Control → Transport × Reply → Type 0
Hands f r = r.1 ≡ delivered (delivery_of f.payload ∷ [])

-- A test that is known to fail.
past :
    (f : Control) (b : Bool) (x y : Transport × Reply)
    → b ≡ false
    → Hands f y
    → Hands f (if b then x else y)
past f b x y e h = subst (Hands f) (sym (if_false b x y e)) h

into :
    (f : Control) (b : Bool) (x y : Transport × Reply)
    → b ≡ true
    → Hands f x
    → Hands f (if b then x else y)
into f b x y e h = subst (Hands f) (sym (if_true b x y e)) h

module _ (t : Transport) (id : ℕ) (f : Control) (now : ℕ) where
  take_frame-Hands :
      (p : Lane) (r : Receiver)
      → (mark r.receipts f.seq).1 ≡ true
      → (seq_of f.payload == 0) ≡ false
      → (mark t.received (seq_of f.payload)).1 ≡ true
      → Hands f (take_frame t p r f now)
  unfolding take_frame take_datagram
  take_frame-Hands p r frame sequenced datagram = into f (mark r.receipts f.seq).1 _ _ frame (
      past f (seq_of f.payload == 0) _ _ sequenced
        (into f (mark t.received (seq_of f.payload)).1 _ _ datagram refl))

module _ (t : Transport) (id : ℕ) (f : Control) (now : ℕ) where
  receive_data-Hands :
      (g : Genuine t id f now)
      → New t id g.header.lane f now
      → Hands f (receive_data t id g.lane g.header f now)
  unfolding receive_data
  receive_data-Hands g n =
      let r = open_receiver t.receivers id g.header.lane now in
      past f (not (g.header.lane == g.lane.remote_id)) _ _
        (negated (g.header.lane == g.lane.remote_id)
          (same_true g.header.lane g.lane.remote_id g.remote_lane))
        (past f
          (ltb (length f.payload) (header_bytes + 32)
            || ltb (header_bytes + 32 + max_datagram) (length f.payload))
          _ _ (sized (length f.payload) g.least g.most)
          (past f (not (same_epoch (destination f.payload) t.epoch)) _ _
            (negated (same_epoch (destination f.payload) t.epoch) g.to)
            (past f (is_malformed f.payload) _ _ g.well_formed (
              past f (not (r.0.path == id)) _ _
                (negated (r.0.path == id) (same_true r.0.path id n.on_path))
                (take_frame-Hands (record t { receivers = r.1 }) id f now g.lane r.0 n.frame
                  n.sequenced n.datagram)))))
    where
      sized :
          (k : ℕ)
          → header_bytes + 32 ≤ k
          → k ≤ header_bytes + 32 + max_datagram
          → (ltb k (header_bytes + 32) || ltb (header_bytes + 32 + max_datagram) k) ≡ false
      sized k a b = ground arith

  receive_from-Hands :
      (g : Genuine t id f now)
      → New t id g.header.lane f now
      → Hands f (receive_from t id g.header f now)
  unfolding receive_from receive_on
  receive_from-Hands g n =
      past f (not (same_epoch g.header.epoch t.remote) || f.seq == 0) _ _
        (neither (same_epoch g.header.epoch t.remote) (f.seq == 0) g.from n.numbered)
        (subst
          (λ (o : Option Lane). Hands f (elim o as (λ _. Transport × Reply) [
            | none ↦ (t, rejected path_cause)
            | some p ↦
                if up p now then receive_on t id p g.header f now else (t, rejected path_cause)
          ]))
          (sym g.found)
          (into f (up g.lane now) _ _ g.leased (
            into f (f.control_type == data_type) _ _ (same_true f.control_type data_type g.kind)
              (receive_data-Hands g n))))
    where
      neither : (b c : Bool) → b ≡ true → c ≡ false → (not b || c) ≡ false
      neither true c p q = q
      neither false c p q = cc p

counted-Hands : (f : Control) (r : Transport × Reply) → Hands f r → Hands f (count_rejection r)
unfolding count_rejection
counted-Hands f (u, delivered l) e = e
counted-Hands f (u, rejected c) e = absurd (subst IsRejected e tt)
  where
    IsRejected : Reply → Type 0
    IsRejected (rejected c) = Unit
    IsRejected (delivered l) = ⊥

-- The clock is not read by what decides on a genuine frame.
at_time :
    (t : Transport) (id : ℕ) (f : Control) (now : ℕ)
    → Genuine t id f now
    → Genuine (record t { last_time = now }) id f now
at_time t id f now g = record {
  header = g.header;
  lane = g.lane;
  on_time = omega arith;
  parsed = g.parsed;
  from = g.from;
  to = g.to;
  found = g.found;
  leased = g.leased;
  kind = g.kind;
  remote_lane = g.remote_lane;
  least = g.least;
  most = g.most;
  well_formed = g.well_formed;
}

pub receive-Hands :
    (t : Transport) (id : ℕ) (f : Control) (now : ℕ) (g : Genuine t id f now)
    → New t id g.header.lane f now
    → (receive t id f now).1 ≡ delivered (delivery_of f.payload ∷ [])
unfolding receive receive_frame check_time at_time
receive-Hands t id f now g n = counted-Hands f (receive_frame t id f now) (
    subst (λ o. Hands f (go o))
      (sym (if_false (ltb now t.last_time) _ _ (le→ltb_false now t.last_time g.on_time)))
      (subst (λ o. Hands f (by_header o)) (sym g.parsed)
        (receive_from-Hands (record t { last_time = now }) id f now (at_time t id f now g)
          (record {
            numbered = n.numbered;
            sequenced = n.sequenced;
            on_path = n.on_path;
            frame = n.frame;
            datagram = n.datagram;
          }))))
  where
    go : Option Transport → Transport × Reply
    go o = elim o [
      | none ↦ (t, rejected time_cause)
      | some t ↦ elim (parse_header f.payload) [
        | none ↦ (t, rejected malformed)
        | some h ↦ receive_from t id h f now
      ]
    ]

    by_header : Option PacketHeader → Transport × Reply
    by_header o = elim o [
      | none ↦ (record t { last_time = now }, rejected malformed)
      | some h ↦ receive_from (record t { last_time = now }) id h f now
    ]
