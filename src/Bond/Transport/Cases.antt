-- ===== src/Bond/Transport/Cases.antt =====
-- The ends that a frame can come to in `Receive`, each with what the tests before it said.
use fecalia.Base.{
  ℕ, ◌+◌, ◌≡◌, ◌≤◌, refl, Bool, true, false, not, ◌||◌, Option, none, some, ltb, ◌==◌, ==_iff,
  if◌then◌else◌, if_cases, arith, length,
}
use fecalia.Frame.{Control}
use fecalia.Bond.{PacketHeader, parse_header, data_type, header_bytes}
use fecalia.Bond.Ack.{Acknowledgement, ack_type, parse_ack}
use fecalia.Bond.Receipts.{mark}
use fecalia.Bond.Transport.{
  Cause, malformed, epoch_cause, path_cause, lane_cause, ack_cause, type_cause, time_cause, Lane,
  Transport, max_datagram, same_epoch, find_lane, up, check_time,
}
use fecalia.Bond.Transport.Receive.{
  Reply, rejected, destination, open_receiver, take_frame, is_malformed, receive_data, take_ack,
  is_impossible, judge_ack, receive_ack, receive_on, receive_from, receive_frame,
}

is_true : (b : Bool) → not b ≡ false → b ≡ true
is_true true e = refl
is_true false e = cc e

-- What a DATA frame has passed when its number is looked at.
pub record Passed (t : Transport) (p : Lane) (h : PacketHeader) (f : Control) : Type 0 where
  pub remote_lane : h.lane ≡ p.remote_id
  pub least : header_bytes + 32 ≤ length f.payload
  pub most : length f.payload ≤ header_bytes + 32 + max_datagram
  pub to : same_epoch (destination f.payload) t.epoch ≡ true
  pub well_formed : is_malformed f.payload ≡ false

module _ (P : Transport × Reply → Type 0) (t : Transport) (id : ℕ) (f : Control) where
  pub receive_data_cases :
      (p : Lane) (h : PacketHeader) (now : ℕ)
      → ((c : Cause) → P (t, rejected c))
      → (let r = open_receiver t.receivers id h.lane now in
          not (r.0.path == id) ≡ true → P (record t { receivers = r.1 }, rejected lane_cause))
      → (let r = open_receiver t.receivers id h.lane now in
          Passed t p h f → P (take_frame (record t { receivers = r.1 }) p r.0 f now))
      → P (receive_data t id p h f now)
  unfolding receive_data
  receive_data_cases p h now no_change other taken =
      if_cases P (not (h.lane == p.remote_id)) (λ _. no_change lane_cause)
        (λ lane.
          if_cases P
            (ltb (length f.payload) (header_bytes + 32)
              || ltb (header_bytes + 32 + max_datagram) (length f.payload))
            (λ _. no_change malformed)
            (λ size.
              if_cases P (not (same_epoch (destination f.payload) t.epoch))
                (λ _. no_change epoch_cause)
                (λ to.
                  if_cases P (is_malformed f.payload) (λ _. no_change malformed)
                    (λ well.
                      if_cases P (not ((open_receiver t.receivers id h.lane now).0.path == id))
                        other
                        (λ _. taken (record {
                          remote_lane =
                              (==_iff h.lane p.remote_id).0 (is_true (h.lane == p.remote_id) lane);
                          least = (sized (length f.payload) size).0;
                          most = (sized (length f.payload) size).1;
                          to = is_true (same_epoch (destination f.payload) t.epoch) to;
                          well_formed = well;
                        }))))))
    where
      sized :
          (n : ℕ)
          → (ltb n (header_bytes + 32) || ltb (header_bytes + 32 + max_datagram) n) ≡ false
          → (header_bytes + 32 ≤ n) × (n ≤ header_bytes + 32 + max_datagram)
      sized n e = ground arith

  pub receive_ack_cases :
      (p : Lane) (h : PacketHeader)
      → ((c : Cause) → P (t, rejected c))
      → ((a : Acknowledgement) → P (take_ack t p a f.seq (mark p.ack_receipts f.seq)))
      → P (receive_ack t id p h f)
  unfolding receive_ack judge_ack
  receive_ack_cases p h no_change taken =
      if_cases P (not (h.lane == id)) (λ _. no_change lane_cause)
        (λ _. by_ack (parse_ack f.payload))
    where
      by_ack :
          (o : Option Acknowledgement)
          → P (elim o as (λ _. Transport × Reply) [
            | none ↦ (t, rejected malformed)
            | some a ↦ judge_ack t p a f.seq
          ])
      by_ack none = no_change malformed
      by_ack (some a) =
          if_cases P (not (same_epoch a.observed t.epoch)) (λ _. no_change epoch_cause)
            (λ _.
              if_cases P (is_impossible t p a (ltb p.ack_revision f.seq)) (λ _. no_change ack_cause)
                (λ _. taken a))

  pub receive_from_cases :
      (h : PacketHeader) (now : ℕ)
      → ((c : Cause) → P (t, rejected c))
      → ((p : Lane)
          → find_lane t.paths id ≡ some p
          → up p now ≡ true
          → same_epoch h.epoch t.remote ≡ true
          → f.control_type ≡ data_type
          → P (receive_data t id p h f now))
      → ((p : Lane) → find_lane t.paths id ≡ some p → P (receive_ack t id p h f))
      → P (receive_from t id h f now)
  unfolding receive_from receive_on
  receive_from_cases h now no_change data_frame ack_frame =
      if_cases P (not (same_epoch h.epoch t.remote) || f.seq == 0) (λ _. no_change epoch_cause)
        (λ e.
          by_lane (find_lane t.paths id) (λ p found. found)
            (from (same_epoch h.epoch t.remote) (f.seq == 0) e))
    where
      from : (b c : Bool) → (not b || c) ≡ false → b ≡ true
      from true c e = refl
      from false c e = cc e

      by_lane :
          (o : Option Lane)
          → ((p : Lane) → o ≡ some p → find_lane t.paths id ≡ some p)
          → same_epoch h.epoch t.remote ≡ true
          → P (elim o as (λ _. Transport × Reply) [
            | none ↦ (t, rejected path_cause)
            | some p ↦ if up p now then receive_on t id p h f now else (t, rejected path_cause)
          ])
      by_lane none found from = no_change path_cause
      by_lane (some p) found from =
          if_cases P (up p now)
            (λ leased.
              if_cases P (f.control_type == data_type)
                (λ kind.
                  data_frame p (found p refl) leased from
                    ((==_iff f.control_type data_type).0 kind))
                (λ _.
                  if_cases P (f.control_type == ack_type) (λ _. ack_frame p (found p refl))
                    (λ _. no_change type_cause)))
            (λ _. no_change path_cause)

  pub receive_frame_cases :
      (now : ℕ)
      → (ltb now t.last_time ≡ true → P (t, rejected time_cause))
      → (ltb now t.last_time ≡ false → P (record t { last_time = now }, rejected malformed))
      → ((h : PacketHeader)
          → ltb now t.last_time ≡ false
          → parse_header f.payload ≡ some h
          → P (receive_from (record t { last_time = now }) id h f now))
      → P (receive_frame t id f now)
  unfolding receive_frame check_time
  receive_frame_cases now early unread read =
      if_cases (λ o. P (go o)) (ltb now t.last_time) early
        (λ on_time. by_header on_time (parse_header f.payload) (λ h e. e))
    where
      go : Option Transport → Transport × Reply
      go o = elim o [
        | none ↦ (t, rejected time_cause)
        | some t ↦ elim (parse_header f.payload) [
          | none ↦ (t, rejected malformed)
          | some h ↦ receive_from t id h f now
        ]
      ]

      by_header :
          ltb now t.last_time ≡ false
          → (o : Option PacketHeader)
          → ((h : PacketHeader) → o ≡ some h → parse_header f.payload ≡ some h)
          → P (elim o as (λ _. Transport × Reply) [
            | none ↦ (record t { last_time = now }, rejected malformed)
            | some h ↦ receive_from (record t { last_time = now }) id h f now
          ])
      by_header on_time none parsed = unread on_time
      by_header on_time (some h) parsed = read h on_time (parsed h refl)
