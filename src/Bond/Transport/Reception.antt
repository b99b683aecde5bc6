-- ===== src/Bond/Transport/Reception.antt =====
-- The outcomes of a frame: nothing is handed over, or one new datagram is.
use fecalia.Base.{
  ℕ, max, ◌+◌, ◌≤◌, ◌≡◌, refl, sym, ap, ◌∙◌, true, false, some, List, [], ◌∷◌, ◌==◌, if_both,
  if_cases, length,
}
use fecalia.Frame.{Control}
use fecalia.Bond.{PacketHeader, parse_header, data_type, header_bytes}
use fecalia.Bond.Receipts.{ReceiptWindow, mark}
use fecalia.Bond.Receipts.Stale.{mark-stale, mark-high}
use fecalia.Bond.Transport.{Lane, Receiver, Transport, max_datagram, same_epoch, find_lane, up}
use fecalia.Bond.Transport.Flight.{ack}
use fecalia.Bond.Transport.Cases.{receive_ack_cases}
use fecalia.Bond.Transport.Receive.{
  Reply, rejected, delivered, seq_of, destination, delivery_of, take_datagram, take_frame,
  is_malformed, take_ack, receive_ack,
}

-- A DATA frame for this pair of endpoints, on a path with a lease whose remote lane it names, of a
-- size that a datagram has, with a delivery sequence.
pub record Genuine (t : Transport) (id : ℕ) (f : Control) (now : ℕ) : Type 0 where
  pub header : PacketHeader
  pub lane : Lane
  pub on_time : t.last_time ≤ now
  pub parsed : parse_header f.payload ≡ some header
  pub from : same_epoch header.epoch t.remote ≡ true
  pub to : same_epoch (destination f.payload) t.epoch ≡ true
  pub found : find_lane t.paths id ≡ some lane
  pub leased : up lane now ≡ true
  pub kind : f.control_type ≡ data_type
  pub remote_lane : header.lane ≡ lane.remote_id
  pub least : header_bytes + 32 ≤ length f.payload
  pub most : length f.payload ≤ header_bytes + 32 + max_datagram
  pub well_formed : is_malformed f.payload ≡ false

abbrev pub HandsNothing : Reply → Type 0
HandsNothing (rejected c) = Unit
HandsNothing (delivered []) = Unit
HandsNothing (delivered (_ ∷ _)) = ⊥

-- What a frame may change of the numbers that were received: the window, and the highest number that
-- an acknowledgement may still have to report.
abbrev pub numbers : Transport → ReceiptWindow × ℕ
numbers t = (t.received, t.unreported.high)

abbrev pub numbered : ReceiptWindow × ℕ → ℕ → ReceiptWindow × ℕ
numbered n seq = ((mark n.0 seq).0, max seq n.1)

-- The two outcomes of a frame: nothing is handed over and the numbers are as they were, or its
-- datagram is handed over, with the evidence `G`, and its number is not 0, was new and is marked.
pub data Reception (G : Type 0) (t : Transport) (b : List ℕ) : Transport × Reply → Type 0 where
  quiet :
      (u : Transport) (y : Reply) → numbers u ≡ numbers t → HandsNothing y → Reception G t b (u, y)
  handed :
      (u : Transport)
      → G
      → (seq_of b == 0) ≡ false
      → numbers u ≡ numbered (numbers t) (seq_of b)
      → (mark t.received (seq_of b)).1 ≡ true
      → Reception G t b (u, delivered (delivery_of b ∷ []))

-- The outcome, seen from a state with the same numbers.
pub moved :
    (G H : Type 0) (t u : Transport) (b : List ℕ) (o : Transport × Reply)
    → numbers t ≡ numbers u
    → (G → H)
    → Reception G t b o
    → Reception H u b o
moved G H t u b _ same f (quiet v y e n) = quiet v y (e ∙ same) n
moved G H t u b _ same f (handed v g sequenced e fresh) =
    handed v (f g) sequenced (e ∙ ap (λ (n : ReceiptWindow × ℕ). numbered n (seq_of b)) same)
      (ap (λ (n : ReceiptWindow × ℕ). (mark n.0 (seq_of b)).1) (sym same) ∙ fresh)

module _ (G : Type 0) (t : Transport) where
  take_datagram-Reception : (p : Lane) (b : List ℕ) → G → Reception G t b (take_datagram t p b)
  unfolding take_datagram
  take_datagram-Reception p b g =
      if_cases (Reception G t b) (seq_of b == 0) (λ _. quiet t (delivered []) refl tt)
        (λ sequenced.
          if_cases (Reception G t b) (mark t.received (seq_of b)).1
            (λ fresh.
              handed _ g sequenced
                (ap (λ (k : ℕ). ((mark t.received (seq_of b)).0, k))
                  (mark-high t.unreported (seq_of b)))
                fresh)
            (λ stale.
              quiet _ (delivered [])
                (ap (λ (w : ReceiptWindow). (w, t.unreported.high))
                  (mark-stale t.received (seq_of b) stale))
                tt))

module _ (G : Type 0) (t : Transport) where
  pub take_frame-Reception :
      (p : Lane) (r : Receiver) (f : Control) (now : ℕ)
      → G
      → Reception G t f.payload (take_frame t p r f now)
  unfolding take_frame
  take_frame-Reception p r f now g =
      if_both (Reception G t f.payload) (mark r.receipts f.seq).1
        (moved G G (record t { receivers = _ }) t f.payload _ refl (λ g. g)
          (take_datagram-Reception G (record t { receivers = _ }) p f.payload g))
        (quiet _ (delivered []) refl tt)

  pub receive_ack-Reception :
      (id : ℕ) (p : Lane) (h : PacketHeader) (f : Control)
      → Reception G t f.payload (receive_ack t id p h f)
  unfolding take_ack ack
  receive_ack-Reception id p h f =
      receive_ack_cases (Reception G t f.payload) t id f p h (λ c. quiet t (rejected c) refl tt)
        (λ a.
          if_both (Reception G t f.payload) (mark p.ack_receipts f.seq).1 (quiet _ _ refl tt)
            (quiet _ _ refl tt))
