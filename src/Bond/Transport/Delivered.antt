-- ===== src/Bond/Transport/Delivered.antt =====
-- What a frame is that a transport hands over.
use fecalia.Base.{
  ℕ, ◌+◌, ◌%◌, ◌≤◌, ◌<◌, ◌≡◌, refl, sym, ap, not, ◌&&◌, ◌||◌, false, some, List, [], ◌∷◌, ◌==◌,
  arith, length, ltb_false→le,
}
use mathlib.Core.Path.{subst}
use fecalia.Frame.{Control}
use fecalia.Bond.{PacketHeader, parse_header, header_bytes}
use fecalia.Bond.Transport.{Transport, interactive_bit}
use fecalia.Bond.Transport.Cases.{receive_data_cases, receive_from_cases, receive_frame_cases}
use fecalia.Bond.Transport.Receive.{
  Delivery, Reply, rejected, delivered, seq_of, order_of, delivery_of, is_malformed, open_receiver,
  receive_from, receive_frame, count_rejection, receive,
}
use fecalia.Bond.Transport.Reception.{
  Genuine, HandsNothing, Reception, quiet, handed, moved, take_frame-Reception,
  receive_ack-Reception,
}

module _ (t : Transport) (id : ℕ) (f : Control) (now : ℕ) (on_time : t.last_time ≤ now) where
  abbrev Received : Transport × Reply → Type 0
  Received = Reception (Genuine t id f now) t f.payload

  receive_from-Reception :
      (h : PacketHeader) → parse_header f.payload ≡ some h → Received (receive_from t id h f now)
  receive_from-Reception h parsed =
      receive_from_cases Received t id f h now (λ c. quiet t (rejected c) refl tt)
        (λ p found leased from kind.
          receive_data_cases Received t id f p h now (λ c. quiet t (rejected c) refl tt)
            (λ _. quiet _ _ refl tt)
            (λ passed.
              let r = open_receiver t.receivers id h.lane now in
              moved (Genuine t id f now) (Genuine t id f now) (record t { receivers = r.1 }) t
                f.payload _ refl (λ g. g)
                (take_frame-Reception (Genuine t id f now) (record t { receivers = r.1 }) p r.0 f
                  now
                  (record {
                    header = h;
                    lane = p;
                    on_time = on_time;
                    parsed = parsed;
                    from = from;
                    to = passed.to;
                    found = found;
                    leased = leased;
                    kind = kind;
                    remote_lane = passed.remote_lane;
                    least = passed.least;
                    most = passed.most;
                    well_formed = passed.well_formed;
                  }))))
        (λ p found. receive_ack-Reception (Genuine t id f now) t id p h f)

count_rejection-Reception :
    (G : Type 0) (t : Transport) (b : List ℕ) (o : Transport × Reply)
    → Reception G t b o
    → Reception G t b (count_rejection o)
unfolding count_rejection
count_rejection-Reception G t b _ (quiet u (rejected c) e n) = quiet _ (rejected c) e n
count_rejection-Reception G t b _ (quiet u (delivered l) e n) = quiet u (delivered l) e n
count_rejection-Reception G t b _ (handed u g sequenced e fresh) = handed u g sequenced e fresh

-- A frame is either handed over, and then it is a DATA frame for this pair of endpoints whose number
-- is new, or nothing of it is.
pub receive-Reception :
    (t : Transport) (id : ℕ) (f : Control) (now : ℕ)
    → Reception (Genuine t id f now) t f.payload (receive t id f now)
unfolding receive
receive-Reception t id f now =
    let C = Reception (Genuine t id f now) t f.payload in
    let later : Transport = record t { last_time = now } in
    count_rejection-Reception (Genuine t id f now) t f.payload (receive_frame t id f now) (
      receive_frame_cases C t id f now (λ _. quiet t _ refl tt) (λ _. quiet later _ refl tt)
        (λ h on_time parsed.
          moved (Genuine later id f now) (Genuine t id f now) later t f.payload _ refl
            (λ g. record {
              header = g.header;
              lane = g.lane;
              on_time = ltb_false→le now t.last_time on_time;
              parsed = g.parsed;
              from = g.from;
              to = g.to;
              found = g.found;
              leased = g.leased;
              kind = g.kind;
              remote_lane = g.remote_lane;
              least = g.least;
              most = g.most;
              well_formed = g.well_formed;
            })
            (receive_from-Reception later id f now (omega arith) h parsed)))

-- What the payload of a DATA frame has that a keepalive has not: a delivery sequence, a place in the
-- order of its class, and bytes behind the two headers.
pub record IsFilled (b : List ℕ) : Type 0 where
  pub sequenced : 0 < seq_of b
  pub ordered : 0 < order_of b % interactive_bit
  pub filled : header_bytes + 32 < length b

is_malformed-IsFilled :
    (b : List ℕ)
    → (seq_of b == 0) ≡ false
    → is_malformed b ≡ false
    → header_bytes + 32 ≤ length b
    → IsFilled b
unfolding is_malformed
is_malformed-IsFilled b sequenced well_formed least =
    let (s, (o, l)) =
      parts (seq_of b) (order_of b) (order_of b % interactive_bit) (length b) (header_bytes + 32)
        sequenced well_formed least in
    record { sequenced = s; ordered = o; filled = l }
  where
    parts :
        (s o r n m : ℕ)
        → (s == 0) ≡ false
        → (s == 0 && (not (o == 0) || not (n == m)) || not (s == 0) && (r == 0 || n == m)) ≡ false
        → m ≤ n
        → (0 < s) × ((0 < r) × (m < n))
    parts s o r n m h k le = ground arith

-- What is handed over is one datagram: a DATA frame of the known remote epoch for the local one, on a
-- path whose lease lives and whose remote lane the frame names, of a size that a datagram has, with a
-- delivery sequence, a place in the order of its class and a payload that is not empty; the datagram
-- is that payload with that place. A keepalive is not handed over.
pub receive-Genuine :
    (t : Transport) (id : ℕ) (f : Control) (now : ℕ) (d : Delivery) (l : List Delivery)
    → (receive t id f now).1 ≡ delivered (d ∷ l)
    → Genuine t id f now × IsFilled f.payload × (d ≡ delivery_of f.payload) × (l ≡ [])
receive-Genuine t id f now d l e = go (receive t id f now) (receive-Reception t id f now) e
  where
    first : Reply → Delivery
    first (delivered (x ∷ _)) = x
    first _ = d

    rest : Reply → List Delivery
    rest (delivered (_ ∷ r)) = r
    rest _ = []

    go :
        (o : Transport × Reply)
        → Reception (Genuine t id f now) t f.payload o
        → o.1 ≡ delivered (d ∷ l)
        → Genuine t id f now × IsFilled f.payload × (d ≡ delivery_of f.payload) × (l ≡ [])
    go _ (quiet u y _ n) e = absurd (subst HandsNothing e n)
    go _ (handed u g sequenced _ _) e = (
      g,
      is_malformed-IsFilled f.payload sequenced g.well_formed g.least,
      sym (ap first e),
      sym (ap rest e),
    )
