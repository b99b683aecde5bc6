-- ===== src/Bond/Transport/Arrives.antt =====
-- A datagram that one transport sends reaches the other one whole.
use fecalia.Base.{
  ℕ, ◌+◌, ◌%◌, ◌^◌, ◌≤◌, ◌<◌, ◌≡◌, refl, sym, ap, ◌∙◌, Bool, true, false, not, ◌&&◌, ◌||◌, some,
  List, [], ◌∷◌, leb, ◌==◌, if◌then◌else◌, if_true, if_both, arith, le→leb, lt→leb_false, length,
  drop,
}
use mathlib.Core.Path.{subst}
use fecalia.Frame.{Control}
use fecalia.Bond.{Epoch, PacketHeader, header_bytes, data_frame}
use fecalia.Bond.Header.{IsHeader, parse_header-append_header, length-data_frame}
use fecalia.Bond.Receipts.{mark}
use fecalia.Bond.Transport.{
  interactive_bit, max_datagram, Class, realtime, small, bulk, Datagram, Lane, Transport,
  same_epoch, find_lane, up,
}
use fecalia.Bond.Transport.Receive.{
  Delivery, delivered, destination, seq_of, order_of, delivery_of, open_receiver, is_malformed,
  receive,
}
use fecalia.Bond.Transport.Flight.{launch}
use fecalia.Bond.Transport.Reception.{Genuine}
use fecalia.Bond.Transport.Accepted.{New, receive-Hands}
use fecalia.Bond.Transport.Send.{number, count_original, carry, send_datagram, transmit}
use fecalia.Bond.Transport.Words.{first_word, second_word, third_word, fourth_word, last_tail}

-- The order that `transmit` gives to a datagram.
abbrev pub next_order : Transport → Datagram → ℕ
next_order s d = if d.interactive then s.interactive_seq + 1 + interactive_bit else s.bulk_seq + 1

abbrev delivery : ℕ → Bool → List ℕ → Delivery
delivery sequence interactive payload = record {
  sequence = sequence;
  interactive = interactive;
  payload = payload;
}

-- What the receiver is to hand over.
abbrev pub sent_delivery : Transport → Datagram → Delivery
sent_delivery s d =
    delivery (if d.interactive then s.interactive_seq + 1 else s.bulk_seq + 1) d.interactive
      d.payload

-- The frame of a datagram that is sent for the first time.
transmit-data_frame :
    (s : Transport) (d : Datagram) (p : Lane) (now : ℕ)
    → d.seq ≡ 0
    → (transmit s d p now).1
      ≡ data_frame s.epoch s.remote p.id (p.seq + 1) (s.seq + 1) (next_order s d) d.payload
unfolding transmit number send_datagram carry launch count_original
transmit-data_frame s d p now e =
    ap (λ (r : Transport × Control). r.1) (if_true (d.seq == 0) _ _ (same_true d.seq 0 e))
    ∙ by_class d.class
  where
    same_true : (a b : ℕ) → a ≡ b → (a == b) ≡ true
    same_true a b e = ground arith

    by_class :
        (c : Class)
        → (let (t, q) = count_original s p c in
            let (u, sent) = number t d now in (send_datagram u sent q now).1)
          ≡ data_frame s.epoch s.remote p.id (p.seq + 1) (s.seq + 1) (next_order s d) d.payload
    by_class realtime = refl
    by_class small = refl
    by_class bulk = refl

-- The sender `s` has a datagram for its lane `p`, and the path `id` of the receiver `t` is that lane:
-- the two know each other's epochs, the counters are below their words, and the numbers are new to
-- the receiver.
pub record Ready (s t : Transport) (d : Datagram) (p : Lane) (id at_peer : ℕ) : Type 0 where
  pub to : s.remote ≡ t.epoch
  pub from : t.remote ≡ s.epoch
  pub header : IsHeader (record { epoch = s.epoch; lane = p.id })
  pub boot : t.epoch.boot < 2 ^ 64
  pub generation : t.epoch.generation < 2 ^ 64
  pub unsent : d.seq ≡ 0
  pub filled : 0 < length d.payload
  pub bounded : length d.payload ≤ max_datagram
  pub seq_fits : s.seq + 1 < 2 ^ 64
  pub interactive_fits : s.interactive_seq + 1 < interactive_bit
  pub bulk_fits : s.bulk_seq + 1 < interactive_bit
  pub on_time : t.last_time ≤ at_peer
  pub lane : Lane
  pub found : find_lane t.paths id ≡ some lane
  pub leased : up lane at_peer ≡ true
  pub remote_lane : lane.remote_id ≡ p.id
  pub on_path : (open_receiver t.receivers id p.id at_peer).0.path ≡ id
  pub new_frame : (mark (open_receiver t.receivers id p.id at_peer).0.receipts (p.seq + 1)).1 ≡ true
  pub new_datagram : (mark t.received (s.seq + 1)).1 ≡ true

module _ (s t : Transport) (d : Datagram) (p : Lane) (id at_peer : ℕ)
    (r : Ready s t d p id at_peer) where
  abbrev header_of : PacketHeader
  header_of = record { epoch = s.epoch; lane = p.id }

  abbrev frame_of : Control
  frame_of = data_frame s.epoch s.remote p.id (p.seq + 1) (s.seq + 1) (next_order s d) d.payload

  order_fits : (next_order s d < 2 ^ 64) × (0 < next_order s d % interactive_bit)
  order_fits =
      if_both (λ (n : ℕ). (n < 2 ^ 64) × (0 < n % interactive_bit)) d.interactive
        (omega (arith, r.interactive_fits), omega (arith, r.interactive_fits))
        (omega (arith, r.bulk_fits), omega (arith, r.bulk_fits))

  frame-Genuine : (g : Genuine t id frame_of at_peer) × (g.header.lane ≡ p.id)
  unfolding data_frame is_malformed
  frame-Genuine = (
    record {
      header = header_of;
      lane = r.lane;
      on_time = r.on_time;
      parsed = parse_header-append_header header_of _ r.header;
      from =
          alike s.epoch t.remote (ap (λ (e : Epoch). e.boot) (sym r.from))
            (ap (λ (e : Epoch). e.generation) (sym r.from));
      to =
          alike (destination frame_of.payload) t.epoch
            (first_word header_of s.remote.boot s.remote.generation (s.seq + 1) (next_order s d)
                d.payload (omega (arith, boot, r.boot))
              ∙ boot)
            (second_word header_of s.remote.boot s.remote.generation (s.seq + 1) (next_order s d)
                d.payload (omega (arith, generation, r.generation))
              ∙ generation);
      found = r.found;
      leased = r.leased;
      kind = refl;
      remote_lane = sym r.remote_lane;
      least = omega (arith, size, r.filled);
      most = omega (arith, size, r.bounded);
      well_formed =
          ap
            (λ (n : ℕ).
              n == 0
                && (not (order_of frame_of.payload == 0)
                    || not (length frame_of.payload == header_bytes + 32))
              || not (n == 0)
                && (order_of frame_of.payload % interactive_bit == 0
                    || length frame_of.payload == header_bytes + 32))
            sequence
          ∙ formed (s.seq + 1) (order_of frame_of.payload)
              (order_of frame_of.payload % interactive_bit) (length frame_of.payload) (omega arith)
              (subst (λ (n : ℕ). 0 < n % interactive_bit) (sym order) order_fits.1)
              (omega (arith, size, r.filled));
    },
    refl,
  )
    where
      boot : s.remote.boot ≡ t.epoch.boot
      boot = ap (λ (e : Epoch). e.boot) r.to

      generation : s.remote.generation ≡ t.epoch.generation
      generation = ap (λ (e : Epoch). e.generation) r.to

      size : length frame_of.payload ≡ 51 + length d.payload
      size =
          length-data_frame s.epoch s.remote p.id (p.seq + 1) (s.seq + 1) (next_order s d) d.payload

      sequence : seq_of frame_of.payload ≡ s.seq + 1
      sequence =
          third_word header_of s.remote.boot s.remote.generation (s.seq + 1) (next_order s d)
            d.payload r.seq_fits

      order : order_of frame_of.payload ≡ next_order s d
      order =
          fourth_word header_of s.remote.boot s.remote.generation (s.seq + 1) (next_order s d)
            d.payload order_fits.0

      alike : (a b : Epoch) → a.boot ≡ b.boot → a.generation ≡ b.generation → same_epoch a b ≡ true
      alike a b e g = both a.boot b.boot a.generation b.generation e g
        where
          both : (i j k l : ℕ) → i ≡ j → k ≡ l → (i == j && k == l) ≡ true
          both i j k l e g = ground arith

      formed :
          (a o m n : ℕ)
          → 0 < a
          → 0 < m
          → 51 < n
          → (a == 0 && (not (o == 0) || not (n == 51)) || not (a == 0) && (m == 0 || n == 51))
            ≡ false
      formed a o m n x y z = ground arith

  frame-New : New t id p.id frame_of at_peer
  unfolding data_frame
  frame-New =
      let sequence : seq_of frame_of.payload ≡ s.seq + 1 =
        third_word header_of s.remote.boot s.remote.generation (s.seq + 1) (next_order s d)
          d.payload r.seq_fits in
      record {
        numbered = positive p.seq;
        sequenced = ap (λ (n : ℕ). n == 0) sequence ∙ positive s.seq;
        on_path = r.on_path;
        frame = r.new_frame;
        datagram = ap (λ (n : ℕ). (mark t.received n).1) sequence ∙ r.new_datagram;
      }
    where
      positive : (n : ℕ) → (n + 1 == 0) ≡ false
      positive n = ground arith

  -- What is handed over of the frame.
  frame-delivery_of : delivery_of frame_of.payload ≡ sent_delivery s d
  unfolding data_frame
  frame-delivery_of =
      let order : order_of frame_of.payload ≡ next_order s d =
        fourth_word header_of s.remote.boot s.remote.generation (s.seq + 1) (next_order s d)
          d.payload order_fits.0 in
      ap
        (λ (n : ℕ).
          delivery (n % interactive_bit) (leb interactive_bit n)
            (drop (header_bytes + 32) frame_of.payload))
        order
      ∙ ap
          (λ (l : List ℕ).
            delivery (next_order s d % interactive_bit) (leb interactive_bit (next_order s d)) l)
          (last_tail header_of s.remote.boot s.remote.generation (s.seq + 1) (next_order s d)
            d.payload)
      ∙ by_flag d.interactive
    where
      by_flag :
          (b : Bool)
          → (let n = if b then s.interactive_seq + 1 + interactive_bit else s.bulk_seq + 1 in
              delivery (n % interactive_bit) (leb interactive_bit n) d.payload)
            ≡ delivery (if b then s.interactive_seq + 1 else s.bulk_seq + 1) b d.payload
      by_flag true =
          ap
            (λ (n : ℕ).
              delivery n (leb interactive_bit (s.interactive_seq + 1 + interactive_bit)) d.payload)
            (omega (arith, r.interactive_fits))
          ∙ ap (λ (b : Bool). delivery (s.interactive_seq + 1) b d.payload)
              (le→leb interactive_bit (s.interactive_seq + 1 + interactive_bit) (omega arith))
      by_flag false =
          ap (λ (n : ℕ). delivery n (leb interactive_bit (s.bulk_seq + 1)) d.payload)
            (omega (arith, r.bulk_fits))
          ∙ ap (λ (b : Bool). delivery (s.bulk_seq + 1) b d.payload)
              (lt→leb_false interactive_bit (s.bulk_seq + 1) r.bulk_fits)

-- A datagram that is sent for the first time, arrives on a leased path of a receiver that knows the
-- sender's epoch and is known to it, and bears numbers that are new there, is handed over whole: with
-- its bytes, its class of order and the order that the sender counted.
pub transmit-received :
    (s t : Transport) (d : Datagram) (p : Lane) (now id at_peer : ℕ)
    → Ready s t d p id at_peer
    → (receive t id (transmit s d p now).1 at_peer).1 ≡ delivered (sent_delivery s d ∷ [])
transmit-received s t d p now id at_peer r =
    let f = data_frame s.epoch s.remote p.id (p.seq + 1) (s.seq + 1) (next_order s d) d.payload in
    let (g, lane) = frame-Genuine s t d p id at_peer r in
    ap (λ (c : Control). (receive t id c at_peer).1) (transmit-data_frame s d p now r.unsent)
    ∙ receive-Hands t id f at_peer g
        (subst (λ lane. New t id lane f at_peer) (sym lane) (frame-New s t d p id at_peer r))
    ∙ ap (λ (x : Delivery). delivered (x ∷ [])) (frame-delivery_of s t d p id at_peer r)
