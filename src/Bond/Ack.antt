-- ===== src/Bond/Ack.antt =====
-- Acknowledgements, internal/bond/wire.go. The array `receivedMask` is a list of four words; the
-- bit `i` of a word is its quotient by `2 ^ i`, odd.
use fecalia.Base.{
  ℕ, ◌+◌, ◌-◌, ◌*◌, ◌/◌, ◌%◌, ◌^◌, ◌<◌, ◌≤◌, suc, zero, ◌≡◌, refl, sym, ap, ◌∙◌, Bool, true, false,
  not, ◌||◌, Option, none, some, List, [], ◌∷◌, ◌++◌, append_assoc, append-nil, ◌==◌, ==_iff, ltb,
  leb, leb→le, ltb_false→le, arith, if◌then◌else◌, if_true, if_false, Bool-cases, be, read_be,
  length, length-append, drop, drop-append, get_or,
}
use fecalia.Frame.{Control, ◌>>=◌}
use fecalia.Frame.Body.{read_u64}
use fecalia.Frame.Size.{behind_word}
use fecalia.Bond.{Epoch, PacketHeader, header_bytes, append_header}
pub mod Roundtrip
pub mod Tests

abbrev pub ack_type : ℕ
ack_type = 162

abbrev pub ack_bytes : ℕ
ack_bytes = 96

abbrev pub ack_receipt_words : ℕ
ack_receipt_words = 4

abbrev pub max_int64 : ℕ
max_int64 = 9223372036854775807

pub record Acknowledgement : Type 0 where
  pub observed : Epoch
  pub high : ℕ
  pub mask : ℕ
  pub bytes : ℕ
  pub elapsed : ℕ
  pub delay : ℕ
  pub received_high : ℕ
  pub received_mask : List ℕ

abbrev pub bit : ℕ → ℕ → Bool
bit word i = word / 2 ^ i % 2 == 1

-- `acknowledgement.received`.
unfoldable pub received : Acknowledgement → ℕ → Bool
received a seq =
    if seq == 0
      || ltb a.received_high seq
      || leb (length a.received_mask * 64) (a.received_high - seq)
    then false
    else (let delta = a.received_high - seq in
        bit (get_or a.received_mask (delta / 64) 0) (delta % 64))

-- The loops that append words and read them.
unfoldable pub put_words : List ℕ → List ℕ
put_words [] = []
put_words (v ∷ l) = be 8 v ++ put_words l

unfoldable pub read_words : ℕ → List ℕ → Option (List ℕ)
read_words zero b = some []
read_words (suc k) b = do (v, b) ← read_be 8 0 b; l ← read_words k b; some (v ∷ l)

-- The words of an acknowledgement behind its header, in their order.
abbrev pub ack_words : Acknowledgement → List ℕ
ack_words a =
    a.observed.boot ∷ a.observed.generation ∷ a.high ∷ a.mask ∷ a.bytes ∷ a.elapsed ∷ a.delay
    ∷ a.received_high ∷ a.received_mask

abbrev pub ack_of : List ℕ → Option Acknowledgement
ack_of (boot ∷ generation ∷ high ∷ mask ∷ bytes ∷ elapsed ∷ delay ∷ received_high ∷ received_mask) =
    some (record {
      observed = record { boot = boot; generation = generation };
      high = high;
      mask = mask;
      bytes = bytes;
      elapsed = elapsed;
      delay = delay;
      received_high = received_high;
      received_mask = received_mask;
    })
ack_of _ = none

unfoldable pub ack_frame : Epoch → ℕ → ℕ → Acknowledgement → Control
unfolding append_header put_words
ack_frame epoch lane revision a = record {
  control_type = ack_type;
  seq = revision;
  payload = append_header (record { epoch = epoch; lane = lane }) ++ put_words (ack_words a);
}

-- The durations of an acknowledgement fit the monotonic clock.
unfoldable pub in_range : Acknowledgement → Option Acknowledgement
in_range a = if ltb max_int64 a.elapsed || ltb max_int64 a.delay then none else some a

-- `parseACK`, on the payload with its header.
unfoldable pub parse_ack : List ℕ → Option Acknowledgement
unfolding in_range read_words
parse_ack b = if not (length b == header_bytes + ack_bytes) then none else (do
  words ← read_words (8 + ack_receipt_words) (drop header_bytes b)
  a ← ack_of words
  in_range a)
