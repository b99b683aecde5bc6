-- ===== src/Bond/Ack/Roundtrip.antt =====
-- An acknowledgement is read back from its frame, and one that is read is in range.
use fecalia.Base.{
  ℕ, ◌+◌, ◌*◌, ◌^◌, ◌<◌, ◌≤◌, ◌≡◌, inl, inr, refl, sym, ap, ◌∙◌, false, not, ◌||◌, Option, none,
  some, List, [], ◌∷◌, ◌++◌, ◌==◌, ==_iff, ltb, arith, if_true, if_false, Bool-cases, be, length,
  length-append, length-be, drop, drop-append,
}
use mathlib.Core.Path.{subst}
use mathlib.Core.Option.{some-injective}
use fecalia.Frame.{◌>>=◌}
use fecalia.Frame.Body.{read_u64}
use fecalia.Frame.Size.{behind_word}
use fecalia.Bond.{Epoch, PacketHeader, header_bytes, append_header}
use fecalia.Bond.Ack.{
  Acknowledgement, ack_bytes, ack_receipt_words, max_int64, put_words, read_words, ack_words,
  ack_of, ack_frame, in_range, parse_ack,
}

abbrev pub AreWords : List ℕ → Type 0
AreWords [] = Unit
AreWords (v ∷ l) = (v < 2 ^ 64) × AreWords l

-- The fields fit their types, and the durations fit the clock.
pub record IsAck (a : Acknowledgement) : Type 0 where
  pub words : AreWords (ack_words a)
  pub size : length a.received_mask ≡ ack_receipt_words
  pub elapsed : a.elapsed ≤ max_int64
  pub delay : a.delay ≤ max_int64

length-put_words : (l : List ℕ) → length (put_words l) ≡ 8 * length l
unfolding put_words
length-put_words [] = refl
length-put_words (v ∷ l) = omega (arith, behind_word v (put_words l), length-put_words l)

read_words-put_words : (l : List ℕ) → AreWords l → read_words (length l) (put_words l) ≡ some l
unfolding read_words put_words
read_words-put_words [] h = refl
read_words-put_words (v ∷ l) h = rw (read_u64 v h.0 (put_words l), read_words-put_words l h.1) refl

pub length-append_header : (h : PacketHeader) → length (append_header h) ≡ header_bytes
unfolding append_header
length-append_header h = omega (
  arith,
  behind_word h.epoch.boot (be 8 h.epoch.generation ++ be 2 h.lane),
  behind_word h.epoch.generation (be 2 h.lane),
  length-be 2 h.lane,
)

-- Any header of its size may stand in front of the words.
parse_words :
    (h : List ℕ) (a : Acknowledgement)
    → IsAck a
    → length h ≡ header_bytes
    → parse_ack (h ++ put_words (ack_words a)) ≡ some a
unfolding parse_ack in_range
parse_words h a v e =
    let w : List ℕ = put_words (ack_words a) in
    let size : length (h ++ w) ≡ 115 =
      omega (arith, length-append h w, length-put_words (ack_words a), v.size) in
    let twelve : length (ack_words a) ≡ 12 = omega (arith, v.size) in
    let words : read_words 12 (drop 19 (h ++ w)) ≡ some (ack_words a) =
      ap (λ n. read_words 12 (drop n (h ++ w))) (sym e)
      ∙ ap (read_words 12) (drop-append h w)
      ∙ ap (λ n. read_words n w) (sym twelve)
      ∙ read_words-put_words (ack_words a) v.words in
    if_false (not (length (h ++ w) == 115)) _ _ (rw size refl)
    ∙ rw words (
        if_false (ltb max_int64 a.elapsed || ltb max_int64 a.delay) _ _
          (in_clock a.elapsed a.delay v.elapsed v.delay))
  where
    in_clock :
        (x y : ℕ) → x ≤ max_int64 → y ≤ max_int64 → (ltb max_int64 x || ltb max_int64 y) ≡ false
    in_clock x y p q = ground arith

-- An acknowledgement whose fields fit their types and whose durations fit the clock is read back
-- from the payload of its frame, whatever its epoch, lane and revision.
pub parse_ack-ack_frame :
    (epoch : Epoch) (lane revision : ℕ) (a : Acknowledgement)
    → IsAck a
    → parse_ack (ack_frame epoch lane revision a).payload ≡ some a
unfolding ack_frame
parse_ack-ack_frame epoch lane revision a v =
    let h : PacketHeader = record { epoch = epoch; lane = lane } in
    parse_words (append_header h) a v (length-append_header h)

in_range_inv :
    (a b : Acknowledgement) → in_range a ≡ some b → (b.elapsed ≤ max_int64) × (b.delay ≤ max_int64)
unfolding in_range
in_range_inv a b e = elim (Bool-cases (ltb max_int64 a.elapsed || ltb max_int64 a.delay)) [
  | inl y ↦ cc (sym (if_true (ltb max_int64 a.elapsed || ltb max_int64 a.delay) _ _ y) ∙ e)
  | inr n ↦
      subst (λ (c : Acknowledgement). (c.elapsed ≤ max_int64) × (c.delay ≤ max_int64))
        (some-injective _ _
          (sym (if_false (ltb max_int64 a.elapsed || ltb max_int64 a.delay) _ _ n) ∙ e))
        (within a.elapsed a.delay n)
]
  where
    within :
        (x y : ℕ) → (ltb max_int64 x || ltb max_int64 y) ≡ false → (x ≤ max_int64) × (y ≤ max_int64)
    within x y p = ground arith

of_some :
    (o : Option Acknowledgement) (b : Acknowledgement)
    → (o >>= in_range) ≡ some b
    → (b.elapsed ≤ max_int64) × (b.delay ≤ max_int64)
of_some none b e = cc e
of_some (some a) b e = in_range_inv a b e

of_words :
    (o : Option (List ℕ)) (b : Acknowledgement)
    → (o >>= λ ws. ack_of ws >>= in_range) ≡ some b
    → (b.elapsed ≤ max_int64) × (b.delay ≤ max_int64)
of_words none b e = cc e
of_words (some ws) b e = of_some (ack_of ws) b e

-- A payload that is read as an acknowledgement has exactly the size of one, and its durations fit
-- the clock: every other payload is refused.
pub parse_ack_inv :
    (b : List ℕ) (a : Acknowledgement)
    → parse_ack b ≡ some a
    → (length b ≡ header_bytes + ack_bytes) × (a.elapsed ≤ max_int64) × (a.delay ≤ max_int64)
unfolding parse_ack
parse_ack_inv b a e = elim (Bool-cases (length b == 115)) [
  | inl y ↦
      let (p, q) =
        of_words (read_words 12 (drop 19 b)) a
          (sym (if_false (not (length b == 115)) _ _ (rw y refl)) ∙ e) in
      ((==_iff (length b) 115).0 y, p, q)
  | inr n ↦ cc (sym (if_true (not (length b == 115)) _ _ (rw n refl)) ∙ e)
]
