-- ===== src/Bond/Receipts.antt =====
-- The window of received sequence numbers, `receiptWindow` of internal/bond/bond.go. A word of the
-- mask is the function of its 64 bits, since the code only shifts, joins and tests words; the array
-- is a function of the index. Sequence numbers are below 2 ^ 64.
use fecalia.Base.{
  ℕ, zero, suc, ◌+◌, ◌-◌, ◌*◌, ◌/◌, ◌%◌, Bool, true, false, not, ◌&&◌, ◌||◌, Option, none, some,
  ltb, leb, ◌==◌, if◌then◌else◌, sub64,
}
use fecalia.Bond.Ack.{ack_receipt_words}
pub mod Shift
pub mod Observed
pub mod Report
pub mod Stale
pub mod Tests

abbrev pub max_packets : ℕ
max_packets = 8192

abbrev pub mask_words : ℕ
mask_words = max_packets / 64

abbrev pub ack_receipt_bits : ℕ
ack_receipt_bits = 64 * ack_receipt_words

-- The operators `<<`, `>>` and `|` on words.
abbrev pub shift_left : (ℕ → Bool) → ℕ → ℕ → Bool
shift_left w s i = leb s i && ltb i 64 && w (i - s)

abbrev pub shift_right : (ℕ → Bool) → ℕ → ℕ → Bool
shift_right w s i = ltb (i + s) 64 && w (i + s)

abbrev pub join : (ℕ → Bool) → (ℕ → Bool) → ℕ → Bool
join v w i = v i || w i

pub record ReceiptWindow : Type 0 where
  pub high : ℕ
  pub mask : ℕ → ℕ → Bool

-- The zero value.
abbrev pub new_receipts : ReceiptWindow
new_receipts = record { high = 0; mask = λ _ _. false }

abbrev pub set_word : (ℕ → ℕ → Bool) → ℕ → (ℕ → Bool) → ℕ → ℕ → Bool
set_word mask i word j = if i == j then word else mask j

-- The word that the loop of `mark` writes at `i`.
unfoldable pub shift_word : ℕ → ℕ → (ℕ → ℕ → Bool) → ℕ → ℕ → Bool
shift_word words shift mask i =
    let value = if leb words i then shift_left (mask (i - words)) shift else (λ _. false) in
    if ltb 0 shift && ltb words i
    then join value (shift_right (mask (i - words - 1)) (64 - shift))
    else value

-- The loop of `mark`, from the index `n - 1` down, in place.
unfoldable pub shift_loop : ℕ → ℕ → ℕ → (ℕ → ℕ → Bool) → ℕ → ℕ → Bool
unfolding shift_word
shift_loop words shift zero mask = mask
shift_loop words shift (suc n) mask =
    shift_loop words shift n (set_word mask n (shift_word words shift mask n))

-- The part of `mark` that moves the window up to a new highest number.
unfoldable pub move_up : ReceiptWindow → ℕ → ReceiptWindow
unfolding shift_loop
move_up w seq =
    if ltb w.high seq
    then (record {
      high = seq;
      mask =
          if leb max_packets (seq - w.high)
          then (λ _ _. false)
          else shift_loop ((seq - w.high) / 64) ((seq - w.high) % 64) mask_words w.mask;
    })
    else w

-- The bit for a distance below `high`.
abbrev pub has : ReceiptWindow → ℕ → Bool
has w delta = w.mask (delta / 64) (delta % 64)

-- A mask with the bit at a distance set.
abbrev pub set_at : (ℕ → ℕ → Bool) → ℕ → ℕ → ℕ → Bool
set_at mask delta = set_word mask (delta / 64) (join (mask (delta / 64)) (λ i. delta % 64 == i))

abbrev pub set_bit : ReceiptWindow → ℕ → ReceiptWindow
set_bit w delta = record w { mask = set_at w.mask delta }

-- The rest of `mark`.
unfoldable pub mark_at : ReceiptWindow → ℕ → ReceiptWindow × Bool
mark_at w delta =
    if leb max_packets delta
    then (w, false)
    else (if has w delta then (w, false) else (set_bit w delta, true))

-- `mark`: the window, and whether the number is new.
unfoldable pub mark : ReceiptWindow → ℕ → ReceiptWindow × Bool
unfolding move_up mark_at
mark w seq = let moved = move_up w seq in mark_at moved (moved.high - seq)

-- The highest bit that is set among the lower `n` bits of a word.
unfoldable pub top_bit : ℕ → (ℕ → Bool) → Option ℕ
top_bit zero word = none
top_bit (suc n) word = let rest = top_bit n word in if word n then some n else rest

-- The loop of `oldest`, from the index `n - 1` down.
unfoldable pub oldest_below : ℕ → ReceiptWindow → ℕ
unfolding top_bit
oldest_below zero w = 0
oldest_below (suc n) w =
    let rest = oldest_below n w in
    elim (top_bit 64 (w.mask n)) [ none ↦ rest | some b ↦ w.high - (n * 64 + b) ]

unfoldable pub oldest : ReceiptWindow → ℕ
unfolding oldest_below
oldest w = oldest_below mask_words w

-- The loop of `bitmap`, over the offsets below `n`.
unfoldable pub bitmap_loop : ReceiptWindow → ℕ → ℕ → ℕ → ℕ → Bool
bitmap_loop w high zero = λ _ _. false
bitmap_loop w high (suc offset) =
    let result = bitmap_loop w high offset in
    let delta = sub64 w.high (high - offset) in
    if ltb offset high && ltb delta max_packets && has w delta then set_at result offset else result

unfoldable pub bitmap : ReceiptWindow → ℕ → ℕ → ℕ → Bool
unfolding bitmap_loop
bitmap w high = bitmap_loop w high ack_receipt_bits

-- `forgetThrough`: the word of the distance keeps its lower bits, and the words behind it are cleared.
unfoldable pub forget_through : ReceiptWindow → ℕ → ReceiptWindow
forget_through w high =
    if leb w.high high
    then (record w { mask = λ _ _. false })
    else (let delta = w.high - high in
        if ltb delta max_packets
        then (record w {
          mask = λ i b.
              if i == delta / 64
              then w.mask i b && ltb b (delta % 64)
              else w.mask i b && ltb i (delta / 64);
        })
        else w)
