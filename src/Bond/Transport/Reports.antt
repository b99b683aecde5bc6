-- ===== src/Bond/Transport/Reports.antt =====
-- What an acknowledgement of a transport reports, as the other endpoint reads it.
use fecalia.Base.{
  ℕ, zero, suc, ◌+◌, ◌-◌, ◌*◌, ◌/◌, ◌%◌, ◌^◌, ◌≤◌, ◌<◌, ◌≡◌, refl, sym, ap, ◌∙◌, Bool, true, false,
  ◌||◌, some, List, [], ◌∷◌, ltb, leb, ◌==◌, if◌then◌else◌, if_false, if_both, arith, get_or,
}
use native.Mathlib.Nat.{pow-suc, div-div-eq-div-mul}
use fecalia.Bond.{Epoch}
use fecalia.Bond.Ack.{bit, received}
use fecalia.Bond.Receipts.{max_packets, ack_receipt_bits, oldest, bitmap}
use fecalia.Bond.Receipts.Stale.{oldest-high}
use fecalia.Bond.Receipts.Observed.{marked, highest}
use fecalia.Bond.Receipts.Report.{bitmap-Tracks}
use fecalia.Bond.Transport.{Transport, Receiver, new}
use fecalia.Bond.Transport.Send.{number_of, acknowledgement}
use fecalia.Bond.Transport.Run.{Call, call_all}
use fecalia.Bond.Transport.Once.{log_all, Logs, call_all-Logs}
use fecalia.Bond.Transport.Reception.{numbers}

-- The number of a word has its bits.
bit-number_of : (n i : ℕ) (w : ℕ → Bool) → i < n → bit (number_of n w) i ≡ w i
unfolding number_of
bit-number_of zero i w lt = elim lt [ ]
bit-number_of (suc n) zero w lt = lowest (w 0) (number_of n (λ i. w (i + 1)))
  where
    odd : (x : ℕ) → (1 + 2 * x) / 1 % 2 ≡ 1
    odd x = omega arith

    even : (x : ℕ) → (0 + 2 * x) / 1 % 2 ≡ 0
    even x = omega arith

    lowest : (b : Bool) (x : ℕ) → bit ((if b then 1 else 0) + 2 * x) 0 ≡ b
    lowest true x = ap (λ (k : ℕ). k == 1) (odd x)
    lowest false x = ap (λ (k : ℕ). k == 1) (even x)
bit-number_of (suc n) (suc i) w lt =
    let x = number_of n (λ i. w (i + 1)) in
    ap (λ (k : ℕ). k % 2 == 1)
      (ap (λ (k : ℕ). ((if w 0 then 1 else 0) + 2 * x) / k) (pow-suc 2 i ∙ omega arith)
        ∙ sym (div-div-eq-div-mul ((if w 0 then 1 else 0) + 2 * x) 2 (2 ^ i))
        ∙ ap (λ (k : ℕ). k / 2 ^ i) (half (w 0) x))
    ∙ bit-number_of n i (λ i. w (i + 1)) (omega arith)
    ∙ ap w (omega arith)
  where
    half : (b : Bool) (x : ℕ) → ((if b then 1 else 0) + 2 * x) / 2 ≡ x
    half true x = omega arith
    half false x = omega arith

-- The words of the mask, as the code writes them.
abbrev words : (ℕ → ℕ → Bool) → List ℕ
words bits =
    number_of 64 (bits 0)
    ∷ number_of 64 (bits 1)
    ∷ number_of 64 (bits 2)
    ∷ number_of 64 (bits 3)
    ∷ []

word_at : (bits : ℕ → ℕ → Bool) (k : ℕ) → k < 4 → get_or (words bits) k 0 ≡ number_of 64 (bits k)
word_at bits zero lt = refl
word_at bits (suc zero) lt = refl
word_at bits (suc (suc zero)) lt = refl
word_at bits (suc (suc (suc zero))) lt = refl
word_at bits (suc (suc (suc (suc k)))) lt = absurd (omega (arith, lt))

-- The highest number that an acknowledgement reports is none above the highest that was received.
high_bound :
    (t : Transport) (r : Receiver) (now top : ℕ)
    → t.received.high ≡ top
    → top < 2 ^ 64
    → t.unreported.high ≤ top
    → (acknowledgement t r now).received_high ≤ top
unfolding acknowledgement
high_bound t r now top ends word le =
    if_both (λ (n : ℕ). n ≤ top) (oldest t.unreported == 0) (omega (arith, ends))
      (omega (arith, ends, oldest-high t.unreported))

module _ (t : Transport) (r : Receiver) (now : ℕ) (l : List ℕ) (logs : Logs (numbers t) l) where
  reads :
      (seq : ℕ)
      → highest l < 2 ^ 64
      → (let a = acknowledgement t r now in
          0 < seq
          → seq ≤ a.received_high
          → a.received_high - seq < ack_receipt_bits
          → highest l - seq < max_packets
          → received a seq ≡ marked seq l)
  unfolding received acknowledgement
  reads seq word pos le near inside =
      let high : ℕ = (acknowledgement t r now).received_high in
      let below : high ≤ highest l = high_bound t r now (highest l) (logs.0.ends) word logs.1.1 in
      if_false _ _ _ (guard seq high pos le near)
      ∙ ap (λ (v : ℕ). bit v ((high - seq) % 64))
          (word_at (bitmap t.received high) ((high - seq) / 64) (omega (arith, near)))
      ∙ bit-number_of 64 ((high - seq) % 64) (bitmap t.received high ((high - seq) / 64))
          (omega arith)
      ∙ bitmap-Tracks t.received l high (high - seq) logs.0 word below near (omega (arith, pos, le))
          (omega (arith, inside, le))
      ∙ ap (λ (k : ℕ). marked k l) (omega (arith, le))
    where
      guard :
          (s h : ℕ)
          → 0 < s
          → s ≤ h
          → h - s < ack_receipt_bits
          → (s == 0 || ltb h s || leb (4 * 64) (h - s)) ≡ false
      guard s h a b c = ground arith

-- After any calls of a new transport, its acknowledgement of a receiver reports to the other endpoint
-- exactly the datagrams that were handed over since the remote epoch changed: of the 256 delivery
-- sequences from the one that it names down, except 0 and those a window below the highest, it reads
-- as received those and no others. The sequences fit their words.
pub acknowledgement-received :
    (e : Epoch) (t : Transport) (cs : List Call) (r : Receiver) (now seq : ℕ)
    → new e ≡ some t
    → highest (log_all t cs []) < 2 ^ 64
    → 0 < seq
    → seq ≤ (acknowledgement (call_all t cs) r now).received_high
    → (acknowledgement (call_all t cs) r now).received_high - seq < ack_receipt_bits
    → highest (log_all t cs []) - seq < max_packets
    → received (acknowledgement (call_all t cs) r now) seq ≡ marked seq (log_all t cs [])
acknowledgement-received e t cs r now seq h =
    reads (call_all t cs) r now (log_all t cs []) (call_all-Logs e t cs h) seq
