-- ===== src/Bond/Receipts/Report.antt =====
-- The bitmap of an acknowledgement against the list of the numbers that were marked.
use fecalia.Base.{
  ℕ, zero, suc, ◌-◌, ◌/◌, ◌%◌, ◌^◌, ◌≤◌, ◌<◌, ◌≡◌, ◌≢◌, inl, inr, sym, ap, ◌∙◌, Bool, true, false,
  ◌&&◌, ◌||◌, List, ltb, ◌==◌, ℕ_discrete, if_true, if_false, Bool-cases, arith, lt→ltb,
  le→ltb_false, sub64,
}
use fecalia.Bond.Receipts.{max_packets, ack_receipt_bits, ReceiptWindow, has, bitmap_loop, bitmap}
use fecalia.Bond.Receipts.Observed.{marked, highest, after, Tracks, set_at_lem, after-Tracks}

-- What the loop tests at an offset.
abbrev reports : ReceiptWindow → ℕ → ℕ → Bool
reports w high j =
    ltb j high && ltb (sub64 w.high (high - j)) max_packets && has w (sub64 w.high (high - j))

-- One turn more, at the offset `n`.
turn :
    (n j : ℕ) (c d r : Bool)
    → (n ≡ j → d ≡ c)
    → r ≡ (ltb j n && c)
    → (d ≡ true → (n == j || r) ≡ (ltb j (suc n) && c)) × (d ≡ false → r ≡ (ltb j (suc n) && c))
turn n j c d r same e = elim (ℕ_discrete n j) [
  | yes q ↦ (
    (λ y.
        ap (λ b. b || r) (eq n j q)
        ∙ sym (ap (λ b. b && c) (lt→ltb j (suc n) (omega arith)) ∙ sym (same q) ∙ y)),
    λ unset.
        e
        ∙ ap (λ b. b && c) (le→ltb_false j n (omega arith))
        ∙ sym (ap (λ b. b && c) (lt→ltb j (suc n) (omega arith)) ∙ sym (same q) ∙ unset),
  )
  | no ne ↦
      let grown : ltb j n ≡ ltb j (suc n) = beside n j ne in
      (
        (λ y. ap (λ b. b || r) (neq n j ne) ∙ e ∙ ap (λ b. b && c) grown),
        λ unset. e ∙ ap (λ b. b && c) grown,
      )
]
  where
    eq : (a b : ℕ) → a ≡ b → (a == b) ≡ true
    eq a b q = ground arith

    neq : (a b : ℕ) → a ≢ b → (a == b) ≡ false
    neq a b q = ground arith

    beside : (a b : ℕ) → a ≢ b → ltb b a ≡ ltb b (suc a)
    beside a b q = ground arith

bitmap_loop_lem :
    (w : ReceiptWindow) (high n j : ℕ)
    → bitmap_loop w high n (j / 64) (j % 64) ≡ (ltb j n && reports w high j)
unfolding bitmap_loop
bitmap_loop_lem w high zero j =
    sym (ap (λ b. b && reports w high j) (le→ltb_false j 0 (omega arith)))
bitmap_loop_lem w high (suc n) j =
    let (set, left) =
      turn n j (reports w high j) (reports w high n) (bitmap_loop w high n (j / 64) (j % 64))
        (ap (λ k. reports w high k)) (bitmap_loop_lem w high n j) in
    elim (Bool-cases (reports w high n)) [
      | inl y ↦
          ap (λ (m : ℕ → ℕ → Bool). m (j / 64) (j % 64)) (if_true (reports w high n) _ _ y)
          ∙ set_at_lem (bitmap_loop w high n) n j
          ∙ set y
      | inr unset ↦
          ap (λ (m : ℕ → ℕ → Bool). m (j / 64) (j % 64)) (if_false (reports w high n) _ _ unset)
          ∙ left unset
    ]

-- A window that ends with the highest number of a list and tracks it.
pub bitmap-Tracks :
    (w : ReceiptWindow) (l : List ℕ) (high j : ℕ)
    → Tracks w (highest l) l
    → highest l < 2 ^ 64
    → high ≤ highest l
    → j < ack_receipt_bits
    → j < high
    → highest l - (high - j) < max_packets
    → bitmap w high (j / 64) (j % 64) ≡ marked (high - j) l
unfolding bitmap
bitmap-Tracks w l high j t word below small positive near =
    let delta : sub64 w.high (high - j) ≡ highest l - (high - j) = omega (arith, t.ends) in
    bitmap_loop_lem w high ack_receipt_bits j
    ∙ rw
        (
          lt→ltb j ack_receipt_bits small,
          lt→ltb j high positive,
          delta,
          lt→ltb (highest l - (high - j)) max_packets near,
        )
        (t.bits (highest l - (high - j)) near (omega arith) ∙ ap (λ k. marked k l) (omega arith))

-- After any calls of `mark`, the bitmap for a number `high` of the window reports for each of the 256
-- numbers from `high` down, as far as they are in the window and not 0, exactly whether it was marked.
pub bitmap_lem :
    (l : List ℕ) (high j : ℕ)
    → highest l < 2 ^ 64
    → high ≤ highest l
    → j < ack_receipt_bits
    → j < high
    → highest l - (high - j) < max_packets
    → bitmap (after l) high (j / 64) (j % 64) ≡ marked (high - j) l
bitmap_lem l high j = bitmap-Tracks (after l) l high j (after-Tracks l)
