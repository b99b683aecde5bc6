-- ===== src/Bond/Receipts/Stale.antt =====
-- A number that is not new leaves the window of receipts as it was.
use fecalia.Base.{
  ℕ, zero, suc, ◌+◌, ◌*◌, ◌≤◌, max, Option, none, some, ◌-◌, ◌/◌, ◌%◌, ◌<◌, ◌≡◌, inl, inr, refl,
  sym, ap, ◌∙◌, Bool, true, false, ltb, leb, dec_lt, if◌then◌else◌, if_true, if_false, if_both,
  Bool-cases, arith, lt→ltb, le→ltb_false, lt→leb_false,
}
use mathlib.Core.Path.{subst}
use fecalia.Bond.Receipts.{
  max_packets, mask_words, ReceiptWindow, shift_loop, move_up, has, mark_at, mark, forget_through,
  top_bit, oldest_below, oldest,
}
use fecalia.Bond.Receipts.Shift.{shift_loop_lem}

-- The bit of a new highest number is not set.
moved_unset :
    (w : ReceiptWindow) (s : ℕ)
    → 0 < s
    → (if leb max_packets s then (λ _ _. false) else shift_loop (s / 64) (s % 64) mask_words w.mask)
        0 0
      ≡ false
moved_unset w s pos = elim (Bool-cases (leb max_packets s)) [
  | inl y ↦ ap (λ (m : ℕ → ℕ → Bool). m 0 0) (if_true (leb max_packets s) _ _ y)
  | inr n ↦
      ap (λ (m : ℕ → ℕ → Bool). m 0 0) (if_false (leb max_packets s) _ _ n)
      ∙ shift_loop_lem w.mask mask_words s 0 (omega arith)
      ∙ if_true (ltb 0 s) _ _ (lt→ltb 0 s pos)
]

abbrev Kept : ReceiptWindow → ReceiptWindow × Bool → Type 0
Kept w r = r.1 ≡ false → r.0 ≡ w

mark_at-Kept : (w : ReceiptWindow) (delta : ℕ) → Kept w (mark_at w delta)
unfolding mark_at
mark_at-Kept w delta =
    if_both (Kept w) (leb max_packets delta) (λ _. refl)
      (if_both (Kept w) (has w delta) (λ _. refl) (λ e. cc e))

mark_at_top :
    (v : ReceiptWindow) (delta : ℕ) → delta ≡ 0 → v.mask 0 0 ≡ false → (mark_at v delta).1 ≡ true
unfolding mark_at
mark_at_top v delta top unset =
    let clear : has v delta ≡ false = ap (λ d. has v d) top ∙ unset in
    ap (λ (r : ReceiptWindow × Bool). r.1)
      (if_false (leb max_packets delta) _ _ (lt→leb_false max_packets delta (omega arith))
        ∙ if_false (has v delta) _ _ clear)

pub mark-stale : (w : ReceiptWindow) (seq : ℕ) → (mark w seq).1 ≡ false → (mark w seq).0 ≡ w
unfolding mark move_up
mark-stale w seq = elim (dec_lt w.high seq) [
  | yes lt ↦
      let moved : ReceiptWindow = record {
        high = seq;
        mask =
            if leb max_packets (seq - w.high)
            then (λ _ _. false)
            else shift_loop ((seq - w.high) / 64) ((seq - w.high) % 64) mask_words w.mask;
      } in
      λ e. cc (
        sym
          (mark_at_top moved (seq - seq) (omega arith) (moved_unset w (seq - w.high) (omega arith)))
        ∙ ap (λ (v : ReceiptWindow). (mark_at v (v.high - seq)).1)
            (sym (if_true (ltb w.high seq) moved w (lt→ltb w.high seq lt)))
        ∙ e)
  | no ge ↦
      subst (λ (v : ReceiptWindow). Kept w (mark_at v (v.high - seq)))
        (sym (if_false (ltb w.high seq) _ _ (le→ltb_false w.high seq (omega arith))))
        (mark_at-Kept w (w.high - seq))
]

mark_at-high : (w : ReceiptWindow) (delta : ℕ) → (mark_at w delta).0.high ≡ w.high
unfolding mark_at
mark_at-high w delta =
    if_both (λ (r : ReceiptWindow × Bool). r.0.high ≡ w.high) (leb max_packets delta) refl
      (if_both (λ (r : ReceiptWindow × Bool). r.0.high ≡ w.high) (has w delta) refl refl)

-- The window ends with the highest number.
pub mark-high : (w : ReceiptWindow) (seq : ℕ) → (mark w seq).0.high ≡ max seq w.high
unfolding mark move_up
mark-high w seq =
    mark_at-high (move_up w seq) ((move_up w seq).high - seq) ∙ elim (dec_lt w.high seq) [
      | yes lt ↦
          ap (λ (v : ReceiptWindow). v.high) (if_true (ltb w.high seq) _ w (lt→ltb w.high seq lt))
          ∙ omega arith
      | no ge ↦
          ap (λ (v : ReceiptWindow). v.high)
            (if_false (ltb w.high seq) _ w (le→ltb_false w.high seq (omega arith)))
          ∙ omega arith
    ]

pub forget_through-high : (w : ReceiptWindow) (high : ℕ) → (forget_through w high).high ≡ w.high
unfolding forget_through
forget_through-high w high =
    if_both (λ (v : ReceiptWindow). v.high ≡ w.high) (leb w.high high) refl
      (if_both (λ (v : ReceiptWindow). v.high ≡ w.high) (ltb (w.high - high) max_packets) refl refl)

oldest_below-high : (n : ℕ) (w : ReceiptWindow) → oldest_below n w ≤ w.high
unfolding oldest_below
oldest_below-high zero w = omega arith
oldest_below-high (suc n) w = by_bit (top_bit 64 (w.mask n)) (oldest_below-high n w)
  where
    by_bit :
        (o : Option ℕ)
        → oldest_below n w ≤ w.high
        → (elim o as (λ _. ℕ) [ none ↦ oldest_below n w | some b ↦ w.high - (n * 64 + b) ]) ≤ w.high
    by_bit none le = le
    by_bit (some b) le = omega arith

pub oldest-high : (w : ReceiptWindow) → oldest w ≤ w.high
unfolding oldest
oldest-high = oldest_below-high mask_words
