-- ===== src/Bond/Receipts/Shift.antt =====
-- The words of the mask move up by a distance as one row of bits.
use fecalia.Base.{
  ℕ, zero, suc, ◌+◌, ◌-◌, ◌*◌, ◌/◌, ◌%◌, ◌≤◌, ◌<◌, ◌≡◌, ◌≢◌, refl, ap, ◌∙◌, Bool, true, false, ◌&&◌,
  ◌||◌, ltb, leb, ◌==◌, dec_lt, ℕ_discrete, if◌then◌else◌, if_true, if_false, arith, lt→ltb,
  le→ltb_false, le→leb, lt→leb_false,
}
use mathlib.Core.Path.{subst}
use fecalia.Bond.Receipts.{shift_left, shift_right, join, set_word, shift_word, shift_loop}

set_word_same : (mask : ℕ → ℕ → Bool) (i : ℕ) (word : ℕ → Bool) → set_word mask i word i ≡ word
set_word_same mask i word = if_true (i == i) _ _ (ground arith)

set_word_other :
    (mask : ℕ → ℕ → Bool) (i j : ℕ) (word : ℕ → Bool) → i ≢ j → set_word mask i word j ≡ mask j
set_word_other mask i j word n = if_false (i == j) _ _ (ground arith)

module _ (words shift : ℕ) where
  -- A word is computed from the words at its index and below.
  shift_word_local :
      (f g : ℕ → ℕ → Bool) (i : ℕ)
      → ((k : ℕ) → k ≤ i → f k ≡ g k)
      → shift_word words shift f i ≡ shift_word words shift g i
  unfolding shift_word
  shift_word_local f g i h = rw (h (i - words) (omega arith), h (i - words - 1) (omega arith)) refl

  -- The loop leaves the words that it has not reached.
  shift_loop_above :
      (n : ℕ) (mask : ℕ → ℕ → Bool) (j : ℕ) → n ≤ j → shift_loop words shift n mask j ≡ mask j
  unfolding shift_loop
  shift_loop_above zero mask j le = refl
  shift_loop_above (suc n) mask j le =
      shift_loop_above n (set_word mask n (shift_word words shift mask n)) j (omega arith)
      ∙ set_word_other mask n j _ (λ e. omega arith)

  shift_loop_below :
      (n : ℕ) (mask : ℕ → ℕ → Bool) (j : ℕ)
      → j < n
      → shift_loop words shift n mask j ≡ shift_word words shift mask j
  unfolding shift_loop
  shift_loop_below zero mask j lt = absurd (omega arith)
  shift_loop_below (suc n) mask j lt =
      let written : ℕ → ℕ → Bool = set_word mask n (shift_word words shift mask n) in
      elim (ℕ_discrete n j) [
        | yes e ↦
            shift_loop_above n written j (omega arith)
            ∙ subst
                (λ k.
                  set_word mask n (shift_word words shift mask n) k ≡ shift_word words shift mask k)
                e (set_word_same mask n (shift_word words shift mask n))
        | no ne ↦
            shift_loop_below n written j (omega arith)
            ∙ shift_word_local written mask j (λ k le. set_word_other mask n k _ (λ e. omega arith))
      ]

-- What the loop computes of a word, bit by bit.
joined :
    (c d : Bool) (v s : ℕ → Bool) (b : ℕ)
    → (if d then join (if c then v else (λ _. false)) s else (if c then v else (λ _. false))) b
      ≡ (c && v b || d && s b)
joined true true v s b = refl
joined true false v s b = or_false (v b)
  where
    or_false : (x : Bool) → x ≡ (x || false)
    or_false true = refl
    or_false false = refl
joined false true v s b = refl
joined false false v s b = refl

-- The two parts of a word of which one is in place.
in_place :
    (i b words shift : ℕ) (x y z : Bool)
    → b < 64
    → shift < 64
    → (words ≤ i → shift ≤ b → x ≡ z)
    → (words < i → b < shift → y ≡ z)
    → (leb words i && (leb shift b && ltb b 64 && x)
        || (ltb 0 shift && ltb words i) && (ltb (b + (64 - shift)) 64 && y))
      ≡ (if ltb (64 * i + b) (64 * words + shift) then false else z)
in_place i b words shift x y z hb hs f g = elim (dec_lt i words) [
  | yes below ↦
      rw
        (
          lt→leb_false words i below,
          le→ltb_false words i (omega arith),
          lt→ltb (64 * i + b) (64 * words + shift) (omega arith),
        )
        (nothing (ltb 0 shift) (ltb (b + (64 - shift)) 64) y)
  | no above ↦ elim (dec_lt b shift) [
    | yes low ↦ elim (dec_lt words i) [
      | yes over ↦
          rw
            (
              lt→leb_false shift b low,
              le→leb words i (omega arith),
              lt→ltb words i over,
              lt→ltb 0 shift (omega arith),
              lt→ltb (b + (64 - shift)) 64 (omega arith),
              le→ltb_false (64 * i + b) (64 * words + shift) (omega arith),
            )
            (g over low)
      | no over ↦
          rw
            (
              lt→leb_false shift b low,
              le→leb words i (omega arith),
              le→ltb_false words i (omega arith),
              lt→ltb (64 * i + b) (64 * words + shift) (omega arith),
            )
            (nothing (ltb 0 shift) (ltb (b + (64 - shift)) 64) y)
    ]
    | no low ↦
        rw
          (
            le→leb shift b (omega arith),
            le→leb words i (omega arith),
            lt→ltb b 64 hb,
            le→ltb_false (b + (64 - shift)) 64 (omega arith),
            le→ltb_false (64 * i + b) (64 * words + shift) (omega arith),
          )
          (only x z (ltb 0 shift && ltb words i) (f (omega arith) (omega arith)))
  ]
]
  where
    nothing : (p q y : Bool) → ((p && false) && (q && y)) ≡ false
    nothing true q y = refl
    nothing false q y = refl

    only : (x z p : Bool) → x ≡ z → (x || p && false) ≡ z
    only true z p e = e
    only false z true e = e
    only false z false e = e

-- The bit of a mask at a distance, by its word and its place.
bit_at :
    (mask : ℕ → ℕ → Bool) (n q r : ℕ) → n ≡ 64 * q + r → r < 64 → mask q r ≡ mask (n / 64) (n % 64)
bit_at mask n q r e lt =
    let word : q ≡ n / 64 = omega arith in
    let place : r ≡ n % 64 = omega arith in ap (λ k. mask k r) word ∙ ap (mask (n / 64)) place

-- The mask after the loop holds at each distance what it held by `delta` less, and nothing below.
pub shift_loop_lem :
    (mask : ℕ → ℕ → Bool) (n delta d : ℕ)
    → d < 64 * n
    → shift_loop (delta / 64) (delta % 64) n mask (d / 64) (d % 64)
      ≡ (if ltb d delta then false else mask ((d - delta) / 64) ((d - delta) % 64))
unfolding shift_word
shift_loop_lem mask n delta d lt =
    let words : ℕ = delta / 64 in
    let shift : ℕ = delta % 64 in
    let i : ℕ = d / 64 in
    let b : ℕ = d % 64 in
    let whole : 64 * i + b ≡ d = omega arith in
    let moved : 64 * words + shift ≡ delta = omega arith in
    let z : Bool = mask ((d - delta) / 64) ((d - delta) % 64) in
    ap (λ (w : ℕ → Bool). w b) (shift_loop_below words shift n mask i (omega arith))
    ∙ joined (leb words i) (ltb 0 shift && ltb words i) (shift_left (mask (i - words)) shift)
        (shift_right (mask (i - words - 1)) (64 - shift)) b
    ∙ in_place i b words shift (mask (i - words) (b - shift))
        (mask (i - words - 1) (b + (64 - shift))) z (omega arith) (omega arith)
        (λ p q. bit_at mask (d - delta) (i - words) (b - shift) (omega arith) (omega arith))
        (λ p q.
          bit_at mask (d - delta) (i - words - 1) (b + (64 - shift)) (omega arith) (omega arith))
    ∙ ap (λ t. if ltb t (64 * words + shift) then false else z) whole
    ∙ ap (λ t. if ltb d t then false else z) moved
