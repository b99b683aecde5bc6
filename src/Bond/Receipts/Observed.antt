-- ===== src/Bond/Receipts/Observed.antt =====
-- The window of receipts against the list of the numbers that were marked.
use fecalia.Base.{
  ℕ, ◌+◌, ◌-◌, ◌/◌, ◌%◌, ◌≤◌, ◌<◌, max, ◌≡◌, ◌≢◌, ◌↔◌, inl, inr, refl, sym, ap, ◌∙◌, Bool, true,
  false, ◌||◌, List, [], ◌∷◌, ltb, leb, ◌==◌, dec_lt, dec_le, ℕ_discrete, if◌then◌else◌, if_true,
  if_false, Bool-cases, arith, lt→ltb, le→ltb_false, le→leb, lt→leb_false,
}
use mathlib.Core.Path.{subst}
use fecalia.Bond.Receipts.{
  max_packets, mask_words, ReceiptWindow, new_receipts, shift_loop, move_up, has, set_at, mark_at,
  mark,
}
use fecalia.Bond.Receipts.Shift.{shift_loop_lem}

abbrev pub marked : ℕ → List ℕ → Bool
marked k [] = false
marked k (x ∷ l) = x == k || marked k l

abbrev pub highest : List ℕ → ℕ
highest [] = 0
highest (x ∷ l) = max x (highest l)

-- The window after a list of calls of `mark`, the latest one first.
unfoldable pub after : List ℕ → ReceiptWindow
unfolding mark
after [] = new_receipts
after (x ∷ l) = (mark (after l) x).0

-- The window ends with `top`, and its bits say which numbers of the window were marked.
pub record Tracks (w : ReceiptWindow) (top : ℕ) (l : List ℕ) : Type 0 where
  pub ends : w.high ≡ top
  pub bits : (d : ℕ) → d < max_packets → d ≤ top → has w d ≡ marked (top - d) l

pub marked_above : (l : List ℕ) (k : ℕ) → highest l < k → marked k l ≡ false
marked_above [] k lt = refl
marked_above (x ∷ l) k lt =
    other x k (marked k l) (λ e. omega arith) ∙ marked_above l k (omega arith)
  where
    other : (a b : ℕ) (c : Bool) → a ≢ b → (a == b || c) ≡ c
    other a b c n = ground arith

-- The bits after the window has moved up from `top`.
moved_bits :
    (w : ReceiptWindow) (top x : ℕ) (l : List ℕ)
    → Tracks w top l
    → top < x
    → ((k : ℕ) → top < k → marked k l ≡ false)
    → (d : ℕ) → d < max_packets
    → d ≤ x
    → (if leb max_packets (x - w.high)
          then (λ _ _. false)
          else shift_loop ((x - w.high) / 64) ((x - w.high) % 64) mask_words w.mask)
        (d / 64)
        (d % 64)
      ≡ marked (x - d) l
moved_bits w top x l t new above d lt le =
    let high : w.high ≡ top = t.ends in
    elim (dec_lt d (x - w.high)) [
      | yes fresh ↦ elim (Bool-cases (leb max_packets (x - w.high))) [
        | inl y ↦
            ap (λ (m : ℕ → ℕ → Bool). m (d / 64) (d % 64))
              (if_true (leb max_packets (x - w.high)) _ _ y)
            ∙ sym (above (x - d) (omega arith))
        | inr n ↦
            ap (λ (m : ℕ → ℕ → Bool). m (d / 64) (d % 64))
              (if_false (leb max_packets (x - w.high)) _ _ n)
            ∙ shift_loop_lem w.mask mask_words (x - w.high) d (omega arith)
            ∙ if_true (ltb d (x - w.high)) _ _ (lt→ltb d (x - w.high) fresh)
            ∙ sym (above (x - d) (omega arith))
      ]
      | no old ↦
          ap (λ (m : ℕ → ℕ → Bool). m (d / 64) (d % 64))
            (if_false (leb max_packets (x - w.high)) _ _
              (lt→leb_false max_packets (x - w.high) (omega arith)))
          ∙ shift_loop_lem w.mask mask_words (x - w.high) d (omega arith)
          ∙ if_false (ltb d (x - w.high)) _ _ (le→ltb_false d (x - w.high) (omega arith))
          ∙ t.bits (d - (x - w.high)) (omega arith) (omega arith)
          ∙ ap (λ k. marked k l) (omega arith)
    ]

pub move_up-Tracks :
    (w : ReceiptWindow) (top x : ℕ) (l : List ℕ)
    → Tracks w top l
    → ((k : ℕ) → top < k → marked k l ≡ false)
    → Tracks (move_up w x) (max x top) l
unfolding move_up
move_up-Tracks w top x l t above = elim (dec_lt w.high x) [
  | yes lt ↦
      let up : x ≡ max x top = omega (arith, t.ends) in
      subst (λ v. Tracks v (max x top) l) (sym (if_true (ltb w.high x) _ _ (lt→ltb w.high x lt)))
        (record {
          ends = up;
          bits = λ d small le.
              moved_bits w top x l t (omega (arith, t.ends)) above d small (omega arith)
              ∙ ap (λ k. marked (k - d) l) up;
        })
  | no ge ↦
      let stays : top ≡ max x top = omega (arith, t.ends) in
      subst (λ v. Tracks v (max x top) l)
        (sym (if_false (ltb w.high x) _ _ (le→ltb_false w.high x (omega arith))))
        (subst (λ n. Tracks w n l) stays t)
]

-- The bit of a distance is set, and the others are kept.
pub set_at_lem :
    (mask : ℕ → ℕ → Bool) (e d : ℕ)
    → set_at mask e (d / 64) (d % 64) ≡ (e == d || mask (d / 64) (d % 64))
set_at_lem mask e d = elim (ℕ_discrete (e / 64) (d / 64)) [
  | yes q ↦
      ap (λ (f : ℕ → Bool). f (d % 64)) (if_true (e / 64 == d / 64) _ _ (same (e / 64) (d / 64) q))
      ∙ ap (λ b. mask (e / 64) (d % 64) || b) (by_place q)
      ∙ swap (mask (e / 64) (d % 64)) (e == d)
      ∙ ap (λ k. e == d || mask k (d % 64)) q
  | no n ↦
      ap (λ (f : ℕ → Bool). f (d % 64))
        (if_false (e / 64 == d / 64) _ _ (other (e / 64) (d / 64) n))
      ∙ sym (ap (λ b. b || mask (d / 64) (d % 64)) (other e d (λ p. n (ap (λ k. k / 64) p))))
]
  where
    same : (a b : ℕ) → a ≡ b → (a == b) ≡ true
    same a b p = ground arith

    other : (a b : ℕ) → a ≢ b → (a == b) ≡ false
    other a b n = ground arith

    swap : (x c : Bool) → (x || c) ≡ (c || x)
    swap true true = refl
    swap true false = refl
    swap false true = refl
    swap false false = refl

    by_place : e / 64 ≡ d / 64 → (e % 64 == d % 64) ≡ (e == d)
    by_place q = elim (ℕ_discrete e d) [
      | yes p ↦ same (e % 64) (d % 64) (ap (λ k. k % 64) p) ∙ sym (same e d p)
      | no n ↦ other (e % 64) (d % 64) (λ p. n (omega arith)) ∙ sym (other e d n)
    ]

-- What `mark` does once the window ends with `top`: it tracks the number too, and the number is new
-- exactly if it was not marked and lies in the window.
abbrev pub Marks : ℕ → ℕ → List ℕ → ReceiptWindow × Bool → Type 0
Marks top x l r =
    Tracks r.0 top (x ∷ l) × (r.1 ≡ true ↔ (marked x l ≡ false) × (top < x + max_packets))

module _ (v : ReceiptWindow) (top x : ℕ) (l : List ℕ) (t : Tracks v top l) (le : x ≤ top) where
  at_number : v.high - x < max_packets → has v (v.high - x) ≡ marked x l
  at_number lt =
      t.bits (v.high - x) lt (omega (arith, t.ends)) ∙ ap (λ k. marked k l) (omega (arith, t.ends))

  kept :
      (known : (d : ℕ)
        → d < max_packets
        → d ≤ top
        → (x == top - d || marked (top - d) l) ≡ marked (top - d) l)
      → Tracks v top (x ∷ l)
  kept known = record { ends = t.ends; bits = λ d lt h. t.bits d lt h ∙ sym (known d lt h) }

  pub mark_at-Marks : Marks top x l (mark_at v (v.high - x))
  unfolding mark_at
  mark_at-Marks = elim (dec_le max_packets (v.high - x)) [
    | yes out ↦
        subst (Marks top x l)
          (sym (if_true (leb max_packets (v.high - x)) _ _ (le→leb max_packets (v.high - x) out)))
          (
            kept (λ d lt h. other x (top - d) (marked (top - d) l) (λ e. omega (arith, t.ends))),
            ((λ bad. cc bad), λ (_, inside). absurd (omega (arith, t.ends))),
          )
    | no near ↦
        subst (Marks top x l)
          (sym (
            if_false (leb max_packets (v.high - x)) _ _
              (lt→leb_false max_packets (v.high - x) (omega arith))))
          (elim (Bool-cases (has v (v.high - x))) [
            | inl seen ↦
                let known : marked x l ≡ true = sym (at_number (omega arith)) ∙ seen in
                subst (Marks top x l) (sym (if_true (has v (v.high - x)) _ _ seen)) (
                  kept (λ d lt h. again x (top - d) known),
                  ((λ bad. cc bad), λ (fresh, _). cc (sym known ∙ fresh)),
                )
            | inr unseen ↦ subst (Marks top x l) (sym (if_false (has v (v.high - x)) _ _ unseen)) (
              record {
                ends = t.ends;
                bits = λ d lt h.
                    set_at_lem v.mask (v.high - x) d
                    ∙ ap (λ b. v.high - x == d || b) (t.bits d lt h)
                    ∙ ap (λ b. b || marked (top - d) l)
                        (places (v.high - x) d x (top - d) (omega (arith, t.ends))
                          (omega (arith, t.ends)));
              },
              ((λ _. (sym (at_number (omega arith)) ∙ unseen, omega (arith, t.ends))), λ _. refl),
            )
          ])
  ]
    where
      other : (a b : ℕ) (c : Bool) → a ≢ b → (a == b || c) ≡ c
      other a b c n = ground arith

      again : (a b : ℕ) → marked a l ≡ true → (a == b || marked b l) ≡ marked b l
      again a b known = elim (ℕ_discrete a b) [
        | yes e ↦
            subst (λ k. (a == k || marked k l) ≡ marked k l) e (true_or (a == a) (marked a l) known)
        | no n ↦ other a b (marked b l) n
      ]
        where
          true_or : (b c : Bool) → c ≡ true → (b || c) ≡ c
          true_or true c e = sym e
          true_or false c e = refl

      places : (a b c d : ℕ) → (a ≡ b → c ≡ d) → (c ≡ d → a ≡ b) → (a == b) ≡ (c == d)
      places a b c d f g = elim (ℕ_discrete a b) [
        | yes e ↦ let q = f e in ground arith
        | no n ↦ ground arith
      ]

pub after-Tracks : (l : List ℕ) → Tracks (after l) (highest l) l
unfolding after mark
after-Tracks [] = record { ends = refl; bits = λ d lt h. refl }
after-Tracks (x ∷ l) =
    let moved = move_up-Tracks (after l) (highest l) x l (after-Tracks l) (marked_above l) in
    (mark_at-Marks (move_up (after l) x) (max x (highest l)) x l moved (omega arith)).0

-- After any calls, a number is reported as new exactly if it was not marked before and is less than
-- a window's size below the highest number, itself included.
pub mark-new :
    (x : ℕ) (l : List ℕ)
    → (mark (after l) x).1 ≡ true ↔ (marked x l ≡ false) × (highest (x ∷ l) < x + max_packets)
unfolding mark
mark-new x l =
    let moved = move_up-Tracks (after l) (highest l) x l (after-Tracks l) (marked_above l) in
    (mark_at-Marks (move_up (after l) x) (max x (highest l)) x l moved (omega arith)).1
