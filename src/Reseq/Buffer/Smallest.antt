-- ===== src/Reseq/Buffer/Smallest.antt =====
-- The scan of `smallestBuffered` finds the least buffered sequence.
use fecalia.Base.{
  ℕ, zero, suc, ◌≤◌, ◌<◌, ◌≡◌, ◌⊎◌, inl, inr, true, Option, none, some, List, [], ◌∷◌, arith,
  get_or, Option-cases,
}
use fecalia.Reseq.Buffer.{Slot, zero_slot, Buffer, present, pick, smallest_from, smallest_buffered}
use fecalia.Reseq.Buffer.Window.{
  occupied_at, IsValid, occupied_count-find, occupied_count-pos, present_at,
}

-- `m` is at most the sequence held in `best`, if there is one.
abbrev AtMost : ℕ → Option ℕ → Type 0
AtMost m none = Unit
AtMost m (some k) = m ≤ k

pick_le :
    (next : ℕ) (best : Option ℕ) (c : Slot) (m : ℕ)
    → AtMost m (pick next best c)
    → AtMost m best × (c.occupied ≡ true → next ≤ c.seq → m ≤ c.seq)
unfolding pick
pick_le next none c m h = ground arith
pick_le next (some k) c m h = ground arith

pick-some :
    (next : ℕ) (best : Option ℕ) (c : Slot) (m : ℕ)
    → pick next best c ≡ some m
    → (best ≡ some m) ⊎ ((c.occupied ≡ true) × (c.seq ≡ m))
unfolding pick
pick-some next none c m h = ground arith
pick-some next (some k) c m h = ground arith

pick-none :
    (next : ℕ) (best : Option ℕ) (c : Slot)
    → pick next best c ≡ none
    → (best ≡ none) × (c.occupied ≡ true → c.seq < next)
unfolding pick
pick-none next none c h = ground arith
pick-none next (some k) c h = ground arith

smallest_from_le :
    (next : ℕ) (best : Option ℕ) (cs : List Slot) (m : ℕ)
    → smallest_from next best cs ≡ some m
    → AtMost m best
      × ((i : ℕ)
          → occupied_at cs i ≡ true
          → next ≤ (get_or cs i zero_slot).seq
          → m ≤ (get_or cs i zero_slot).seq)
unfolding smallest_from
smallest_from_le next best [] m e = (rw e (omega arith), λ i o. cc o)
smallest_from_le next best (c ∷ cs) m e =
    let (p, q) = smallest_from_le next (pick next best c) cs m e in
    let (p', here) = pick_le next best c m p in (p', elim [ zero ↦ here | suc i ↦ q i ])

smallest_from_mem :
    (next : ℕ) (best : Option ℕ) (cs : List Slot) (m : ℕ)
    → smallest_from next best cs ≡ some m
    → (best ≡ some m) ⊎ ((i : ℕ) × (occupied_at cs i ≡ true) × ((get_or cs i zero_slot).seq ≡ m))
unfolding smallest_from
smallest_from_mem next best [] m e = inl e
smallest_from_mem next best (c ∷ cs) m e = elim (smallest_from_mem next (pick next best c) cs m e) [
  | inl p ↦ elim (pick-some next best c m p) [ inl old ↦ inl old | inr (o, s) ↦ inr (0, o, s) ]
  | inr (i, o, s) ↦ inr (suc i, o, s)
]

smallest_from-none :
    (next : ℕ) (best : Option ℕ) (cs : List Slot)
    → smallest_from next best cs ≡ none
    → (best ≡ none) × ((i : ℕ) → occupied_at cs i ≡ true → (get_or cs i zero_slot).seq < next)
unfolding smallest_from
smallest_from-none next best [] e = (e, λ i o. cc o)
smallest_from-none next best (c ∷ cs) e =
    let (p, q) = smallest_from-none next (pick next best c) cs e in
    let (p', here) = pick-none next best c p in (p', elim [ zero ↦ here | suc i ↦ q i ])

-- While a frame is buffered, and the buffer is valid, the scan returns one of the buffered sequences, and the least of them.
pub smallest_buffered_lem :
    {b : Buffer}
    → IsValid b
    → 0 < b.buf
    → (m : ℕ) × (smallest_buffered b ≡ some m)
      × (present b m ≡ true)
      × ((i : ℕ) → occupied_at b.ring i ≡ true → m ≤ (get_or b.ring i zero_slot).seq)
unfolding smallest_buffered
smallest_buffered_lem {b} v h = elim (Option-cases (smallest_from b.next none b.ring)) [
  | inl e ↦
      let (i, o) = occupied_count-find b.ring (omega (arith, v.counted)) in
      absurd (omega (arith, (smallest_from-none b.next none b.ring e).1 i o, (v.fits i o).low))
  | inr (m, e) ↦
      let low = (smallest_from_le b.next none b.ring m e).1 in
      elim (smallest_from_mem b.next none b.ring m e) [
        | inl p ↦ cc p
        | inr (i, o, s) ↦ (m, e, rw s at (present_at v i o), λ j q. low j q (v.fits j q).low)
      ]
]

-- The scan finds nothing exactly where nothing is buffered.
pub smallest_buffered-none : {b : Buffer} → b.buf ≡ 0 → IsValid b → smallest_buffered b ≡ none
unfolding smallest_buffered
smallest_buffered-none {b} z v = elim (Option-cases (smallest_from b.next none b.ring)) [
  | inl e ↦ e
  | inr (m, e) ↦ elim (smallest_from_mem b.next none b.ring m e) [
    | inl p ↦ cc p
    | inr (i, o, s) ↦ absurd (omega (arith, v.counted, occupied_count-pos b.ring i o))
  ]
]
