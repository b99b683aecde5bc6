-- ===== src/Reseq/Buffer/Window.antt =====
-- The window invariant of the ring: every buffered frame lies in [next, next + window), in the cell
-- of its sequence.
use fecalia.Base.{
  ℕ, zero, suc, ◌+◌, ◌%◌, ◌≤◌, ◌<◌, ◌≡◌, ◌≢◌, inl, inr, refl, ap, Bool, true, false, ◌&&◌, List, [],
  ◌∷◌, arith, ==_iff, Bool-cases, get_or, set, length, u64_mod, mod_window_inj, ℕ_discrete,
}
use native.Mathlib.Nat.{mod-lt}
use fecalia.Reseq.Buffer.{Slot, zero_slot, Buffer, cell, present}

abbrev pub occupied_at : List Slot → ℕ → Bool
occupied_at ring i = (get_or ring i zero_slot).occupied

abbrev pub bit : Bool → ℕ
bit true = 1
bit false = 0

-- What `buf` counts.
abbrev pub occupied_count : List Slot → ℕ
occupied_count [] = 0
occupied_count (c ∷ cs) = bit c.occupied + occupied_count cs

-- A live cell holds a frame of the window that belongs there, far from the end of `uint64`.
pub record Fits (window next i : ℕ) (c : Slot) : Type 0 where
  pub low : next ≤ c.seq
  pub high : c.seq < next + window
  pub home : c.seq % window ≡ i
  pub room : c.seq + window < u64_mod

pub record IsValid (b : Buffer) : Type 0 where
  pub pos : 0 < b.window
  pub sized : length b.ring ≡ b.window
  pub counted : b.buf ≡ occupied_count b.ring
  pub headroom : b.next + b.window ≤ u64_mod
  pub fifo : b.ready_pos ≤ length b.ready
  pub fits :
      (i : ℕ) → occupied_at b.ring i ≡ true → Fits b.window b.next i (get_or b.ring i zero_slot)

-- Each buffered frame carries a payload that `sent` allows under its sequence: what the peer sent
-- under it, or anything where `sent` is trivial.
abbrev pub Carries : (ℕ → List ℕ → Type 0) → List Slot → Type 0
Carries sent ring =
    (i : ℕ)
    → occupied_at ring i ≡ true
    → sent (get_or ring i zero_slot).seq (get_or ring i zero_slot).payload

pub occupied_count-le : (ring : List Slot) → occupied_count ring ≤ length ring
occupied_count-le [] = omega arith
occupied_count-le (c ∷ cs) = ground (arith, occupied_count-le cs)

pub occupied_count-set :
    (ring : List Slot) (i : ℕ) (c : Slot)
    → i < length ring
    → occupied_count (set ring i c) + bit (occupied_at ring i)
      ≡ occupied_count ring + bit c.occupied
occupied_count-set [] i c h = elim h [ ]
occupied_count-set (x ∷ ring) zero c h = omega arith
occupied_count-set (x ∷ ring) (suc i) c h = omega (arith, occupied_count-set ring i c (omega arith))

pub occupied_count-pos :
    (ring : List Slot) (i : ℕ) → occupied_at ring i ≡ true → 0 < occupied_count ring
occupied_count-pos [] i h = cc
occupied_count-pos (x ∷ ring) zero h = rw h (omega arith)
occupied_count-pos (x ∷ ring) (suc i) h = omega (arith, occupied_count-pos ring i h)

-- A counted frame stands in some cell.
pub occupied_count-find :
    (ring : List Slot) → 0 < occupied_count ring → (i : ℕ) × (occupied_at ring i ≡ true)
occupied_count-find [] h = elim h [ ]
occupied_count-find (x ∷ ring) h = elim (Bool-cases x.occupied) [
  | inl y ↦ (0, y)
  | inr n ↦ let (i, e) = occupied_count-find ring (ground arith) in (suc i, e)
]

pub get_or-set_self :
    (ring : List Slot) (i : ℕ) (c : Slot) → i < length ring → get_or (set ring i c) i zero_slot ≡ c
get_or-set_self [] i c h = elim h [ ]
get_or-set_self (x ∷ ring) zero c h = refl
get_or-set_self (x ∷ ring) (suc i) c h = get_or-set_self ring i c (omega arith)

pub get_or-set_ne :
    (ring : List Slot) (i j : ℕ) (c : Slot)
    → i ≢ j
    → get_or (set ring i c) j zero_slot ≡ get_or ring j zero_slot
get_or-set_ne [] i j c h = refl
get_or-set_ne (x ∷ ring) zero zero c h = absurd (h refl)
get_or-set_ne (x ∷ ring) zero (suc j) c h = refl
get_or-set_ne (x ∷ ring) (suc i) zero c h = refl
get_or-set_ne (x ∷ ring) (suc i) (suc j) c h = get_or-set_ne ring i j c (λ e. h (ap suc e))

pub &&-true : (a c : Bool) → (a && c) ≡ true → (a ≡ true) × (c ≡ true)
&&-true true true h = (refl, refl)
&&-true true false h = (refl, h)
&&-true false c h = (h, cc)

-- What `present` tells of the cell.
pub present-occupied :
    (b : Buffer) (s : ℕ) → present b s ≡ true → ((cell b s).occupied ≡ true) × ((cell b s).seq ≡ s)
present-occupied b s h =
    let p = &&-true (cell b s).occupied _ h in (p.0, (==_iff (cell b s).seq s).0 p.1)

module _ {b : Buffer} (v : IsValid b) where
  -- A live cell in the place of a sequence of the window holds that sequence.
  pub occupied-present :
      (s : ℕ) → b.next ≤ s → s < b.next + b.window → (cell b s).occupied ≡ true → (cell b s).seq ≡ s
  occupied-present s lo hi o =
      let f = v.fits (s % b.window) o in
      mod_window_inj b.window b.next (cell b s).seq s v.pos f.low f.high lo hi f.home

  -- A live cell that is not the one of `s` holds another sequence.
  pub present_at :
      (i : ℕ) → occupied_at b.ring i ≡ true → present b (get_or b.ring i zero_slot).seq ≡ true
  present_at i o =
      let f = v.fits i o in rw (f.home, o) ((==_iff (get_or b.ring i zero_slot).seq _).1 refl)

  pub index-lt : (s : ℕ) → s % b.window < length b.ring
  index-lt s = omega (arith, v.sized, mod-lt s v.pos)

  pub buf-le-window : b.buf ≤ b.window
  buf-le-window = omega (arith, v.counted, v.sized, occupied_count-le b.ring)

  -- An absent head leaves only later frames.
  pub absent-later :
      present b b.next ≡ false
      → (i : ℕ) → occupied_at b.ring i ≡ true
      → b.next < (get_or b.ring i zero_slot).seq
  absent-later h i o =
      let f = v.fits i o in
      elim (ℕ_discrete (get_or b.ring i zero_slot).seq b.next) [
        | yes e ↦ cc (present_at i o, h, ap (present b) e)
        | no ne ↦ omega (arith, f.low)
      ]
