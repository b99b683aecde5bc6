-- ===== src/Reseq/Buffer/Place.antt =====
-- A frame that is written into its cell, and the buffer that is discarded for a new release point.
use fecalia.Base.{
  ℕ, zero, suc, ◌+◌, ◌%◌, ◌≤◌, ◌<◌, ◌≡◌, ◌⊎◌, inl, inr, refl, sym, ap, ◌∙◌, true, false, List,
  arith, ==_iff, Bool-cases, get_or, length, length-set, replicate, length-replicate, u64_mod,
  ℕ_discrete,
}
use fecalia.Reseq.Buffer.{Slot, zero_slot, Buffer, cell, present, place, discard}
use fecalia.Reseq.Buffer.Window.{
  occupied_at, bit, occupied_count, Fits, IsValid, Carries, occupied_count-set, get_or-set_self,
  get_or-set_ne, occupied-present, index-lt,
}

module _ {b : Buffer} (v : IsValid b) (c : Slot) (live : c.occupied ≡ true) (low : b.next ≤ c.seq)
    (high : c.seq < b.next + b.window) (room : c.seq + b.window < u64_mod)
    (fresh : present b c.seq ≡ false) where
  vacant : (cell b c.seq).occupied ≡ false
  vacant = elim (Bool-cases (cell b c.seq).occupied) [
    | inl y ↦
        let e = occupied-present v c.seq low high y in
        let here : present b c.seq ≡ true = rw (y, e) ((==_iff c.seq c.seq).1 refl) in
        cc (fresh, here)
    | inr n ↦ n
  ]

  -- Each live cell after the write is the written one, or an old one.
  pub place-cases :
      (i : ℕ)
      → occupied_at (place b c).ring i ≡ true
      → ((i ≡ c.seq % b.window) × (get_or (place b c).ring i zero_slot ≡ c))
        ⊎ ((occupied_at b.ring i ≡ true)
            × (get_or (place b c).ring i zero_slot ≡ get_or b.ring i zero_slot))
  unfolding place
  place-cases i o = elim (ℕ_discrete (c.seq % b.window) i) [
    | yes e ↦
        inl (sym e, rw (sym e) (get_or-set_self b.ring (c.seq % b.window) c (index-lt v c.seq)))
    | no ne ↦
        let same = get_or-set_ne b.ring (c.seq % b.window) i c ne in
        inr (ap (λ (s : Slot). s.occupied) (sym same) ∙ o, same)
  ]

  place-count : (place b c).buf ≡ occupied_count (place b c).ring
  unfolding place
  place-count =
      let n = occupied_count-set b.ring (c.seq % b.window) c (index-lt v c.seq) in
      omega (arith, v.counted, n, ap bit vacant, ap bit live)

  -- The window invariant survives the write of a new frame of the window.
  pub place-IsValid : IsValid (place b c)
  unfolding place
  place-IsValid = record {
    pos = v.pos;
    sized = length-set b.ring (c.seq % b.window) c ∙ v.sized;
    counted = place-count;
    headroom = v.headroom;
    fifo = v.fifo;
    fits = λ i o. elim (place-cases i o) [
      | inl (e, same) ↦ rw same (record { low = low; high = high; home = sym e; room = room })
      | inr (old, same) ↦ rw same (v.fits i old)
    ];
  }

  pub place-Carries :
      (sent : ℕ → List ℕ → Type 0)
      → Carries sent b.ring
      → sent c.seq c.payload
      → Carries sent (place b c).ring
  place-Carries sent h e i o = elim (place-cases i o) [
    | inl (_, same) ↦ rw same e
    | inr (old, same) ↦ rw same (h i old)
  ]

  pub buf-place : (place b c).buf ≡ b.buf + 1
  unfolding place
  buf-place = refl

get_or-replicate : (n i : ℕ) → get_or (replicate n zero_slot) i zero_slot ≡ zero_slot
get_or-replicate zero i = refl
get_or-replicate (suc n) zero = refl
get_or-replicate (suc n) (suc i) = get_or-replicate n i

occupied_count-replicate : (n : ℕ) → occupied_count (replicate n zero_slot) ≡ 0
occupied_count-replicate zero = refl
occupied_count-replicate (suc n) = omega (arith, occupied_count-replicate n)

pub none_occupied : (n i : ℕ) → ¬ (occupied_at (replicate n zero_slot) i ≡ true)
none_occupied n i o = cc (o, ap (λ (s : Slot). s.occupied) (get_or-replicate n i))

-- A discarded buffer is valid at each release point below the last window of `uint64`.
pub discard-IsValid :
    {b : Buffer} (base : ℕ) → IsValid b → base + b.window ≤ u64_mod → IsValid (discard b base)
unfolding discard
discard-IsValid {b} base v room = record {
  pos = v.pos;
  sized = length-replicate (length b.ring) zero_slot ∙ v.sized;
  counted = sym (occupied_count-replicate (length b.ring));
  headroom = room;
  fifo = v.fifo;
  fits = λ i o. absurd (none_occupied (length b.ring) i o);
}

pub discard-Carries :
    (sent : ℕ → List ℕ → Type 0) (b : Buffer) (base : ℕ) → Carries sent (discard b base).ring
unfolding discard
discard-Carries sent b base i o = absurd (none_occupied (length b.ring) i o)

pub discard_empty : (b : Buffer) (base i : ℕ) → ¬ (occupied_at (discard b base).ring i ≡ true)
unfolding discard
discard_empty b base i o = none_occupied (length b.ring) i o

module _ (b : Buffer) (base : ℕ) where
  pub next-discard : (discard b base).next ≡ base
  unfolding discard
  next-discard = refl

  pub window-discard : (discard b base).window ≡ b.window
  unfolding discard
  window-discard = refl

  pub buf-discard : (discard b base).buf ≡ 0
  unfolding discard
  buf-discard = refl

-- The ring of `New`.
pub zeroed-Fits :
    (window next : ℕ) (n i : ℕ)
    → occupied_at (replicate n zero_slot) i ≡ true
    → Fits window next i (get_or (replicate n zero_slot) i zero_slot)
zeroed-Fits window next n i o = absurd (none_occupied n i o)

pub zeroed-count : (n : ℕ) → 0 ≡ occupied_count (replicate n zero_slot)
zeroed-count n = sym (occupied_count-replicate n)
