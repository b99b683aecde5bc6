-- ===== src/Reseq/Buffer/Release.antt =====
-- What the release loops of the ring deliver: `release`, `drain`.
use fecalia.Base.{
  ℕ, zero, suc, ◌+◌, ◌-◌, ◌%◌, ◌≤◌, ◌<◌, ◌≡◌, ◌≢◌, inl, inr, refl, sym, ap, ◌∙◌, true, false, List,
  [], ◌∷◌, map-append, arith, Bool-cases, get_or, length-set, length-append, ℕ_discrete,
}
use mathlib.Core.Path.{subst}
use fecalia.Reseq.Buffer.{
  Slot, zero_slot, Buffer, cell, present, clear, release_head, drain_loop, drain,
}
use fecalia.Reseq.Buffer.Window.{
  occupied_at, occupied_count, Fits, IsValid, Carries, occupied_count-set, occupied_count-pos,
  get_or-set_self, get_or-set_ne, present-occupied, index-lt, buf-le-window,
}
use fecalia.Reseq.Buffer.Step.{Released, Released-refl, Released-trans, Released-Carries}

module _ {b : Buffer} (v : IsValid b) (p : present b b.next ≡ true) where
  -- After the release of the head only the other cells are live, as they were.
  head_gone :
      (i : ℕ)
      → occupied_at (release_head b).ring i ≡ true
      → (get_or (release_head b).ring i zero_slot ≡ get_or b.ring i zero_slot)
        × (occupied_at b.ring i ≡ true)
        × (i ≢ b.next % b.window)
  unfolding release_head
  head_gone i o = elim (ℕ_discrete (b.next % b.window) i) [
    | yes e ↦
        let j = b.next % b.window in
        let gone = get_or-set_self b.ring j (clear (cell b b.next)) (index-lt v b.next) in
        cc (o, e, ap (λ (s : Slot). s.occupied) gone)
    | no ne ↦
        let same = get_or-set_ne b.ring (b.next % b.window) i (clear (cell b b.next)) ne in
        (same, ap (λ (s : Slot). s.occupied) (sym same) ∙ o, λ e. ne (sym e))
  ]

  head_fit : Fits b.window b.next (b.next % b.window) (cell b b.next)
  head_fit = v.fits (b.next % b.window) (present-occupied b b.next p).0

  pub next-release_head : (release_head b).next ≡ b.next + 1
  unfolding release_head
  next-release_head = omega (arith, head_fit.room, (present-occupied b b.next p).1)

  buf-pos : 0 < b.buf
  buf-pos = omega (
    arith,
    v.counted,
    occupied_count-pos b.ring (b.next % b.window) (present-occupied b b.next p).0,
  )

  pub buf-release_head : (release_head b).buf + 1 ≡ b.buf
  unfolding release_head
  buf-release_head = omega (arith, buf-pos)

  counted-release_head : (release_head b).buf ≡ occupied_count (release_head b).ring
  unfolding release_head
  counted-release_head =
      let j = b.next % b.window in
      let n = occupied_count-set b.ring j (clear (cell b b.next)) (index-lt v b.next) in
      omega (arith, v.counted, buf-pos, rw (present-occupied b b.next p).0 at n)

  Fits-release_head :
      (i : ℕ)
      → occupied_at (release_head b).ring i ≡ true
      → Fits b.window (release_head b).next i (get_or b.ring i zero_slot)
  Fits-release_head i o =
      let (same, old, ne) = head_gone i o in
      let f = v.fits i old in
      let other : (get_or b.ring i zero_slot).seq ≢ b.next =
        λ e. ne (sym f.home ∙ ap (λ (t : ℕ). t % b.window) e) in
      record {
        low = omega (arith, next-release_head, f.low);
        high = omega (arith, next-release_head, f.high);
        home = f.home;
        room = f.room;
      }

  -- The release of the head keeps the window invariant.
  pub release_head-IsValid : IsValid (release_head b)
  unfolding release_head
  release_head-IsValid = record {
    pos = v.pos;
    sized = length-set b.ring (b.next % b.window) _ ∙ v.sized;
    counted = counted-release_head;
    headroom = omega (arith, next-release_head, head_fit.room, (present-occupied b b.next p).1);
    fifo = omega (arith, length-append b.ready, v.fifo);
    fits = λ i o. rw ((head_gone i o).0) (Fits-release_head i o);
  }

  payload-head :
      (sent : ℕ → List ℕ → Type 0) → Carries sent b.ring → sent b.next (cell b b.next).payload
  payload-head sent h =
      let q = present-occupied b b.next p in
      subst (λ (s : ℕ). sent s (cell b b.next).payload) q.1 (h (b.next % b.window) q.0)

  -- The release of the head delivers the payload that the peer sent under the release point.
  pub release_head_lem :
      (sent : ℕ → List ℕ → Type 0) → Carries sent b.ring → Released sent b (release_head b)
  unfolding release_head
  release_head_lem sent h = record {
    seqs = b.next ∷ [];
    ascending = omega (arith, next-release_head);
    items = (cell b b.next).payload ∷ [];
    delivered = (payload-head sent h, tt);
    appended = map-append _ _ _;
    kept = λ i o. (head_gone i o).0;
    conserved = omega (arith, buf-pos);
    counted = omega arith;
    accounted = omega (arith, next-release_head);
    same_window = refl;
    same_pos = refl;
  }

-- An empty buffer holds no frame.
pub empty-absent : {b : Buffer} → IsValid b → b.buf ≡ 0 → (s : ℕ) → present b s ≡ false
empty-absent {b} v z s = elim (Bool-cases (present b s)) [
  | inl y ↦ absurd (
      omega (arith, v.counted, occupied_count-pos b.ring (s % b.window) (present-occupied b s y).0))
  | inr n ↦ n
]

-- With enough turns `drain` releases the run at the release point: the window invariant holds, and
-- the release point is a gap.
drain_loop_lem :
    (sent : ℕ → List ℕ → Type 0) (fuel : ℕ) {b : Buffer}
    → b.buf ≤ fuel
    → IsValid b
    → Carries sent b.ring
    → Released sent b (drain_loop fuel b)
      × IsValid (drain_loop fuel b)
      × (present (drain_loop fuel b) (drain_loop fuel b).next ≡ false)
unfolding drain_loop
drain_loop_lem sent zero {b} le v h = (Released-refl sent b, v, empty-absent v (omega arith) b.next)
drain_loop_lem sent (suc fuel) {b} le v h = elim (Bool-cases (present b b.next)) [
  | inl y ↦
      let s = release_head_lem v y sent h in
      let (r, v', gap) =
        drain_loop_lem sent fuel (omega (arith, buf-release_head v y)) (release_head-IsValid v y)
          (Released-Carries sent s h) in
      rw (y, drain_loop) (Released-trans sent s r, v', gap)
  | inr n ↦ rw (n, drain_loop) (Released-refl sent b, v, n)
]

pub drain_lem :
    (sent : ℕ → List ℕ → Type 0) {b : Buffer}
    → IsValid b
    → Carries sent b.ring
    → Released sent b (drain b) × IsValid (drain b) × (present (drain b) (drain b).next ≡ false)
unfolding drain
drain_lem sent {b} v h = drain_loop_lem sent b.window (buf-le-window v) v h

-- A frame at the release point makes `drain` release at least that one.
pub drain_progress :
    (sent : ℕ → List ℕ → Type 0) {b : Buffer}
    → IsValid b
    → Carries sent b.ring
    → present b b.next ≡ true
    → (drain b).buf < b.buf
unfolding drain drain_loop
drain_progress sent {b} v h y =
    let k = b.window - 1 in
    let turns : b.window ≡ suc k = omega (arith, v.pos) in
    let left : (release_head b).buf ≤ k = omega (arith, buf-release_head v y, buf-le-window v) in
    let s = release_head_lem v y sent h in
    let (r, _, _) =
      drain_loop_lem sent k left (release_head-IsValid v y) (Released-Carries sent s h) in
    subst (λ (n : ℕ). (drain_loop n b).buf < b.buf) (sym turns)
      (rw (y, drain_loop) (omega (arith, r.conserved, buf-release_head v y)))
