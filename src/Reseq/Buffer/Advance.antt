-- ===== src/Reseq/Buffer/Advance.antt =====
-- What the skipping loops of the ring do: `advanceTo`, and the jump to the smallest buffered
-- sequence of `expire`.
use fecalia.Base.{
  ℕ, zero, suc, ◌+◌, ◌-◌, ◌≤◌, ◌<◌, ◌≡◌, inl, inr, refl, sym, ap, ◌∙◌, true, false, List, [],
  append-nil, arith, lt→ltb, Bool-cases, get_or, add64, u64_mod, dec_le,
}
use fecalia.Reseq.Buffer.{
  Slot, zero_slot, Buffer, present, release_head, advance_step, advance_loop, advance_limit,
  skip_to, advance_to,
}
use fecalia.Reseq.Buffer.Window.{occupied_at, IsValid, Carries, absent-later}
use fecalia.Reseq.Buffer.Step.{Released, Released-refl, Released-trans, Released-Carries}
use fecalia.Reseq.Buffer.Release.{release_head-IsValid, release_head_lem, next-release_head}

-- `r.skipped += target - r.next; r.next = target`.
abbrev pub jump : Buffer → ℕ → Buffer
jump b t = record b { skipped = add64 b.skipped (t - b.next); next = t }

module _ {b : Buffer} (v : IsValid b) (t : ℕ) (le : b.next ≤ t)
    (room : t + b.window ≤ u64_mod) where
  -- The release point may jump to `t` where no buffered frame lies below `t`.
  pub jump-IsValid :
      ((i : ℕ) → occupied_at b.ring i ≡ true → t ≤ (get_or b.ring i zero_slot).seq)
      → IsValid (jump b t)
  jump-IsValid above = record {
    pos = v.pos;
    sized = v.sized;
    counted = v.counted;
    headroom = room;
    fifo = v.fifo;
    fits = λ i o.
        let f = v.fits i o in
        record { low = above i o; high = omega (arith, f.high); home = f.home; room = f.room };
  }

  pub jump_lem : (sent : ℕ → List ℕ → Type 0) → Released sent b (jump b t)
  jump_lem sent = record {
    seqs = [];
    ascending = le;
    items = [];
    delivered = tt;
    appended = sym (append-nil _);
    kept = λ i o. refl;
    conserved = omega arith;
    counted = omega arith;
    accounted = omega arith;
    same_window = refl;
    same_pos = refl;
  }

-- A step of the loop of `advanceTo` passes one sequence.
module _ {b : Buffer} (v : IsValid b) (room : b.next + 1 + b.window ≤ u64_mod) where
  step_present : present b b.next ≡ true → advance_step b ≡ release_head b
  unfolding advance_step release_head
  step_present y = rw y

  pub step_absent : present b b.next ≡ false → advance_step b ≡ jump b (b.next + 1)
  unfolding advance_step
  step_absent n =
      let one : b.next + 1 - b.next ≡ 1 = omega arith in
      let stay : add64 b.next 1 ≡ b.next + 1 = omega (arith, v.pos) in rw (n, one, stay)

  advance_step_lem :
      (sent : ℕ → List ℕ → Type 0)
      → Carries sent b.ring
      → Released sent b (advance_step b)
        × IsValid (advance_step b)
        × ((advance_step b).next ≡ b.next + 1)
  advance_step_lem sent h = elim (Bool-cases (present b b.next)) [
    | inl y ↦
        rw (step_present y)
          (release_head_lem v y sent h, release_head-IsValid v y, next-release_head v y)
    | inr n ↦ rw (step_absent n) (
      jump_lem v (b.next + 1) (omega arith) room sent,
      jump-IsValid v (b.next + 1) (omega arith) room (λ i o. omega (arith, absent-later v n i o)),
      refl,
    )
  ]

pub advance_loop_lem :
    (sent : ℕ → List ℕ → Type 0) (n : ℕ) {b : Buffer}
    → IsValid b
    → Carries sent b.ring
    → b.next + n + b.window ≤ u64_mod
    → Released sent b (advance_loop n b)
      × IsValid (advance_loop n b)
      × ((advance_loop n b).next ≡ b.next + n)
unfolding advance_loop
advance_loop_lem sent zero {b} v h room = (Released-refl sent b, v, omega arith)
advance_loop_lem sent (suc n) {b} v h room =
    let (s, v', e) = advance_step_lem v (omega arith) sent h in
    let (r, w, e') =
      advance_loop_lem sent n v' (Released-Carries sent s h) (omega (arith, s.same_window, e)) in
    (Released-trans sent s r, w, omega (arith, e, e'))

-- A whole window past the old release point nothing is buffered any more.
pub nothing_left :
    {sent : ℕ → List ℕ → Type 0} {b b' : Buffer}
    → IsValid b
    → IsValid b'
    → Released sent b b'
    → b.next + b.window ≤ b'.next
    → (i : ℕ) → occupied_at b'.ring i ≡ true
    → (t : ℕ) → t ≤ (get_or b'.ring i zero_slot).seq
nothing_left {sent} {b} {b'} v v' r far i o t =
    let old = ap (λ (s : Slot). s.occupied) (sym (r.kept i o)) ∙ o in
    let same = ap (λ (s : Slot). s.seq) (r.kept i o) in
    absurd (omega (arith, (v.fits i old).high, (v'.fits i o).low, same))

skip_to_done : (b : Buffer) (target : ℕ) → b.next ≡ target → skip_to b target ≡ b
unfolding skip_to
skip_to_done b target e = ground arith

skip_to_far : (b : Buffer) (target : ℕ) → b.next < target → skip_to b target ≡ jump b target
unfolding skip_to
skip_to_far b target h = rw (lt→ltb _ _ h)

module _ {b : Buffer} (v : IsValid b) (target : ℕ) (ahead : b.next < target)
    (room : target + b.window ≤ u64_mod) where
  limit_near : target ≤ b.next + b.window → advance_limit b target ≡ target
  unfolding advance_limit
  limit_near h = ground arith

  limit_far : b.next + b.window < target → advance_limit b target ≡ b.next + b.window
  unfolding advance_limit
  limit_far h =
      let stay : add64 b.next b.window ≡ b.next + b.window = omega (arith, v.pos) in
      rw stay (ground arith)

  module _ (sent : ℕ → List ℕ → Type 0) (h : Carries sent b.ring) where
    pub advance_near :
        target ≤ b.next + b.window → advance_to b target ≡ advance_loop (target - b.next) b
    unfolding advance_to
    advance_near near =
        let (r, w, e) = advance_loop_lem sent (target - b.next) v h (omega arith) in
        rw (limit_near near)
          (skip_to_done (advance_loop (target - b.next) b) target (omega (arith, e)))

    pub advance_far :
        b.next + b.window < target → advance_to b target ≡ jump (advance_loop b.window b) target
    unfolding advance_to
    advance_far far =
        let (r, w, e) = advance_loop_lem sent b.window v h (omega arith) in
        let turns : b.next + b.window - b.next ≡ b.window = omega arith in
        rw (limit_far far, turns) (skip_to_far (advance_loop b.window b) target (omega (arith, e)))

    -- `advanceTo` releases what it passes, skips the rest, and stops at its target.
    pub advance_to_lem :
        Released sent b (advance_to b target)
        × IsValid (advance_to b target)
        × ((advance_to b target).next ≡ target)
    advance_to_lem = elim (dec_le target (b.next + b.window)) [
      | yes near ↦
          let (r, w, e) = advance_loop_lem sent (target - b.next) v h (omega arith) in
          rw (advance_near near) (r, w, omega (arith, e))
      | no far ↦
          let (r, w, e) = advance_loop_lem sent b.window v h (omega arith) in
          let le : (advance_loop b.window b).next ≤ target = omega (arith, e) in
          let fits : target + (advance_loop b.window b).window ≤ u64_mod =
            omega (arith, r.same_window) in
          let past : b.next + b.window ≤ (advance_loop b.window b).next = omega (arith, e) in
          rw (advance_far (omega arith)) (
            Released-trans sent r (jump_lem w target le fits sent),
            jump-IsValid w target le fits (λ i o. nothing_left v w r past i o target),
            refl,
          )
    ]
