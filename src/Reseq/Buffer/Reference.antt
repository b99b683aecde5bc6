-- ===== src/Reseq/Buffer/Reference.antt =====
-- `advanceTo` against the loop that passes one sequence at a time.
use fecalia.Base.{
  ℕ, zero, suc, ◌+◌, ◌-◌, ◌≤◌, ◌<◌, ◌≡◌, sym, ap, ◌∙◌, List, arith, u64_mod, dec_le, ℕ_discrete,
}
use fecalia.Reseq.Buffer.{Buffer, advance_step, advance_loop, advance_to}
use fecalia.Reseq.Buffer.Window.{IsValid, Carries, absent-later, occupied_count-find}
use fecalia.Reseq.Buffer.Advance.{
  jump, jump-IsValid, step_absent, advance_loop_lem, nothing_left, advance_near, advance_far,
}
use fecalia.Reseq.Buffer.Step.{Released}
use fecalia.Reseq.Buffer.Release.{empty-absent}

nothing_left-buf :
    {sent : ℕ → List ℕ → Type 0} {b b' : Buffer}
    → IsValid b
    → IsValid b'
    → Released sent b b'
    → b.next + b.window ≤ b'.next
    → b'.buf ≡ 0
nothing_left-buf {b' = b'} v v' r far = elim (ℕ_discrete b'.buf 0) [
  | yes z ↦ z
  | no nz ↦
      let (i, o) = occupied_count-find b'.ring (omega (arith, v'.counted)) in
      absurd (omega (arith, nothing_left v v' r far i o u64_mod, (v'.fits i o).room))
]

jump-jump : (b : Buffer) (t u : ℕ) → b.next ≤ t → t ≤ u → jump (jump b t) u ≡ jump b u
jump-jump b t u p q = ap (λ (k : ℕ). record b { skipped = k; next = u }) (omega arith)

advance_loop-add :
    (m n : ℕ) (b : Buffer) → advance_loop (m + n) b ≡ advance_loop n (advance_loop m b)
unfolding advance_loop
advance_loop-add zero n b = let s : 0 + n ≡ n = omega arith in rw s
advance_loop-add (suc m) n b =
    let s : suc m + n ≡ suc (m + n) = omega arith in rw s (advance_loop-add m n (advance_step b))

-- Over an empty buffer the steps only skip.
advance_loop_empty :
    (n : ℕ) {b : Buffer}
    → IsValid b
    → b.buf ≡ 0
    → b.next + suc n + b.window ≤ u64_mod
    → advance_loop (suc n) b ≡ jump b (b.next + suc n)
unfolding advance_loop
advance_loop_empty zero {b} v z room = step_absent v (omega arith) (empty-absent v z b.next)
advance_loop_empty (suc n) {b} v z room =
    let gap = empty-absent v z b.next in
    let v' =
      jump-IsValid v (b.next + 1) (omega arith) (omega arith)
        (λ i o. omega (arith, absent-later v gap i o)) in
    let sum : b.next + 1 + suc n ≡ b.next + suc (suc n) = omega arith in
    rw (step_absent v (omega arith) gap) (
      advance_loop_empty n {b = jump b (b.next + 1)} v' z (omega arith)
      ∙ rw sum (jump-jump b (b.next + 1) (b.next + suc (suc n)) (omega arith) (omega arith)))

-- In a valid buffer, for a target beyond the release point and a window from the end of `uint64`,
-- `advanceTo` is the loop that passes one sequence at a time, without its cost.
pub advance_to-eq-loop :
    (sent : ℕ → List ℕ → Type 0) {b : Buffer} (target : ℕ)
    → IsValid b
    → Carries sent b.ring
    → b.next < target
    → target + b.window ≤ u64_mod
    → advance_to b target ≡ advance_loop (target - b.next) b
advance_to-eq-loop sent {b} target v h ahead room = elim (dec_le target (b.next + b.window)) [
  | yes near ↦ advance_near v target ahead room sent h near
  | no far ↦
      let (r, w, e) = advance_loop_lem sent b.window v h (omega arith) in
      let c = advance_loop b.window b in
      let n = target - (b.next + b.window) - 1 in
      let turns : target - b.next ≡ b.window + suc n = omega arith in
      let ends : c.next + suc n ≡ target = omega (arith, e) in
      let empty = nothing_left-buf v w r (omega (arith, e)) in
      advance_far v target ahead room sent h (omega arith)
      ∙ rw (turns, advance_loop-add b.window (suc n) b)
          (sym (advance_loop_empty n w empty (omega (arith, r.same_window, e)) ∙ ap (jump c) ends))
]
