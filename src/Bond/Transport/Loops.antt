-- ===== src/Bond/Transport/Loops.antt =====
-- What the loops over the attempts of a lane take from its counters.
use fecalia.Base.{
  ℕ, ◌+◌, ◌-◌, ◌≡◌, inl, inr, refl, sym, ap, ◌∙◌, Bool, true, false, not, ◌&&◌, none, some, List,
  [], ◌∷◌, ltb, leb, ◌==◌, if◌then◌else◌, if_true, if_both, if_false, Bool-cases, arith,
}
use fecalia.Bond.Ack.{Acknowledgement}
use fecalia.Bond.Transport.{feedback_horizon, Attempt, Lane, Ledger}
use fecalia.Bond.Transport.Flight.{
  Entry, release, release_once, reported, arrived, outlived, Sweep, confirm, confirm_loop,
  arrived_loop, global_loop, timeout_loop,
}
use fecalia.Bond.Transport.Balance.{
  Counter, counter, weight, load, held, Holds, release_lem, release_once-Holds, keep_front,
  keep_back, confirm-Holds,
}

abbrev pub Swept : (Counter → ℕ) → List Entry × Sweep → Type 0
Swept x r = Holds r.1.lane x r.0

pub confirm_loop-Holds :
    (a : Acknowledgement) (fresh : Bool) (l : List Entry) (w : Sweep) (x : Counter → ℕ)
    → Holds w.lane x l
    → Swept x (confirm_loop a fresh l w)
unfolding confirm_loop
confirm_loop-Holds a fresh [] w x h = h
confirm_loop-Holds a fresh ((seq, s) ∷ l) w x h =
    let confirmed : Holds (confirm w s).lane x l = confirm-Holds w x seq s l h in
    if_both (Swept x) (reported a seq)
      (if_both (λ (v : Sweep). Swept x (confirm_loop a fresh l v)) (fresh && seq == a.high)
        (confirm_loop-Holds a fresh l (record (confirm w s) { counted = some s.through }) x
          confirmed)
        (confirm_loop-Holds a fresh l (confirm w s) x confirmed))
      (if_both (Swept x) (outlived a w.ledger seq s)
        (confirm_loop-Holds a fresh l (record w { lane = release_once w.lane s }) x
          (release_once-Holds w.lane x seq s l h))
        (keep_back (confirm_loop a fresh l w).1.lane x seq s (confirm_loop a fresh l w).0
          (confirm_loop-Holds a fresh l w (λ k. x k + load k s) (keep_front w.lane x seq s l h))))

pub arrived_loop-Holds :
    (high : ℕ) (l : List Entry) (w : Sweep) (x : Counter → ℕ)
    → Holds w.lane x l
    → Swept x (arrived_loop high l w)
unfolding arrived_loop
arrived_loop-Holds high [] w x h = h
arrived_loop-Holds high ((seq, s) ∷ l) w x h =
    if_both (Swept x) (ltb high seq)
      (keep_back (arrived_loop high l w).1.lane x seq s (arrived_loop high l w).0
        (arrived_loop-Holds high l w (λ k. x k + load k s) (keep_front w.lane x seq s l h)))
      (arrived_loop-Holds high l (confirm w s) x (confirm-Holds w x seq s l h))

abbrev pub Looped : (Counter → ℕ) → List Entry × (Lane × Ledger) → Type 0
Looped x r = Holds r.1.0 x r.0

pub global_loop-Holds :
    (a : Acknowledgement) (l : List Entry) (p : Lane) (g : Ledger) (x : Counter → ℕ)
    → Holds p x l
    → Looped x (global_loop a l p g)
unfolding global_loop
global_loop-Holds a [] p g x h = h
global_loop-Holds a ((seq, s) ∷ l) p g x h =
    if_both (Looped x) (arrived a g s.packet && not s.confirmed)
      (λ k.
        let rest =
          global_loop-Holds a l (release_once p s)
            (elim s.packet as (λ _. Ledger) [
              | none ↦ g
              | some c ↦ record g { acked = c.seq ∷ g.acked }
            ])
            x (release_once-Holds p x seq s l h) k in
        omega (arith, rest))
      (keep_back (global_loop a l p g).1.0 x seq s (global_loop a l p g).0
        (global_loop-Holds a l p g (λ k. x k + load k s) (keep_front p x seq s l h)))

abbrev is_late : ℕ → ℕ → Attempt → Bool
is_late rto now s = not s.released && leb rto (now - s.sent)

abbrev after_late : ℕ → ℕ → Attempt → Attempt
after_late rto now s = if is_late rto now s then record s { released = true } else s

-- An attempt that is late gives its bytes back, and holds none.
late-Holds :
    (rto now : ℕ) (p : Lane) (x : Counter → ℕ) (seq : ℕ) (s : Attempt) (l : List Entry)
    → Holds p x ((seq, s) ∷ l)
    → Holds (if is_late rto now s then release p s else p) x ((seq, after_late rto now s) ∷ l)
late-Holds rto now p x seq s l h k = elim (Bool-cases (is_late rto now s)) [
  | inl y ↦
      let live : s.released ≡ false = held_back s.released (leb rto (now - s.sent)) y in
      ap (λ (q : Lane). counter q k) (if_true (is_late rto now s) _ _ y)
      ∙ release_lem p s k
      ∙ omega (arith, h k, if_false s.released 0 (weight k s) live)
      ∙ ap (λ (b : Attempt). x k + (load k b + held k l))
          (sym (if_true (is_late rto now s) (record s { released = true }) s y))
  | inr n ↦
      ap (λ (q : Lane). counter q k) (if_false (is_late rto now s) _ _ n)
      ∙ h k
      ∙ ap (λ (b : Attempt). x k + (load k b + held k l))
          (sym (if_false (is_late rto now s) (record s { released = true }) s n))
]
  where
    held_back : (b c : Bool) → (not b && c) ≡ true → b ≡ false
    held_back false c e = refl
    held_back true c e = cc e

abbrev pub Timed : (Counter → ℕ) → List Entry × Lane → Type 0
Timed x r = Holds r.1 x r.0

pub timeout_loop-Holds :
    (rto now : ℕ) (l : List Entry) (p : Lane) (x : Counter → ℕ)
    → Holds p x l
    → Timed x (timeout_loop rto now l p)
unfolding timeout_loop
timeout_loop-Holds rto now [] p x h = h
timeout_loop-Holds rto now ((seq, s) ∷ l) p x h =
    let q : Lane = if is_late rto now s then release p s else p in
    let a : Attempt = after_late rto now s in
    let back : Holds q x ((seq, a) ∷ l) = late-Holds rto now p x seq s l h in
    if_both (Timed x) (leb feedback_horizon (now - s.sent))
      (timeout_loop-Holds rto now l (release_once q a) x (release_once-Holds q x seq a l back))
      (keep_back (timeout_loop rto now l q).1 x seq a (timeout_loop rto now l q).0
        (timeout_loop-Holds rto now l q (λ k. x k + load k a) (keep_front q x seq a l back)))
