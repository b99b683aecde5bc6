-- ===== src/Bond/Transport/Kept.antt =====
-- What the loops over the attempts of a lane keep: every attempt keeps its sequence and its datagram,
-- and the receipts stay sound.
use fecalia.Base.{
  ℕ, ◌-◌, ◌≡◌, ◌≢◌, ◌⊎◌, inl, inr, refl, sym, ap, ◌∙◌, Bool, true, false, not, ◌&&◌, ◌||◌, Option,
  List, [], ◌∷◌, ltb, leb, ◌==◌, ℕ_discrete, if_true, if_both, if_false, arith,
}
use mathlib.Core.Path.{subst}
use fecalia.Bond.Ack.{Acknowledgement}
use fecalia.Bond.Transport.{feedback_horizon, Carried, Attempt, Lane, Ledger}
use fecalia.Bond.Transport.Flight.{
  Entry, member, delete, reported, arrived, outlived, Sweep, confirm_loop, arrived_loop,
  global_loop, timeout_loop,
}

-- A number is one of a list.
pub member_cons : (k x : ℕ) (l : List ℕ) → member k (x ∷ l) ≡ true → (x ≡ k) ⊎ (member k l ≡ true)
member_cons k x l e = elim (ℕ_discrete x k) [
  | yes p ↦ inl p
  | no n ↦ inr (other x k (member k l) n e)
]
  where
    other : (a b : ℕ) (c : Bool) → a ≢ b → (a == b || c) ≡ true → c ≡ true
    other a b c n e = ground arith

pub member_tail : (k x : ℕ) (l : List ℕ) → member k l ≡ true → member k (x ∷ l) ≡ true
member_tail k x l e = or_right (x == k) (member k l) e
  where
    or_right : (b c : Bool) → c ≡ true → (b || c) ≡ true
    or_right true c e = refl
    or_right false c e = e

pub member_head : (k : ℕ) (l : List ℕ) → member k (k ∷ l) ≡ true
member_head k l = same k k (member k l) refl
  where
    same : (a b : ℕ) (c : Bool) → a ≡ b → (a == b || c) ≡ true
    same a b c e = ground arith

pub member-delete :
    (k x : ℕ) (l : List ℕ) → member k (delete x l) ≡ true → (member k l ≡ true) × (x ≢ k)
member-delete k x [] e = cc e
member-delete k x (y ∷ l) e = elim (ℕ_discrete y x) [
  | yes p ↦
      let (inside, ne) =
        member-delete k x l
          (sym (ap (member k) (if_true (y == x) (delete x l) (y ∷ delete x l) (same y x p))) ∙ e) in
      (member_tail k y l inside, ne)
  | no n ↦
      elim (member_cons k y (delete x l)
        (sym (ap (member k) (if_false (y == x) (delete x l) (y ∷ delete x l) (other y x n))) ∙ e)) [
          | inl p ↦
              (subst (λ z. member k (z ∷ l) ≡ true) (sym p) (member_head k l), λ q. n (p ∙ sym q))
          | inr r ↦ let (inside, ne) = member-delete k x l r in (member_tail k y l inside, ne)
        ]
]
  where
    same : (a b : ℕ) → a ≡ b → (a == b) ≡ true
    same a b e = ground arith

    other : (a b : ℕ) → a ≢ b → (a == b) ≡ false
    other a b n = ground arith

module _ (P : ℕ → Option Carried → Type 0) where
  abbrev pub Each : List Entry → Type 0
  Each [] = Unit
  Each ((seq, s) ∷ l) = P seq s.packet × Each l

  abbrev Keeps : List Entry × Sweep → Type 0
  Keeps r = Each r.0

  pub confirm_loop-Each :
      (a : Acknowledgement) (fresh : Bool) (l : List Entry) (w : Sweep)
      → Each l
      → Each (confirm_loop a fresh l w).0
  unfolding confirm_loop
  confirm_loop-Each a fresh [] w h = h
  confirm_loop-Each a fresh ((seq, s) ∷ l) w (h, hs) =
      if_both Keeps (reported a seq) (confirm_loop-Each a fresh l _ hs) (
        if_both Keeps (outlived a w.ledger seq s) (confirm_loop-Each a fresh l _ hs)
          (h, confirm_loop-Each a fresh l w hs))

  pub arrived_loop-Each :
      (high : ℕ) (l : List Entry) (w : Sweep) → Each l → Each (arrived_loop high l w).0
  unfolding arrived_loop
  arrived_loop-Each high [] w h = h
  arrived_loop-Each high ((seq, s) ∷ l) w (h, hs) =
      if_both Keeps (ltb high seq) (h, arrived_loop-Each high l w hs)
        (arrived_loop-Each high l _ hs)

  pub global_loop-Each :
      (a : Acknowledgement) (l : List Entry) (p : Lane) (g : Ledger)
      → Each l
      → Each (global_loop a l p g).0
  unfolding global_loop
  global_loop-Each a [] p g h = h
  global_loop-Each a ((seq, s) ∷ l) p g (h, hs) =
      if_both (λ (r : List Entry × (Lane × Ledger)). Each r.0)
        (arrived a g s.packet && not s.confirmed) (h, global_loop-Each a l _ _ hs)
        (h, global_loop-Each a l p g hs)

  pub timeout_loop-Each :
      (rto now : ℕ) (l : List Entry) (p : Lane) → Each l → Each (timeout_loop rto now l p).0
  unfolding timeout_loop
  timeout_loop-Each rto now [] p h = h
  timeout_loop-Each rto now ((seq, s) ∷ l) p (h, hs) =
      if_both (λ (r : List Entry × Lane). Each r.0) (leb feedback_horizon (now - s.sent))
        (timeout_loop-Each rto now l _ hs)
        (
          if_both (λ (a : Attempt). P seq a.packet) (not s.released && leb rto (now - s.sent))
              {x = record s { released = true }} {y = s} h h,
          timeout_loop-Each rto now l _ hs,
        )
