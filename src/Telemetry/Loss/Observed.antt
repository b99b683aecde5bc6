-- ===== src/Telemetry/Loss/Observed.antt =====
-- The loss window holds what was observed, and its fraction counts what was not.
use fecalia.Base.{
  ℕ, ◌+◌, ◌-◌, ◌%◌, ◌≤◌, ◌<◌, ◌≡◌, ◌≢◌, inl, inr, refl, sym, ap, ◌∙◌, Bool, true, false, not, ◌||◌,
  List, [], ◌∷◌, ltb, leb, ◌==◌, dec_le, ℕ_discrete, if◌then◌else◌, if_true, if_false, Bool-cases,
  if_both, if_cases, Option, none, some, u64_mod, arith, lt→leb_false, ltb→lt, ltb_false→le,
}
use mathlib.Core.Path.{subst}
use fecalia.Telemetry.Loss.{LossWindow, put, clear_slots, expose, seed, fill, observe}
use fecalia.Telemetry.Loss.Window.{
  observed, Inside, cleared, add64_one, clear_slots_lem, put-Inside, cleared_below, cleared_above,
}

-- The first number that was observed, the last of the list.
abbrev pub oldest : ℕ → List ℕ → ℕ
oldest x [] = x
oldest x (y ∷ l) = oldest y l

-- The window after the observations `l`, of which `start` was the first.
pub record Tracks (w : LossWindow) (start : ℕ) (l : List ℕ) : Type 0 where
  pub have : w.have ≡ true
  pub size : 0 < w.win
  pub first : w.first ≡ start
  pub order : w.first ≤ w.highest
  pub bound : w.highest + 1 < u64_mod
  pub top : observed w.highest l ≡ true
  pub above : (k : ℕ) → w.highest < k → observed k l ≡ false
  pub slots : (k : ℕ) → Inside w.win w.highest k → w.recv (k % w.win) ≡ observed k l

-- A result that is there, of which `P` holds.
abbrev pub Ends : (LossWindow → Type 0) → Option LossWindow → Type 0
Ends P none = ⊥
Ends P (some w) = P w

or_if : (b c d : Bool) → c ≡ d → (if b then true else c) ≡ (b || d)
or_if true c d e = refl
or_if false c d e = e

or_other : (a b : ℕ) (c : Bool) → a ≢ b → (a == b || c) ≡ c
or_other a b c n = ground arith

or_same : (a : ℕ) (c : Bool) → (a == a || c) ≡ true
or_same a c = ground arith

or_true : (b c : Bool) → c ≡ true → (b || c) ≡ true
or_true true c e = refl
or_true false c e = e

pub seed-Tracks :
    (w : LossWindow) (x : ℕ) → 0 < w.win → x + 1 < u64_mod → Tracks (seed w x) x (x ∷ [])
seed-Tracks w x size bound = record {
  bound = bound;
  have = refl;
  size = size;
  first = refl;
  order = omega arith;
  top = or_same x false;
  above = λ k lt. or_other x k false (below x k lt);
  slots = λ k h.
      put-Inside w.win x (λ _. false) x k true (omega arith, omega arith) h
      ∙ or_if (x == k) false false refl;
}
  where
    below : (a b : ℕ) → a < b → a ≢ b
    below a b lt e = omega arith

module _ (w : LossWindow) (start x : ℕ) (l : List ℕ) (t : Tracks w start l) where
  -- What `expose` makes of the slots.
  abbrev exposed : ℕ → Bool
  exposed =
      if leb w.win (x - w.highest)
      then (λ _. false)
      else cleared w.win w.recv (w.highest + 1) (x - w.highest)

  expose_lem : w.highest < x → x + 1 < u64_mod → expose w x ≡ some exposed
  expose_lem new bound = pick (leb w.win (x - w.highest)) _ _ _ (
      ap (λ k. clear_slots (x - w.highest) w.win w.recv k x) (add64_one w.highest t.bound)
      ∙ clear_slots_lem w.win w.recv (w.highest + 1) (x - w.highest) x (omega arith) bound)
    where
      pick :
          (b : Bool) (f g : ℕ → Bool) (o : Option (ℕ → Bool))
          → o ≡ some g
          → (if b then some f else o) ≡ some (if b then f else g)
      pick true f g o e = refl
      pick false f g o e = e

  -- What `advance` clears, below the number that it observes.
  cleared_lem :
      (k : ℕ) → w.highest < x → Inside w.win x k → k < x → exposed (k % w.win) ≡ observed k l
  cleared_lem k new h lt = elim (dec_le k w.highest) [
    | yes le ↦
        ap (λ (f : ℕ → Bool). f (k % w.win))
          (if_false (leb w.win (x - w.highest)) _ _
            (lt→leb_false w.win (x - w.highest) (omega (arith, h.1))))
        ∙ cleared_below w.win x w.recv (w.highest + 1) (x - w.highest) k (omega arith)
            (omega (arith, h.1)) h (omega arith)
        ∙ t.slots k (le, omega (arith, h.1))
    | no gt ↦ elim (Bool-cases (leb w.win (x - w.highest))) [
      | inl y ↦
          ap (λ (f : ℕ → Bool). f (k % w.win)) (if_true (leb w.win (x - w.highest)) _ _ y)
          ∙ sym (t.above k (omega arith))
      | inr n ↦
          ap (λ (f : ℕ → Bool). f (k % w.win)) (if_false (leb w.win (x - w.highest)) _ _ n)
          ∙ cleared_above w.win x w.recv (w.highest + 1) (x - w.highest) k (omega arith)
              (small w.win x w.highest n new) h (omega arith) (omega arith)
          ∙ sym (t.above k (omega arith))
    ]
  ]
    where
      small : (a b c : ℕ) → leb a (b - c) ≡ false → c < b → b < c + 1 + a
      small a b c e lt = ground arith

  advanced-Tracks :
      w.highest < x
      → x + 1 < u64_mod
      → Tracks (record w { recv = put exposed (x % w.win) true; highest = x }) start (x ∷ l)
  advanced-Tracks new bound = record {
    bound = bound;
    have = t.have;
    size = t.size;
    first = t.first;
    order = omega (arith, t.order);
    top = or_same x (observed x l);
    above = λ k lt. or_other x k (observed k l) (λ e. omega arith) ∙ t.above k (omega arith);
    slots = slots;
  }
    where
      same : (a b : ℕ) → a ≡ b → (a == b) ≡ true
      same a b e = ground arith

      slots :
          (k : ℕ)
          → Inside w.win x k
          → put exposed (x % w.win) true (k % w.win) ≡ (x == k || observed k l)
      slots k h =
          put-Inside w.win x exposed x k true (omega arith, omega (arith, t.size)) h
          ∙ elim (ℕ_discrete x k) [
            | yes e ↦
                if_true (x == k) _ _ (ground arith) ∙ sym (ap (λ b. b || observed k l) (same x k e))
            | no n ↦ or_if (x == k) _ _ (cleared_lem k new h (omega (arith, h.0)))
          ]

  fill-Tracks : x ≤ w.highest → Tracks (fill w x) start (x ∷ l)
  fill-Tracks le = elim (Bool-cases (ltb (w.highest - x) w.win)) [
    | inl y ↦
        subst (λ v. Tracks v start (x ∷ l)) (sym (if_true (ltb (w.highest - x) w.win) _ _ y))
          (record {
            have = t.have;
            size = t.size;
            first = t.first;
            order = t.order;
            bound = t.bound;
            top = or_true (x == w.highest) (observed w.highest l) t.top;
            above = late;
            slots = λ k h.
                put-Inside w.win w.highest w.recv x k true
                  (le, near (ltb→lt (w.highest - x) w.win y)) h
                ∙ or_if (x == k) _ _ (t.slots k h);
          })
    | inr n ↦
        subst (λ v. Tracks v start (x ∷ l)) (sym (if_false (ltb (w.highest - x) w.win) _ _ n))
          (record {
            have = t.have;
            size = t.size;
            first = t.first;
            order = t.order;
            bound = t.bound;
            top = or_true (x == w.highest) (observed w.highest l) t.top;
            above = late;
            slots = λ k h.
                t.slots k h
                ∙ sym (
                    or_other x k (observed k l)
                      (λ e. far k h e (ltb_false→le (w.highest - x) w.win n)));
          })
  ]
    where
      late : (k : ℕ) → w.highest < k → observed k (x ∷ l) ≡ false
      late k lt = or_other x k (observed k l) (λ e. omega arith) ∙ t.above k lt

      near : w.highest - x < w.win → w.highest < x + w.win
      near lt = omega arith

      far : (k : ℕ) → Inside w.win w.highest k → x ≡ k → w.win ≤ w.highest - x → ⊥
      far k h e out = omega (arith, h.1, t.size)

  fill_size : (fill w x).win ≡ w.win
  fill_size = if_both (λ (v : LossWindow). v.win ≡ w.win) (ltb (w.highest - x) w.win) refl refl

  abbrev Goes : Option LossWindow → Type 0
  Goes = Ends (λ u. Tracks u start (x ∷ l) × (u.win ≡ w.win))

  pub observe-Tracks :
      x + 1 < u64_mod → Ends (λ u. Tracks u start (x ∷ l) × (u.win ≡ w.win)) (observe w x)
  unfolding observe
  observe-Tracks bound = subst Goes (sym (if_false (not w.have) _ _ (ap not t.have))) (
      if_cases Goes (ltb w.highest x)
        (λ y.
          let new : w.highest < x = ltb→lt w.highest x y in
          subst
            (λ (o : Option (ℕ → Bool)). Goes (elim o [
              | none ↦ none
              | some recv ↦ some (record w { recv = put recv (x % w.win) true; highest = x })
            ]))
            (sym (expose_lem new bound)) (advanced-Tracks new bound, refl))
        (λ n. (fill-Tracks (ltb_false→le w.highest x n), fill_size)))
