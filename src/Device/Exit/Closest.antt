-- ===== src/Device/Exit/Closest.antt =====
-- The choice of `evaluateAuto`: a healthy exit of the least round trip.
use fecalia.Base.{
  ℕ, ◌≤◌, ◌≡◌, ◌⊎◌, inl, inr, refl, sym, ap, Bool, true, false, ◌||◌, Option, none, some, List, [],
  ◌∷◌, ◌==◌, ==_iff, ltb, if_true, if_false, dec_lt, lt→ltb, le→ltb_false, arith,
}
use mathlib.Core.Path.{subst}
use mathlib.Core.Option.{some-injective}
use fecalia.Device.Exit.{contains, candidate, closer, closest}

-- No candidate has a round trip below `r`.
abbrev pub NotBelow : ℕ → Option ℕ → Type 0
NotBelow r none = Unit
NotBelow r (some t) = r ≤ t

abbrev pub BestNotBelow : ℕ → Option (ℕ × ℕ) → Type 0
BestNotBelow r none = Unit
BestNotBelow r (some (_, t)) = r ≤ t

or_right : (a b : Bool) → b ≡ true → (a || b) ≡ true
or_right true b h = refl
or_right false b h = h

here : (n : ℕ) (l : List ℕ) → contains (n ∷ l) n ≡ true
here n l = ap (λ b. b || contains l n) ((==_iff n n).1 refl)

module _ (healthy : ℕ → Bool) (rtt : ℕ → Option ℕ) where
  abbrev pub NoneBelow : ℕ → List ℕ → Type 0
  NoneBelow r [] = Unit
  NoneBelow r (n ∷ l) = NotBelow r (candidate healthy rtt n) × NoneBelow r l

  abbrev pub NoCandidate : List ℕ → Type 0
  NoCandidate [] = Unit
  NoCandidate (n ∷ l) = (candidate healthy rtt n ≡ none) × NoCandidate l

  -- The choice from a list, behind a choice that was made before.
  abbrev Chosen : Option (ℕ × ℕ) → List ℕ → Option (ℕ × ℕ) → Type 0
  Chosen best l none = (best ≡ none) × NoCandidate l
  Chosen best l (some (n, r)) =
      ((best ≡ some (n, r)) ⊎ ((contains l n ≡ true) × (candidate healthy rtt n ≡ some r)))
      × BestNotBelow r best
      × NoneBelow r l

  -- The new candidate becomes the best.
  Chosen-new :
      (best : Option (ℕ × ℕ)) (n r₀ : ℕ) (l : List ℕ) (o : Option (ℕ × ℕ))
      → candidate healthy rtt n ≡ some r₀
      → BestNotBelow r₀ best
      → Chosen (some (n, r₀)) l o
      → Chosen best (n ∷ l) o
  Chosen-new best n r₀ l none e le (h, _) = cc h
  Chosen-new best n r₀ l (some (m, r)) e le (h, low, below) = (
    elim h [
      | inl q ↦ inr (
          subst
            (λ (x : ℕ × ℕ). (contains (n ∷ l) x.0 ≡ true) × (candidate healthy rtt x.0 ≡ some x.1))
            (some-injective (n, r₀) (m, r) q) (here n l, e))
      | inr (mem, c) ↦ inr (or_right (n == m) (contains l m) mem, c)
    ],
    lower best le low,
    (subst (NotBelow r) (sym e) low, below),
  )
    where
      lower : (best : Option (ℕ × ℕ)) → BestNotBelow r₀ best → r ≤ r₀ → BestNotBelow r best
      lower none le low = tt
      lower (some _) le low = omega arith

  -- The best so far stays.
  Chosen-old :
      (best : Option (ℕ × ℕ)) (n : ℕ) (l : List ℕ) (o : Option (ℕ × ℕ))
      → ((r : ℕ) → BestNotBelow r best → NotBelow r (candidate healthy rtt n))
      → (best ≡ none → candidate healthy rtt n ≡ none)
      → Chosen best l o
      → Chosen best (n ∷ l) o
  Chosen-old best n l none f g (h, nc) = (h, (g h, nc))
  Chosen-old best n l (some (m, r)) f g (inl q, low, below) = (inl q, low, (f r low, below))
  Chosen-old best n l (some (m, r)) f g (inr (mem, c), low, below) =
      (inr (or_right (n == m) (contains l m) mem, c), low, (f r low, below))

  Chosen-cons :
      (best : Option (ℕ × ℕ)) (n : ℕ) (l : List ℕ) (c : Option ℕ) (o : Option (ℕ × ℕ))
      → candidate healthy rtt n ≡ c
      → Chosen (closer best n c) l o
      → Chosen best (n ∷ l) o
  Chosen-cons best n l none o e h =
      Chosen-old best n l o (λ r _. subst (NotBelow r) (sym e) tt) (λ _. e) h
  Chosen-cons none n l (some r₀) o e h = Chosen-new none n r₀ l o e tt h
  Chosen-cons (some (b, t)) n l (some r₀) o e h = elim (dec_lt r₀ t) [
    | yes lt ↦
        Chosen-new (some (b, t)) n r₀ l o e (omega arith)
          (subst (λ x. Chosen x l o) (if_true (ltb r₀ t) _ _ (lt→ltb r₀ t lt)) h)
    | no ge ↦
        Chosen-old (some (b, t)) n l o
          (λ r low. subst (NotBelow r) (sym e) (at_least r t r₀ low (omega arith))) (λ q. cc q)
          (subst (λ x. Chosen x l o) (if_false (ltb r₀ t) _ _ (le→ltb_false r₀ t (omega arith))) h)
  ]
    where
      at_least : (r t r₀ : ℕ) → r ≤ t → t ≤ r₀ → NotBelow r (some r₀)
      at_least r t r₀ p q = omega arith

  closest-Chosen : (best : Option (ℕ × ℕ)) (l : List ℕ) → Chosen best l (closest healthy rtt best l)
  unfolding closest
  closest-Chosen none [] = (refl, tt)
  closest-Chosen (some (n, r)) [] = (inl refl, omega arith, tt)
  closest-Chosen best (n ∷ l) =
      Chosen-cons best n l (candidate healthy rtt n) _ refl
        (closest-Chosen (closer best n (candidate healthy rtt n)) l)

  -- The choice of `evaluateAuto` from the exits of the list.
  abbrev pub Closest : List ℕ → Option (ℕ × ℕ) → Type 0
  Closest l none = NoCandidate l
  Closest l (some (n, r)) =
      (contains l n ≡ true) × (candidate healthy rtt n ≡ some r) × NoneBelow r l

  Chosen-Closest : (l : List ℕ) (o : Option (ℕ × ℕ)) → Chosen none l o → Closest l o
  Chosen-Closest l none (_, nc) = nc
  Chosen-Closest l (some (n, r)) (inl q, _, below) = cc q
  Chosen-Closest l (some (n, r)) (inr (mem, c), _, below) = (mem, c, below)

  -- The automatic choice is an exit of the list that is healthy and has a positive round trip, and
  -- none of the others' is less; there is no choice only where no exit qualifies.
  pub closest-Closest : (l : List ℕ) → Closest l (closest healthy rtt none l)
  closest-Closest l = Chosen-Closest l _ (closest-Chosen none l)
