-- ===== src/Device/Resize/Least.antt =====
-- The target of the resizer: the least inner MTU of the paths that are up.
use fecalia.Base.{
  ℕ, ◌≤◌, ◌≡◌, ◌⊎◌, inl, inr, refl, Option, none, some, List, [], ◌∷◌, ltb, dec_lt, lt→ltb,
  le→ltb_false, if◌then◌else◌, if_true, if_false, arith,
}
use mathlib.Core.Path.{subst}
use mathlib.Core.Option.{some-injective}
use fecalia.Telemetry.Liveness.{PathState, down, up, is_up}
use fecalia.Bond.{inner_mtu}
use fecalia.Device.Resize.{Sample, fold_sample, min_from, min_inner_mtu}

-- The inner MTU of a path that is up is `m`, or at least `m`.
abbrev pub IsUpAt : ℕ → PathState → ℕ → Type 0
IsUpAt m down x = ⊥
IsUpAt m up x = x ≡ m

abbrev pub UpAbove : ℕ → PathState → ℕ → Type 0
UpAbove m down x = Unit
UpAbove m up x = m ≤ x

abbrev pub IsDown : PathState → Type 0
IsDown down = Unit
IsDown up = ⊥

abbrev pub Attained : ℕ → List Sample → Type 0
Attained m [] = ⊥
Attained m (s ∷ l) = IsUpAt m s.state (inner_mtu s.pmtu) ⊎ Attained m l

abbrev pub AllAbove : ℕ → List Sample → Type 0
AllAbove m [] = Unit
AllAbove m (s ∷ l) = UpAbove m s.state (inner_mtu s.pmtu) × AllAbove m l

abbrev pub AllDown : List Sample → Type 0
AllDown [] = Unit
AllDown (s ∷ l) = IsDown s.state × AllDown l

abbrev BestAbove : ℕ → Option ℕ → Type 0
BestAbove m none = Unit
BestAbove m (some b) = m ≤ b

-- The minimum of a list behind a minimum that was found before.
abbrev LeastFrom : Option ℕ → List Sample → Option ℕ → Type 0
LeastFrom best l none = (best ≡ none) × AllDown l
LeastFrom best l (some m) = ((best ≡ some m) ⊎ Attained m l) × BestAbove m best × AllAbove m l

-- The same with one more path in front, by its state and its inner MTU.
abbrev LeastCons : Option ℕ → PathState → ℕ → List Sample → Option ℕ → Type 0
LeastCons best st x l none = (best ≡ none) × IsDown st × AllDown l
LeastCons best st x l (some m) =
    ((best ≡ some m) ⊎ (IsUpAt m st x ⊎ Attained m l))
    × BestAbove m best
    × UpAbove m st x
    × AllAbove m l

-- The path in front is the new minimum.
front_least :
    (best : Option ℕ) (x : ℕ) (l : List Sample) (o : Option ℕ)
    → BestAbove x best
    → LeastFrom (some x) l o
    → LeastCons best up x l o
front_least best x l none b (h, _) = cc h
front_least none x l (some m) b (inl q, le, above) =
    (inr (inl (some-injective x m q)), tt, le, above)
front_least none x l (some m) b (inr a, le, above) = (inr (inr a), tt, le, above)
front_least (some y) x l (some m) b (inl q, le, above) =
    (inr (inl (some-injective x m q)), omega arith, le, above)
front_least (some y) x l (some m) b (inr a, le, above) = (inr (inr a), omega arith, le, above)

behind_least :
    (y x : ℕ) (l : List Sample) (o : Option ℕ)
    → y ≤ x
    → LeastFrom (some y) l o
    → LeastCons (some y) up x l o
behind_least y x l none le (h, _) = cc h
behind_least y x l (some m) le (inl q, low, above) = (inl q, low, omega arith, above)
behind_least y x l (some m) le (inr a, low, above) = (inr (inr a), low, omega arith, above)

cons_least :
    (best : Option ℕ) (st : PathState) (x : ℕ) (l : List Sample) (o : Option ℕ)
    → LeastFrom (if is_up st then fold_sample best x else best) l o
    → LeastCons best st x l o
cons_least best down x l none (h, d) = (h, tt, d)
cons_least best down x l (some m) (inl q, low, above) = (inl q, low, tt, above)
cons_least best down x l (some m) (inr a, low, above) = (inr (inr a), low, tt, above)
cons_least none up x l o h = front_least none x l o tt h
cons_least (some y) up x l o h = elim (dec_lt x y) [
  | yes lt ↦
      front_least (some y) x l o (omega arith)
        (subst (λ b. LeastFrom b l o) (if_true (ltb x y) _ _ (lt→ltb x y lt)) h)
  | no ge ↦
      behind_least y x l o (omega arith)
        (subst (λ b. LeastFrom b l o) (if_false (ltb x y) _ _ (le→ltb_false x y (omega arith))) h)
]

at_cons :
    (best : Option ℕ) (s : Sample) (l : List Sample) (o : Option ℕ)
    → LeastCons best s.state (inner_mtu s.pmtu) l o
    → LeastFrom best (s ∷ l) o
at_cons best s l none (h, d, ds) = (h, (d, ds))
at_cons best s l (some m) (h, low, a, above) = (h, low, (a, above))

min_from-LeastFrom : (l : List Sample) (best : Option ℕ) → LeastFrom best l (min_from best l)
unfolding min_from
min_from-LeastFrom [] none = (refl, tt)
min_from-LeastFrom [] (some m) = (inl refl, omega arith, tt)
min_from-LeastFrom (s ∷ l) best =
    at_cons best s l _ (cons_least best s.state (inner_mtu s.pmtu) l _ (min_from-LeastFrom l _))

abbrev pub Least : List Sample → Option ℕ → Type 0
Least l none = AllDown l
Least l (some m) = Attained m l × AllAbove m l

least : (l : List Sample) (o : Option ℕ) → LeastFrom none l o → Least l o
least l none (_, d) = d
least l (some m) (inl q, _, above) = cc q
least l (some m) (inr a, _, above) = (a, above)

-- The target is the inner MTU of a path that is up, and the least of theirs; there is none only
-- where every path is down.
pub min_inner_mtu-Least : (l : List Sample) → Least l (min_inner_mtu l)
unfolding min_inner_mtu
min_inner_mtu-Least l = least l _ (min_from-LeastFrom l none)
