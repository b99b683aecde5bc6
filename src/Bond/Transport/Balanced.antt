-- ===== src/Bond/Transport/Balanced.antt =====
-- What an acknowledgement leaves of the lanes and the receipts: every byte that a lane counts as in
-- flight is held by an attempt of its that is not released.
use fecalia.Base.{
  ℕ, ◌+◌, ◌≡◌, inl, inr, refl, sym, ap, ◌∙◌, some, List, [], ◌∷◌, ◌==◌, if_true, if_both, if_false,
  Bool-cases, arith,
}
use mathlib.Core.Path.{subst}
use fecalia.Bond.Transport.{Lane, find_lane, put_lane}
use fecalia.Bond.Transport.Flight.{Entry}
use fecalia.Bond.Transport.Balance.{
  Counter, all, latest, of_class, counter, held, held-latest, Holds, base,
}
use fecalia.Bond.Transport.Kept.{Each}
use fecalia.Bond.Transport.Ledgers.{Keys}

-- A lane of a transport whose latest delivery sequence is `n`.
pub record IsLane (n : ℕ) (p : Lane) : Type 0 where
  pub balanced : Holds p (base p.seq) p.attempts
  pub keys : Each (Keys p.seq n) p.attempts

abbrev pub AreLanes : ℕ → List Lane → Type 0
AreLanes n [] = Unit
AreLanes n (p ∷ l) = IsLane n p × AreLanes n l

pub find_lane-IsLane :
    (n : ℕ) (l : List Lane) (id : ℕ) (p : Lane)
    → AreLanes n l
    → find_lane l id ≡ some p
    → IsLane n p
find_lane-IsLane n [] id p v e = cc e
find_lane-IsLane n (q ∷ l) id p (v, vs) e = elim (Bool-cases (q.id == id)) [
  | inl y ↦ subst (IsLane n) (cc (sym (if_true (q.id == id) (some q) (find_lane l id) y) ∙ e)) v
  | inr unset ↦
      find_lane-IsLane n l id p vs (sym (if_false (q.id == id) (some q) (find_lane l id) unset) ∙ e)
]

pub put_lane-AreLanes :
    (n : ℕ) (l : List Lane) (q : Lane) → AreLanes n l → IsLane n q → AreLanes n (put_lane l q)
put_lane-AreLanes n [] q vs v = vs
put_lane-AreLanes n (p ∷ l) q (h, hs) v =
    if_both (AreLanes n) (p.id == q.id) (v, hs) (h, put_lane-AreLanes n l q hs v)

pub counter-attempts :
    (p : Lane) (l : List Entry) (k : Counter) → counter (record p { attempts = l }) k ≡ counter p k
counter-attempts p l all = refl
counter-attempts p l latest = refl
counter-attempts p l (of_class c) = refl

-- A lane with the attempts that a loop over its attempts keeps.
pub lane_of :
    (n m : ℕ) (p : Lane) (kept : List Entry)
    → Holds p (base m) kept
    → Each (Keys m n) kept
    → IsLane n (record p { attempts = kept })
lane_of n m p kept h ks =
    let same : p.seq ≡ m = omega (arith, h latest, held-latest kept) in
    record {
      balanced =
          λ k. counter-attempts p kept k ∙ h k ∙ ap (λ (i : ℕ). base i k + held k kept) (sym same);
      keys = subst (λ i. Each (Keys i n) kept) (sym same) ks;
    }
