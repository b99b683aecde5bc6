-- ===== src/Device/Failover/Index.antt =====
-- Positions in the flattened list.
use fecalia.Base.{
  ℕ, zero, suc, ◌+◌, ◌<◌, ◌≡◌, refl, ap, ◌∙◌, true, false, ◌&&◌, some, List, [], ◌∷◌, ◌==◌, if_true,
  if_false, length, get_elem?, arith,
}
use mathlib.Core.Path.{subst}
use mathlib.Core.Option.{some-injective}
use fecalia.Device.Failover.{same_entry, position_from}

-- No entry of the flattened list comes twice.
abbrev pub Absent : ℕ × ℕ → List (ℕ × ℕ) → Type 0
Absent e [] = Unit
Absent e (x ∷ l) = (same_entry e x ≡ false) × Absent e l

abbrev pub Distinct : List (ℕ × ℕ) → Type 0
Distinct [] = Unit
Distinct (x ∷ l) = Absent x l × Distinct l

same_refl : (e : ℕ × ℕ) → same_entry e e ≡ true
same_refl (s, a) = both s a
  where
    both : (s a : ℕ) → (s == s && a == a) ≡ true
    both s a = ground arith

Absent-at :
    (l : List (ℕ × ℕ)) (i : ℕ) (x e : ℕ × ℕ)
    → Absent x l
    → get_elem? l i ≡ some e
    → same_entry x e ≡ false
Absent-at [] i x e h q = cc q
Absent-at (y ∷ l) zero x e (n, h) q = subst (λ z. same_entry x z ≡ false) (some-injective y e q) n
Absent-at (y ∷ l) (suc i) x e (n, h) q = Absent-at l i x e h q

-- Without duplicates an entry is found at its own position.
pub position_from_lem :
    (l : List (ℕ × ℕ)) (n i : ℕ) (e : ℕ × ℕ)
    → Distinct l
    → get_elem? l i ≡ some e
    → position_from n e l ≡ some (n + i)
unfolding position_from
position_from_lem [] n i e h q = cc q
position_from_lem (x ∷ l) n zero e h q =
    if_true (same_entry x e) _ _
      (subst (λ z. same_entry x z ≡ true) (some-injective x e q) (same_refl x))
    ∙ ap some (omega arith)
position_from_lem (x ∷ l) n (suc i) e (a, h) q =
    if_false (same_entry x e) _ _ (Absent-at l i x e a q)
    ∙ position_from_lem l (n + 1) i e h q
    ∙ ap some (omega arith)

pub get_inside : (l : List (ℕ × ℕ)) (i : ℕ) → i < length l → (e : ℕ × ℕ) × (get_elem? l i ≡ some e)
get_inside [] i lt = absurd (omega arith)
get_inside (x ∷ l) zero lt = (x, refl)
get_inside (x ∷ l) (suc i) lt = get_inside l i (omega arith)
