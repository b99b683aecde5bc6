-- ===== src/Device/Failover/Quiet.antt =====
-- When a resolution leaves the peer alone.
use fecalia.Base.{
  ℕ, ◌≡◌, inl, inr, refl, sym, ap, ◌∙◌, false, Option, none, some, List, [], ◌∷◌, leb, ◌==◌, ==_iff,
  get_elem?, if_true, if_false, Bool-cases, length,
}
use mathlib.Core.Path.{subst}
use fecalia.Device.Failover.{
  Spec, Failover, Act, installs, repoints, entry_at, contains_addr, adopt, follow, reconcile,
  with_addrs, remap, update_resolution,
}

-- The ends of a resolution: nothing moves, the first resolution installs the head of the list, or the
-- active endpoint's own spec has lost its address and the peer goes to the first new one.
pub data Resolved (h : Failover) (i : ℕ) (addrs : List ℕ) : Failover × List Act → Type 0 where
  unmoved :
      (r : Failover)
      → r.active ≡ h.active
      → r.last_switch ≡ h.last_switch
      → Resolved h i addrs (r, [])
  adopted :
      (r : Failover) (j a : ℕ)
      → h.active ≡ none
      → r.active ≡ some (j, a)
      → entry_at r.specs 0 ≡ some (j, a)
      → Resolved h i addrs (r, installs a ∷ [])
  moved :
      (r : Failover) (a b : ℕ)
      → h.active ≡ some (i, a)
      → contains_addr addrs a ≡ false
      → get_elem? addrs 0 ≡ some b
      → r.active ≡ some (i, b)
      → Resolved h i addrs (r, repoints b ∷ [])

module _ (h : Failover) (i : ℕ) (addrs : List ℕ) (specs : List Spec) (now : ℕ) where
  adopt-Resolved :
      (o : Option (ℕ × ℕ))
      → h.active ≡ none
      → entry_at specs 0 ≡ o
      → Resolved h i addrs (remap (adopt (record h { specs = specs }) now o))
  adopt-Resolved none e q = unmoved _ refl refl
  adopt-Resolved (some (j, a)) e q = adopted _ j a e refl q

  follow-Resolved :
      (a : ℕ) (l : List ℕ)
      → h.active ≡ some (i, a)
      → addrs ≡ l
      → Resolved h i addrs (remap (follow (record h { specs = specs }) now i a l))
  follow-Resolved a [] e q = unmoved _ refl refl
  follow-Resolved a (b ∷ l) e q = elim (Bool-cases (contains_addr (b ∷ l) a)) [
    | inl y ↦
        subst (λ r. Resolved h i addrs (remap r)) (sym (if_true (contains_addr (b ∷ l) a) _ _ y))
          (unmoved _ refl refl)
    | inr n ↦
        subst (λ r. Resolved h i addrs (remap r)) (sym (if_false (contains_addr (b ∷ l) a) _ _ n))
          (moved _ a b e (ap (λ xs. contains_addr xs a) q ∙ n)
            (ap (λ (xs : List ℕ). get_elem? xs 0) q) refl)
  ]

  reconcile-Resolved :
      (o : Option (ℕ × ℕ))
      → h.active ≡ o
      → Resolved h i addrs (remap (reconcile (record h { specs = specs }) now i addrs o))
  unfolding reconcile
  reconcile-Resolved none e = adopt-Resolved (entry_at specs 0) e refl
  reconcile-Resolved (some (j, a)) e = elim (Bool-cases (i == j)) [
    | inl y ↦
        let own : j ≡ i = sym ((==_iff i j).0 y) in
        subst (λ r. Resolved h i addrs (remap r)) (sym (if_true (i == j) _ _ y))
          (follow-Resolved a addrs (e ∙ ap (λ k. some (k, a)) own) refl)
    | inr n ↦
        subst (λ r. Resolved h i addrs (remap r)) (sym (if_false (i == j) _ _ n))
          (unmoved _ refl refl)
  ]

-- A resolution moves the peer only in two cases: there was no active endpoint, or the active one
-- belongs to the resolved spec, which lists other addresses now. A standby never moves it.
pub update_resolution-Resolved :
    (h : Failover) (now i : ℕ) (addrs : List ℕ)
    → Resolved h i addrs (update_resolution h now i addrs)
unfolding update_resolution
update_resolution-Resolved h now i addrs = elim (Bool-cases (leb (length h.specs) i)) [
  | inl y ↦
      subst (Resolved h i addrs) (sym (if_true (leb (length h.specs) i) _ _ y))
        (unmoved h refl refl)
  | inr n ↦
      subst (Resolved h i addrs) (sym (if_false (leb (length h.specs) i) _ _ n))
        (reconcile-Resolved h i addrs (with_addrs h.specs i addrs) now h.active refl)
]
