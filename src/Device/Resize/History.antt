-- ===== src/Device/Resize/History.antt =====
-- The resizer over a history of recomputations: how long a target is held before the link grows.
use fecalia.Base.{
  ℕ, ◌-◌, ◌≤◌, ◌<◌, ◌≡◌, ◌⊎◌, inl, inr, refl, sym, ◌∙◌, Bool, Option, some, List, [], ◌∷◌, ◌==◌,
  ==_iff, if_true, if_false, Bool-cases, arith,
}
use mathlib.Core.Path.{subst}
use fecalia.Device.Resize.{Sample, min_inner_mtu, Resizer, new_resizer, await, decide_mtu}
use fecalia.Device.Resize.Dwell.{
  Decided, clears, waits, fails, tightens, loosens, await_keeps, decide_mtu_lem,
}

-- One recomputation: when, what was sampled, and what the link answers to each MTU.
pub record Observation : Type 0 where
  pub at : ℕ
  pub samples : List Sample
  pub answers : ℕ → Bool

-- The resizer after a history, its latest recomputation first.
unfoldable pub after : ℕ → ℕ → List Observation → Resizer
unfolding decide_mtu
after boot dwell [] = new_resizer boot dwell
after boot dwell (o ∷ l) = (decide_mtu o.answers (after boot dwell l) o.at o.samples).0

-- Every observation since the time `since` had the target `target`.
pub data Steady (target since : ℕ) : List Observation → Type 0 where
  starts :
      (o : Observation) (l : List Observation)
      → min_inner_mtu o.samples ≡ some target
      → o.at ≡ since
      → Steady target since (o ∷ l)
  stays :
      (o : Observation) (l : List Observation)
      → min_inner_mtu o.samples ≡ some target
      → Steady target since l
      → Steady target since (o ∷ l)

-- The candidate in the state is one that the history backs.
abbrev Tracks : Resizer → List Observation → Type 0
Tracks r l = (r.pending ≡ 0) ⊎ Steady r.pending r.pending_since l

held :
    (p s target : ℕ) (l : List Observation)
    → p ≡ target
    → 0 < target
    → (p ≡ 0) ⊎ Steady p s l
    → Steady target s l
held p s target l q pos (inl z) = let no : ⊥ = omega (arith, z, q, pos) in elim no [ ]
held p s target l q pos (inr h) = subst (λ x. Steady x s l) q h

module _ (r : Resizer) (o : Observation) (l : List Observation) where
  await-Steady :
      (target : ℕ)
      → min_inner_mtu o.samples ≡ some target
      → r.applied < target
      → Tracks r l
      → ((await r target o.at).pending ≡ target)
        × Steady target (await r target o.at).pending_since (o ∷ l)
  unfolding await
  await-Steady target q lt h = elim (Bool-cases (r.pending == target)) [
    | inl e ↦
        let same : r.pending ≡ target = (==_iff r.pending target).0 e in
        subst (λ (a : Resizer). (a.pending ≡ target) × Steady target a.pending_since (o ∷ l))
          (sym (if_true (r.pending == target) _ _ e))
          (same, stays o l q (held r.pending r.pending_since target l same (omega arith) h))
    | inr e ↦
        subst (λ (a : Resizer). (a.pending ≡ target) × Steady target a.pending_since (o ∷ l))
          (sym (if_false (r.pending == target) _ _ e)) (refl, starts o l q refl)
  ]

  decide_for-Tracks :
      (t : Option ℕ) (rb : Resizer × Bool)
      → min_inner_mtu o.samples ≡ t
      → Decided r o.at t rb
      → Tracks r l
      → Tracks rb.0 (o ∷ l) × (rb.0.dwell ≡ r.dwell)
  decide_for-Tracks t _ q clears h = (inl refl, refl)
  decide_for-Tracks t _ q (waits target e lt) h =
      let (same, steady) = await-Steady target (q ∙ e) lt h in
      (
        inr (subst (λ x. Steady x (await r target o.at).pending_since (o ∷ l)) (sym same) steady),
        (await_keeps r target o.at).1,
      )
  decide_for-Tracks t _ q (fails a _ d) h = (inl refl, d)
  decide_for-Tracks t _ q (tightens _ _ _) h = (inl refl, refl)
  decide_for-Tracks t _ q (loosens target _ _ _) h = (inl refl, (await_keeps r target o.at).1)

  decide_for_grows :
      (t : Option ℕ) (rb : Resizer × Bool)
      → min_inner_mtu o.samples ≡ t
      → Decided r o.at t rb
      → Tracks r l
      → r.applied < rb.0.applied
      → (since : ℕ) × (Steady rb.0.applied since (o ∷ l) × (r.dwell ≤ o.at - since))
  decide_for_grows t _ q clears h lt =
      let grown : r.applied < r.applied = lt in let no : ⊥ = omega (arith, grown) in elim no [ ]
  decide_for_grows t _ q (waits target _ _) h lt =
      let same : (await r target o.at).applied ≡ r.applied = (await_keeps r target o.at).0 in
      let grown : r.applied < (await r target o.at).applied = lt in
      let no : ⊥ = omega (arith, same, grown) in elim no [ ]
  decide_for_grows t _ q (fails a same _) h lt =
      let grown : r.applied < a.applied = lt in
      let no : ⊥ = omega (arith, same, grown) in elim no [ ]
  decide_for_grows t _ q (tightens target _ less) h lt =
      let grown : r.applied < target = lt in let no : ⊥ = omega (arith, less, grown) in elim no [ ]
  decide_for_grows t _ q (loosens target e up le) h lt =
      ((await r target o.at).pending_since, ((await-Steady target (q ∙ e) up h).1, le))

after-Tracks :
    (boot dwell : ℕ) (l : List Observation)
    → Tracks (after boot dwell l) l × ((after boot dwell l).dwell ≡ dwell)
unfolding after new_resizer
after-Tracks boot dwell [] = (inl refl, refl)
after-Tracks boot dwell (o ∷ l) =
    let (h, d) = after-Tracks boot dwell l in
    let (h', d') =
      decide_for-Tracks (after boot dwell l) o l _ _ refl
        (decide_mtu_lem o.answers (after boot dwell l) o.at o.samples) h in
    (h', d' ∙ d)

-- When a recomputation makes the MTU of the link larger, the new MTU was the target of every
-- recomputation since a time that lies at least the dwell back.
pub after_grows :
    (boot dwell : ℕ) (o : Observation) (l : List Observation)
    → (after boot dwell l).applied < (after boot dwell (o ∷ l)).applied
    → (since : ℕ) × (Steady (after boot dwell (o ∷ l)).applied since (o ∷ l)
        × (dwell ≤ o.at - since))
unfolding after
after_grows boot dwell o l lt =
    let (h, d) = after-Tracks boot dwell l in
    let (since, still) =
      decide_for_grows (after boot dwell l) o l _ _ refl
        (decide_mtu_lem o.answers (after boot dwell l) o.at o.samples) h lt in
    (since, (still.0, omega (arith, still.1, d)))
