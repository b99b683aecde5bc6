-- ===== src/Device/Resize/Dwell.antt =====
-- What each decision of the resizer does, and when the link's MTU grows.
use fecalia.Base.{
  ℕ, ◌-◌, ◌≤◌, ◌<◌, ◌≡◌, inl, inr, refl, sym, Bool, true, false, Option, none, some, List, ltb,
  ltb→lt, ltb_false→le, ◌==◌, if_true, if_false, Bool-cases, arith,
}
use mathlib.Core.Path.{subst}
use fecalia.Device.Resize.{
  Sample, min_inner_mtu, Resizer, apply_target, await, resize, decide_for, decide_mtu,
}

-- The ends of a decision for a target: nothing to do, a loosening that waits, a failed change, a
-- smaller MTU at once, a larger one after the dwell.
pub data Decided (r : Resizer) (now : ℕ) (t : Option ℕ) : Resizer × Bool → Type 0 where
  clears : Decided r now t (record r { pending = 0 }, false)
  waits :
      (target : ℕ)
      → t ≡ some target
      → r.applied < target
      → Decided r now t (await r target now, false)
  fails :
      (a : Resizer)
      → a.applied ≡ r.applied
      → a.dwell ≡ r.dwell
      → Decided r now t (record a { pending = 0 }, false)
  tightens :
      (target : ℕ)
      → t ≡ some target
      → target < r.applied
      → Decided r now t (record r { pending = 0; applied = target }, true)
  loosens :
      (target : ℕ)
      → t ≡ some target
      → r.applied < target
      → r.dwell ≤ now - (await r target now).pending_since
      → Decided r now t (record (await r target now) { pending = 0; applied = target }, true)

pub await_keeps :
    (r : Resizer) (target now : ℕ)
    → ((await r target now).applied ≡ r.applied) × ((await r target now).dwell ≡ r.dwell)
unfolding await
await_keeps r target now = elim (Bool-cases (r.pending == target)) [
  | inl e ↦
      subst (λ (a : Resizer). (a.applied ≡ r.applied) × (a.dwell ≡ r.dwell))
        (sym (if_true (r.pending == target) _ _ e)) (refl, refl)
  | inr e ↦
      subst (λ (a : Resizer). (a.applied ≡ r.applied) × (a.dwell ≡ r.dwell))
        (sym (if_false (r.pending == target) _ _ e)) (refl, refl)
]

module _ (apply : ℕ → Bool) (r : Resizer) (now : ℕ) where
  resize_lem :
      (target : ℕ)
      → (target == r.applied) ≡ false
      → Decided r now (some target) (resize apply r now target)
  unfolding resize apply_target
  resize_lem target other = elim (Bool-cases (ltb r.applied target)) [
    | inl e ↦
        let a = await r target now in
        let (same, dwell) = await_keeps r target now in
        subst (Decided r now (some target)) (sym (if_true (ltb r.applied target) _ _ e))
          (elim (Bool-cases (ltb (now - a.pending_since) a.dwell)) [
            | inl w ↦
                subst (Decided r now (some target))
                  (sym (if_true (ltb (now - a.pending_since) a.dwell) _ _ w))
                  (waits target refl (ltb→lt r.applied target e))
            | inr w ↦
                subst (Decided r now (some target))
                  (sym (if_false (ltb (now - a.pending_since) a.dwell) _ _ w))
                  (elim (Bool-cases (apply target)) [
                    | inl y ↦
                        subst (Decided r now (some target)) (sym (if_true (apply target) _ _ y)) (
                          loosens target refl (ltb→lt r.applied target e)
                            (omega (arith, ltb_false→le (now - a.pending_since) a.dwell w, dwell)))
                    | inr y ↦
                        subst (Decided r now (some target)) (sym (if_false (apply target) _ _ y))
                          (fails a same dwell)
                  ])
          ])
    | inr e ↦
        subst (Decided r now (some target)) (sym (if_false (ltb r.applied target) _ _ e))
          (elim (Bool-cases (apply target)) [
            | inl y ↦ subst (Decided r now (some target)) (sym (if_true (apply target) _ _ y)) (
                tightens target refl
                  (smaller target r.applied other (ltb_false→le r.applied target e)))
            | inr y ↦
                subst (Decided r now (some target)) (sym (if_false (apply target) _ _ y))
                  (fails r refl refl)
          ])
  ]
    where
      smaller : (t a : ℕ) → (t == a) ≡ false → t ≤ a → t < a
      smaller t a n le = ground arith

  decide_for_lem : (t : Option ℕ) → Decided r now t (decide_for apply r now t)
  unfolding decide_for
  decide_for_lem none = clears
  decide_for_lem (some target) = elim (Bool-cases (target == r.applied)) [
    | inl e ↦ subst (Decided r now (some target)) (sym (if_true (target == r.applied) _ _ e)) clears
    | inr e ↦
        subst (Decided r now (some target)) (sym (if_false (target == r.applied) _ _ e))
          (resize_lem target e)
  ]

  -- Whatever the samples and the link answer, a decision is one of the five of `Decided`: a link that
  -- refuses leaves the MTU in force, and so does a target that has to wait.
  pub decide_mtu_lem :
      (samples : List Sample)
      → Decided r now (min_inner_mtu samples) (decide_mtu apply r now samples)
  unfolding decide_mtu
  decide_mtu_lem samples = decide_for_lem (min_inner_mtu samples)
