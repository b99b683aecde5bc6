-- ===== src/Telemetry/Pmtu/Confirm.antt =====
-- What an accepted candidate shows: the answers that accept it stand in a row.
use fecalia.Base.{
  leb_false→lt, ℕ, zero, suc, ◌+◌, ◌*◌, ◌≤◌, ◌<◌, ◌≡◌, ◌⊎◌, inl, inr, refl, Bool, true, false,
  Option, none, some, leb, leb→le, le→leb, lt→leb_false, if_true, if_false, if◌then◌else◌, ◌∙◌,
  arith, Bool-cases,
}
use fecalia.Telemetry.Pmtu.{
  Answer, echoed, silent, fault, pmtu_rejections, pmtu_attempts_per_confirmation, confirm_loop,
  confirm_candidate,
}

pub answer_cases : (a : Answer) → (a ≡ fault) ⊎ ((a ≡ silent) ⊎ (a ≡ echoed))
answer_cases fault = inl refl
answer_cases silent = inr (inl refl)
answer_cases echoed = inr (inr refl)

module _ {W : Type 0} (probe_pmtu : W → ℕ → W × Answer) where
  -- From the one world to the other, `k` probes of the size in a row, each answered.
  pub data Streak (mid : ℕ) : ℕ → W → W → Type 0 where
    no_probe : {w : W} → Streak mid 0 w w
    one_more :
        {k : ℕ} {w w₁ : W}
        → Streak mid k w w₁
        → (probe_pmtu w₁ mid).1 ≡ echoed
        → Streak mid (k + 1) w (probe_pmtu w₁ mid).0

  -- An accepted candidate was answered `need` times in a row, the last time at the end.
  abbrev pub Backed : ℕ → ℕ → W × Option Bool → Type 0
  Backed need mid (w, none) = Unit
  Backed need mid (w, some false) = Unit
  Backed need mid (w, some true) = (start : W) × (k : ℕ) × (need ≤ k) × Streak mid k start w

  confirm_loop-Backed :
      (n need mid control : ℕ) (w : W) (k rejections : ℕ) (start : W)
      → Streak mid k start w
      → Backed need mid (confirm_loop probe_pmtu n need mid control w k rejections)
  unfolding confirm_loop
  confirm_loop-Backed zero need mid control w k rejections start s = tt
  confirm_loop-Backed (suc n) need mid control w k rejections start s =
      elim (answer_cases (probe_pmtu w mid).1) [
        | inl e ↦ rw (confirm_loop, e) tt
        | inr (inr e) ↦ elim (Bool-cases (leb need (k + 1))) [
          | inl b ↦
              rw (confirm_loop, e, b)
                (start, k + 1, omega (arith, leb→le need (k + 1) b), one_more s e)
          | inr b ↦
              rw (confirm_loop, e, b)
                (confirm_loop-Backed n need mid control (probe_pmtu w mid).0 (k + 1) rejections
                  start (one_more s e))
        ]
        | inr (inl e) ↦ elim (answer_cases (probe_pmtu (probe_pmtu w mid).0 control).1) [
          | inl f ↦ rw (confirm_loop, e, f) tt
          | inr (inl f) ↦
              rw (confirm_loop, e, f)
                (confirm_loop-Backed n need mid control _ 0 rejections _ no_probe)
          | inr (inr f) ↦ elim (Bool-cases (leb pmtu_rejections (rejections + 1))) [
            | inl b ↦ rw (confirm_loop, e, f, b) tt
            | inr b ↦
                rw (confirm_loop, e, f, b)
                  (confirm_loop-Backed n need mid control _ 0 (rejections + 1) _ no_probe)
          ]
        ]
      ]

  pub confirm_candidate-Backed :
      (need mid control : ℕ) (w : W)
      → Backed need mid (confirm_candidate probe_pmtu need mid control w)
  unfolding confirm_candidate
  confirm_candidate-Backed need mid control w =
      confirm_loop-Backed (pmtu_attempts_per_confirmation * need) need mid control w 0 0 w no_probe

  module _ (mtu : ℕ)
      (reliable : (w : W) (n : ℕ)
        → (probe_pmtu w n).1 ≡ (if leb n mtu then echoed else silent)) where
    fits : (w : W) (n : ℕ) → n ≤ mtu → (probe_pmtu w n).1 ≡ echoed
    fits w n le = reliable w n ∙ if_true (leb n mtu) _ _ (le→leb n mtu le)

    too_large : (w : W) (n : ℕ) → mtu < n → (probe_pmtu w n).1 ≡ silent
    too_large w n lt = reliable w n ∙ if_false (leb n mtu) _ _ (lt→leb_false n mtu lt)

    confirm_loop_fits :
        (n need mid control : ℕ) (w : W) (k rejections : ℕ)
        → mid ≤ mtu
        → k < need
        → need ≤ n + k
        → (confirm_loop probe_pmtu n need mid control w k rejections).1 ≡ some true
    unfolding confirm_loop
    confirm_loop_fits zero need mid control w k rejections le lt fuel = absurd (omega arith)
    confirm_loop_fits (suc n) need mid control w k rejections le lt fuel =
        elim (Bool-cases (leb need (k + 1))) [
          | inl b ↦ rw (confirm_loop, fits w mid le, b) refl
          | inr b ↦
              rw (confirm_loop, fits w mid le, b)
                (confirm_loop_fits n need mid control _ (k + 1) rejections le
                  (leb_false→lt need (k + 1) b) (omega arith))
        ]

    confirm_loop_too_large :
        (n need mid control : ℕ) (w : W) (k rejections : ℕ)
        → mtu < mid
        → control ≤ mtu
        → (confirm_loop probe_pmtu n need mid control w k rejections).1 ≡ some false
    unfolding confirm_loop
    confirm_loop_too_large zero need mid control w k rejections lt le = refl
    confirm_loop_too_large (suc n) need mid control w k rejections lt le =
        elim (Bool-cases (leb pmtu_rejections (rejections + 1))) [
          | inl b ↦
              rw (confirm_loop, too_large w mid lt, fits (probe_pmtu w mid).0 control le, b) refl
          | inr b ↦
              rw (confirm_loop, too_large w mid lt, fits (probe_pmtu w mid).0 control le, b)
                (confirm_loop_too_large n need mid control _ 0 (rejections + 1) lt le)
        ]

    pub confirm_candidate_fits :
        (need mid control : ℕ) (w : W)
        → 0 < need
        → mid ≤ mtu
        → (confirm_candidate probe_pmtu need mid control w).1 ≡ some true
    unfolding confirm_candidate
    confirm_candidate_fits need mid control w pos le =
        confirm_loop_fits (pmtu_attempts_per_confirmation * need) need mid control w 0 0 le pos
          (omega arith)

    pub confirm_candidate_too_large :
        (need mid control : ℕ) (w : W)
        → mtu < mid
        → control ≤ mtu
        → (confirm_candidate probe_pmtu need mid control w).1 ≡ some false
    unfolding confirm_candidate
    confirm_candidate_too_large need mid control w lt le =
        confirm_loop_too_large (pmtu_attempts_per_confirmation * need) need mid control w 0 0 lt le
