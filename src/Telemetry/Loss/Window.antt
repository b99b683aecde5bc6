-- ===== src/Telemetry/Loss/Window.antt =====
-- The loss window against the list of the numbers that were observed.
use fecalia.Base.{
  ℕ, zero, suc, ◌+◌, ◌-◌, ◌%◌, ◌≤◌, ◌<◌, ◌≡◌, ◌≢◌, refl, sym, ap, ◌∙◌, Bool, false, ◌||◌, List, [],
  ◌∷◌, ◌==◌, ltb, Option, none, some, add64, u64_mod, ℕ_discrete, if◌then◌else◌, if_true, if_false,
  mod_window_inj, arith,
}
use fecalia.Telemetry.Loss.{LossWindow, new_loss_window, put, clear_slots, observe}

-- Whether a number was observed.
abbrev pub observed : ℕ → List ℕ → Bool
observed k [] = false
observed k (x ∷ l) = x == k || observed k l

-- The window after a list of observations, the latest one first; none if a loop did not end.
unfoldable pub after : ℕ → List ℕ → Option LossWindow
unfolding observe
after win [] = some (new_loss_window win)
after win (x ∷ l) = elim (after win l) [ none ↦ none | some w ↦ observe w x ]

-- Each number leaves room for one more in a `uint64`.
abbrev pub AreBelow : List ℕ → Type 0
AreBelow [] = Unit
AreBelow (x ∷ l) = (x + 1 < u64_mod) × AreBelow l

-- The slots of `n` sequence numbers from `k` on cleared.
unfoldable pub cleared : ℕ → (ℕ → Bool) → ℕ → ℕ → ℕ → Bool
cleared win recv k zero = recv
cleared win recv k (suc n) = cleared win (put recv (k % win) false) (k + 1) n

pub add64_one : (k : ℕ) → k + 1 < u64_mod → add64 k 1 ≡ k + 1
add64_one k h = omega arith

-- The loop ends with the slots cleared.
pub clear_slots_lem :
    (win : ℕ) (recv : ℕ → Bool) (k n top : ℕ)
    → k + n ≡ top + 1
    → top + 1 < u64_mod
    → clear_slots n win recv k top ≡ some (cleared win recv k n)
unfolding clear_slots cleared
clear_slots_lem win recv k zero top e h = if_true (ltb top k) _ _ (ground arith)
clear_slots_lem win recv k (suc n) top e h =
    if_false (ltb top k) _ _ (ground arith)
    ∙ ap (λ j. clear_slots n win (put recv (k % win) false) j top) (add64_one k (omega arith))
    ∙ clear_slots_lem win (put recv (k % win) false) (k + 1) n top (omega arith) h

-- A number at most the highest one, and fewer than the window's size below it.
abbrev pub Inside : ℕ → ℕ → ℕ → Type 0
Inside win top k = (k ≤ top) × (top < k + win)

module _ (win top : ℕ) where
  -- A slot is written, and read for a number of the same window.
  pub put-Inside :
      (recv : ℕ → Bool) (a k : ℕ) (v : Bool)
      → Inside win top a
      → Inside win top k
      → put recv (a % win) v (k % win) ≡ (if a == k then v else recv (k % win))
  put-Inside recv a k v (la, ha) (lk, hk) = elim (ℕ_discrete a k) [
    | yes e ↦ go (a % win) (k % win) a k (ap (λ n. n % win) e) e
    | no n ↦ stays (a % win) (k % win) a k n (λ q. n (
        mod_window_inj win (top + 1 - win) a k (omega arith) (omega arith) (omega arith)
          (omega arith) (omega arith) q))
  ]
    where
      go : (i j a k : ℕ) → i ≡ j → a ≡ k → put recv i v j ≡ (if a == k then v else recv j)
      go i j a k p q =
          if_true (i == j) _ _ (ground arith) ∙ sym (if_true (a == k) _ _ (ground arith))

      stays : (i j a k : ℕ) → a ≢ k → i ≢ j → put recv i v j ≡ (if a == k then v else recv j)
      stays i j a k p q =
          if_false (i == j) _ _ (ground arith) ∙ sym (if_false (a == k) _ _ (ground arith))

  pub cleared_below :
      (recv : ℕ → Bool) (k n j : ℕ)
      → k + n ≤ top + 1
      → top < k + win
      → Inside win top j
      → j < k
      → cleared win recv k n (j % win) ≡ recv (j % win)
  unfolding cleared
  cleared_below recv k zero j le hk h lt = refl
  cleared_below recv k (suc n) j le hk h lt =
      cleared_below (put recv (k % win) false) (k + 1) n j (omega arith) (omega arith) h
        (omega arith)
      ∙ put-Inside recv k j false (omega arith, omega arith) h
      ∙ if_false (k == j) _ _ (ground arith)

  pub cleared_above :
      (recv : ℕ → Bool) (k n j : ℕ)
      → k + n ≤ top + 1
      → top < k + win
      → Inside win top j
      → k ≤ j
      → j < k + n
      → cleared win recv k n (j % win) ≡ false
  unfolding cleared
  cleared_above recv k zero j le hk h ge lt = absurd (omega arith)
  cleared_above recv k (suc n) j le hk h ge lt = elim (ℕ_discrete k j) [
    | yes e ↦
        cleared_below (put recv (k % win) false) (k + 1) n j (omega arith) (omega arith) h
          (omega arith)
        ∙ put-Inside recv k j false (omega arith, omega arith) h
        ∙ if_true (k == j) _ _ (ground arith)
    | no q ↦
        cleared_above (put recv (k % win) false) (k + 1) n j (omega arith) (omega arith) h
          (omega arith) (omega arith)
  ]
