-- ===== src/Telemetry/Loss/Fraction.antt =====
-- The fraction of the loss window counts what was not observed.
use fecalia.Base.{
  ℕ, zero, suc, ◌+◌, ◌-◌, ◌%◌, ◌≤◌, ◌<◌, max, ◌≡◌, refl, ap, ◌∙◌, Bool, true, false, not, some,
  none, Option, List, [], ◌∷◌, ltb, ◌==◌, if◌then◌else◌, if_true, if_false, arith,
}
use mathlib.Core.Path.{subst}
use fecalia.Telemetry.Loss.{
  LossWindow, default_loss_window, new_loss_window, observe, bounds, count_missing, fraction,
}
use fecalia.Telemetry.Loss.Window.{observed, after, AreBelow, add64_one}
use fecalia.Telemetry.Loss.Observed.{oldest, Tracks, Ends, seed-Tracks, observe-Tracks}

-- The size of a new window.
abbrev pub window_size : ℕ → ℕ
window_size win = if win == 0 then default_loss_window else win

pub after-Tracks :
    (win x : ℕ) (l : List ℕ)
    → AreBelow (x ∷ l)
    → Ends (λ w. Tracks w (oldest x l) (x ∷ l) × (w.win ≡ window_size win)) (after win (x ∷ l))
unfolding after new_loss_window observe
after-Tracks win x [] (b, _) = (seed-Tracks (new_loss_window win) x (positive win) b, refl)
  where
    positive : (n : ℕ) → 0 < (if n == 0 then default_loss_window else n)
    positive n = ground arith
after-Tracks win x (y ∷ l) (b, bs) = go (after win (y ∷ l)) (after-Tracks win y l bs)
  where
    again :
        (w : LossWindow) (o : Option LossWindow)
        → w.win ≡ window_size win
        → Ends (λ u. Tracks u (oldest y l) (x ∷ y ∷ l) × (u.win ≡ w.win)) o
        → Ends (λ u. Tracks u (oldest y l) (x ∷ y ∷ l) × (u.win ≡ window_size win)) o
    again w none e x = absurd x
    again w (some u) e (t, q) = (t, q ∙ e)

    go :
        (o : Option LossWindow)
        → Ends (λ w. Tracks w (oldest y l) (y ∷ l) × (w.win ≡ window_size win)) o
        → Ends
            (λ w. Tracks w (oldest y l) (x ∷ y ∷ l) × (w.win ≡ window_size win))
            (elim o as (λ _. Option LossWindow) [ none ↦ none | some w ↦ observe w x ])
    go none x = absurd x
    go (some w) (t, e) = again w (observe w x) e (observe-Tracks w (oldest y l) x (y ∷ l) t b)

-- How many of `n` numbers from `k` on were not observed.
abbrev pub unobserved : List ℕ → ℕ → ℕ → ℕ
unobserved l k zero = 0
unobserved l k (suc n) = if observed k l then unobserved l (k + 1) n else unobserved l (k + 1) n + 1

-- What the two counts of a fraction mean, over the observations `l`, the first of them `start`: the
-- loops ended, and the window ends with the highest number observed, and starts with the first one or
-- a window's size below the end.
pub record Measured (start : ℕ) (l : List ℕ) (size : ℕ) (o : Option (ℕ × ℕ)) : Type 0 where
  pub counts : ℕ × ℕ
  pub ended : o ≡ some counts
  pub top : ℕ
  pub lower : ℕ
  pub highest : observed top l ≡ true
  pub above : (k : ℕ) → top < k → observed k l ≡ false
  pub starts : lower ≡ max start (top + 1 - size)
  pub order : lower ≤ top
  pub numbers : counts.1 ≡ top - lower + 1
  pub missing : counts.0 ≡ unobserved l lower counts.1

module _ (w : LossWindow) (start : ℕ) (l : List ℕ) (t : Tracks w start l) where
  count_missing_lem :
      (k n m : ℕ)
      → w.highest < k + w.win
      → k + n ≡ w.highest + 1
      → count_missing n w k m ≡ some (m + unobserved l k n)
  unfolding count_missing
  count_missing_lem k zero m le h =
      if_true (ltb w.highest k) _ _ (ground arith) ∙ ap some (omega arith)
  count_missing_lem k (suc n) m le h =
      let e : w.recv (k % w.win) ≡ observed k l = t.slots k (omega arith, omega arith) in
      if_false (ltb w.highest k) _ _ (ground arith)
      ∙ ap (λ j. count_missing n w j (if w.recv (k % w.win) then m else m + 1))
          (add64_one k (omega (arith, t.bound)))
      ∙ count_missing_lem (k + 1) n (if w.recv (k % w.win) then m else m + 1) (omega arith)
          (omega arith)
      ∙ ap some (
          counted (w.recv (k % w.win)) m (unobserved l (k + 1) n)
          ∙ ap (λ b. m + (if b then unobserved l (k + 1) n else unobserved l (k + 1) n + 1)) e)
    where
      counted : (b : Bool) (m u : ℕ) → (if b then m else m + 1) + u ≡ m + (if b then u else u + 1)
      counted b m u = ground arith

  bounds_lem : bounds w ≡ some (max start (w.highest + 1 - w.win))
  unfolding bounds
  bounds_lem =
      if_false (not w.have) _ _ (ap not t.have)
      ∙ ap some (
          ap (λ top. clamp top w.win w.first) (add64_one w.highest t.bound)
          ∙ clamped (w.highest + 1) w.win w.first
          ∙ ap (λ n. max n (w.highest + 1 - w.win)) t.first)
    where
      clamp : ℕ → ℕ → ℕ → ℕ
      clamp top win first =
          if ltb (if ltb win top then top - win else 0) first
          then first
          else (if ltb win top then top - win else 0)

      clamped :
          (top win first : ℕ)
          → (if ltb (if ltb win top then top - win else 0) first
              then first
              else (if ltb win top then top - win else 0))
            ≡ max first (top - win)
      clamped top win first = ground arith

  fraction_lem :
      (lower : ℕ)
      → lower ≡ max start (w.highest + 1 - w.win)
      → bounds w ≡ some lower
      → fraction w ≡ some (unobserved l lower (w.highest - lower + 1), w.highest - lower + 1)
  unfolding fraction
  fraction_lem lower e b =
      let order : lower ≤ w.highest = omega (arith, t.first, t.order, t.size) in
      let turns : w.highest + 1 - lower ≡ w.highest - lower + 1 = omega arith in
      rw
        (
          fraction,
          b,
          turns,
          count_missing_lem lower (w.highest - lower + 1) 0 (omega (arith, t.size)) (omega arith),
        )
        (pair _ _ _ _ (omega arith) (omega (arith, t.bound)))
    where
      pair : (a b c d : ℕ) → a ≡ b → c ≡ d → ◌≡◌ {A = Option (ℕ × ℕ)} (some (a, c)) (some (b, d))
      pair a b c d p q = rw (p, q) refl

  fraction-Measured : Measured start l w.win (fraction w)
  fraction-Measured =
      let lower : ℕ = max start (w.highest + 1 - w.win) in
      record {
        counts = (unobserved l lower (w.highest - lower + 1), w.highest - lower + 1);
        ended = fraction_lem lower refl bounds_lem;
        top = w.highest;
        lower = lower;
        highest = t.top;
        above = t.above;
        starts = refl;
        order = omega (arith, t.first, t.order, t.size);
        numbers = refl;
        missing = refl;
      }

-- The fraction of a new window of size `win` after the observations `l`, the latest one first; none
-- if a loop did not end.
unfoldable pub estimate : ℕ → List ℕ → Option (ℕ × ℕ)
unfolding after fraction
estimate win l = elim (after win l) [ none ↦ none | some w ↦ fraction w ]

-- Whatever was observed, in whatever order and how often, as long as each number is below
-- 2 ^ 64 - 1, every loop ends and the fraction counts over its window the numbers that were not
-- observed; a late number fills its gap.
pub after-Measured :
    (win x : ℕ) (l : List ℕ)
    → AreBelow (x ∷ l)
    → Measured (oldest x l) (x ∷ l) (window_size win) (estimate win (x ∷ l))
unfolding estimate
after-Measured win x l below = go (after win (x ∷ l)) (after-Tracks win x l below)
  where
    go :
        (o : Option LossWindow)
        → Ends (λ w. Tracks w (oldest x l) (x ∷ l) × (w.win ≡ window_size win)) o
        → Measured
            (oldest x l)
            (x ∷ l)
            (window_size win)
            (elim o as (λ _. Option (ℕ × ℕ)) [ none ↦ none | some w ↦ fraction w ])
    go none x = absurd x
    go (some w) (t, e) =
        subst (λ n. Measured (oldest x l) (x ∷ l) n (fraction w)) e
          (fraction-Measured w (oldest x l) (x ∷ l) t)
