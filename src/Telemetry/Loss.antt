-- ===== src/Telemetry/Loss.antt =====
-- The loss window of a path, `lossWindow` of internal/telemetry/estimator.go. The array `recv` is a
-- function of the index. The arithmetic wraps at 2 ^ 64 as the source's does. The loops of `observe`
-- and `fraction` have fuel for their turns; where the end is 2 ^ 64 - 1, the index wraps to 0 before
-- it is above the end and the loop goes on for ever: there the fuel runs out, and the result is none.
-- The fraction is the pair of its two counts, which the source divides in floating point; the
-- smoothed round trips, also in floating point, are left out.
use fecalia.Base.{
  ℕ, zero, suc, ◌+◌, ◌-◌, ◌%◌, ◌≤◌, ◌<◌, Bool, true, false, not, Option, none, some, List, [], ◌∷◌,
  ltb, leb, ◌==◌, if◌then◌else◌, add64, sub64,
}
pub mod Window
pub mod Observed
pub mod Fraction
pub mod Tests

abbrev pub default_loss_window : ℕ
default_loss_window = 512

pub record LossWindow : Type 0 where
  pub win : ℕ
  pub recv : ℕ → Bool
  pub first : ℕ
  pub highest : ℕ
  pub have : Bool

-- `newLossWindow`; a size that is not positive is 0.
unfoldable pub new_loss_window : ℕ → LossWindow
new_loss_window win = record {
  win = if win == 0 then default_loss_window else win;
  recv = λ _. false;
  first = 0;
  highest = 0;
  have = false;
}

-- `recv` with `v` at an index.
abbrev pub put : (ℕ → Bool) → ℕ → Bool → ℕ → Bool
put recv i v j = if i == j then v else recv j

-- The loop of `observe`: the slots from that of `k` to that of `top` are cleared.
unfoldable pub clear_slots : ℕ → ℕ → (ℕ → Bool) → ℕ → ℕ → Option (ℕ → Bool)
clear_slots zero win recv k top = if ltb top k then some recv else none
clear_slots (suc fuel) win recv k top =
    let rest = clear_slots fuel win (put recv (k % win) false) (add64 k 1) top in
    if ltb top k then some recv else rest

-- The branches of `observe`: the first number, a new highest one, with the slots that it exposes
-- cleared, and a late one.
abbrev pub seed : LossWindow → ℕ → LossWindow
seed w seq = record w {
  have = true;
  first = seq;
  highest = seq;
  recv = put (λ _. false) (seq % w.win) true;
}

abbrev pub expose : LossWindow → ℕ → Option (ℕ → Bool)
expose w seq =
    if leb w.win (seq - w.highest)
    then some (λ _. false)
    else clear_slots (seq - w.highest) w.win w.recv (add64 w.highest 1) seq

abbrev pub advance : LossWindow → ℕ → Option LossWindow
advance w seq = elim (expose w seq) [
  | none ↦ none
  | some recv ↦ some (record w { recv = put recv (seq % w.win) true; highest = seq })
]

abbrev pub fill : LossWindow → ℕ → LossWindow
fill w seq =
    if ltb (w.highest - seq) w.win then (record w { recv = put w.recv (seq % w.win) true }) else w

unfoldable pub observe : LossWindow → ℕ → Option LossWindow
unfolding clear_slots
observe w seq =
    if not w.have
    then some (seed w seq)
    else (if ltb w.highest seq then advance w seq else some (fill w seq))

-- `bounds`: the lowest number of the window; none if none was observed.
unfoldable pub bounds : LossWindow → Option ℕ
bounds w =
    if not w.have
    then none
    else (let top = add64 w.highest 1 in
        let lower = if ltb w.win top then top - w.win else 0 in
        some (if ltb lower w.first then w.first else lower))

-- The loop of `fraction`: how many numbers from `k` to the highest one are missing.
unfoldable pub count_missing : ℕ → LossWindow → ℕ → ℕ → Option ℕ
count_missing zero w k missing = if ltb w.highest k then some missing else none
count_missing (suc fuel) w k missing =
    let counted = if w.recv (k % w.win) then missing else missing + 1 in
    let rest = count_missing fuel w (add64 k 1) counted in
    if ltb w.highest k then some missing else rest

-- `fraction`: the missing numbers and the numbers of the window.
unfoldable pub fraction : LossWindow → Option (ℕ × ℕ)
unfolding bounds count_missing
fraction w = elim (bounds w) [
  | none ↦ some (0, 1)
  | some lower ↦ elim (count_missing (w.highest + 1 - lower) w lower 0) [
    | none ↦ none
    | some missing ↦ some (missing, add64 (sub64 w.highest lower) 1)
  ]
]
