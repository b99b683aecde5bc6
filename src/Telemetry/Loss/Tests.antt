-- ===== src/Telemetry/Loss/Tests.antt =====
-- A loss window of four numbers.
use fecalia.Base.{◌≡◌, refl, arith, none, some, [], ◌∷◌}
use fecalia.Telemetry.Loss.{new_loss_window, clear_slots, observe, bounds, count_missing, fraction}
use fecalia.Telemetry.Loss.Window.{after}
use fecalia.Telemetry.Loss.Fraction.{estimate, Measured, after-Measured}

-- What the tests compute with.
computing : Unit {0}
unfolding new_loss_window clear_slots observe bounds count_missing fraction after estimate
computing = tt

-- 5 and 8 of 5..8 came, then 7 came late; the window starts at 5.
late_fills : (estimate 4 (8 ∷ 5 ∷ []) ≡ some (2, 4)) × (estimate 4 (7 ∷ 8 ∷ 5 ∷ []) ≡ some (1, 4))
unfolding computing
late_fills = (refl, refl)

-- A jump behind the window leaves one number of four.
jumps : estimate 4 (100 ∷ 8 ∷ 5 ∷ []) ≡ some (3, 4)
unfolding computing
jumps = refl

-- At the largest `uint64` the loop of `observe` does not end.
last_number : after 4 (0xffff_ffff_ffff_ffff ∷ 0xffff_ffff_ffff_fffe ∷ []) ≡ none
unfolding computing
last_number = refl

after-Measured_example : Measured 5 (7 ∷ 8 ∷ 5 ∷ []) 4 (estimate 4 (7 ∷ 8 ∷ 5 ∷ []))
after-Measured_example =
    after-Measured 4 7 (8 ∷ 5 ∷ []) (omega arith, (omega arith, (omega arith, tt)))
