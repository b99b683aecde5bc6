-- ===== src/Bond/Codel/Tests.antt =====
-- A queue that stands for an interval, and drops.
use fecalia.Base.{ℕ, ◌≤◌, ◌≡◌, refl, true, false, [], ◌∷◌}
use fecalia.Bond.Codel.{ok_since, ok_to_drop, keep_dropping, start_dropping, drop}
use fecalia.Bond.Codel.Standing.{Dequeue, after, Standing, drop-Standing}

-- What the tests compute with.
computing : Unit {0}
unfolding ok_since ok_to_drop keep_dropping start_dropping drop after
computing = tt

abbrev spacing : ℕ → ℕ → ℕ
spacing interval count = interval

-- A packet that waited 40 ms, at a round trip of 20 ms: the interval is its minimum, 100 ms.
abbrev slow : ℕ → Dequeue
slow at = record { at = at; sojourn = 40000000; remaining = 5; round_trip = 20000000 }

dropped :
    (drop spacing
      (after spacing (slow 50000000 ∷ slow 10000000 ∷ []))
      110000000
      40000000
      5
      20000000).1
    ≡ true
unfolding computing
dropped = refl

kept :
    (drop spacing
      (after spacing (slow 50000000 ∷ slow 10000000 ∷ []))
      109999999
      40000000
      5
      20000000).1
    ≡ false
unfolding computing
kept = refl

drop-Standing_example :
    (ripe : ℕ) × (Standing ripe (slow 110000000 ∷ slow 50000000 ∷ slow 10000000 ∷ [])
      × (ripe ≤ 110000000))
drop-Standing_example =
    drop-Standing spacing (slow 110000000) (slow 50000000 ∷ slow 10000000 ∷ []) dropped
