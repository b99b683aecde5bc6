-- ===== src/Reseq/Hold/Bound.antt =====
-- The bound that `SetHoldBound` installs, and the hold that `arm` applies under it.
use fecalia.Base.{ℕ, ◌≡◌, min, max, arith}
use fecalia.Reseq.Hold.{Hold, hold_bound_floor, set_hold_bound, effective_hold}

-- Whatever bound is asked for, the hold that applies is that bound, raised to the floor and then
-- cut to the timeout.
pub effective_hold-set_hold_bound :
    (h : Hold) (d : ℕ)
    → effective_hold (set_hold_bound h d) ≡ min h.timeout (max hold_bound_floor d)
unfolding effective_hold set_hold_bound
effective_hold-set_hold_bound h d = ground arith
