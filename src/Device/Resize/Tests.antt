-- ===== src/Device/Resize/Tests.antt =====
-- The resizer over two paths.
use fecalia.Base.{ℕ, ◌≡◌, ◌≤◌, ◌<◌, ◌-◌, refl, Bool, true, some, List, [], ◌∷◌, ltb→lt}
use fecalia.Telemetry.Liveness.{down, up}
use fecalia.Bond.{inner_mtu}
use fecalia.Device.Resize.{
  Sample, min_from, min_inner_mtu, new_resizer, apply_target, await, resize, decide_for, decide_mtu,
  recompute, configured, effective_mtu, add_sample, samples_from, sample_mtu,
}
use fecalia.Device.Resize.History.{Observation, after, Steady, after_grows}

-- What the tests compute with.
computing : Unit {0}
unfolding inner_mtu min_from min_inner_mtu new_resizer apply_target await resize decide_for
    decide_mtu recompute configured effective_mtu add_sample samples_from sample_mtu after
computing = tt

abbrev wide : Sample
wide = record { state = up; pmtu = 1500 }

abbrev narrow : Sample
narrow = record { state = up; pmtu = 1400 }

abbrev both : List Sample
both = narrow ∷ wide ∷ []

abbrev willing : ℕ → Bool
willing _ = true

-- A smaller MTU is set at once.
tightens_at_once :
    (recompute willing (new_resizer (inner_mtu 1500) 10) 3 both).1 ≡ some (inner_mtu 1400)
unfolding computing
tightens_at_once = refl

-- The second entry of a path keeps its place, and makes it up.
samples_two_peers :
    sample_mtu [] 0 (
      record { name = 1; state = down; pmtu = 0 }
      ∷ record { name = 2; state = up; pmtu = 1400 }
      ∷ record { name = 1; state = up; pmtu = 1300 }
      ∷ [])
    ≡ wide ∷ narrow ∷ []
unfolding computing
samples_two_peers = refl

abbrev observed : ℕ → Observation
observed at = record { at = at; samples = wide ∷ []; answers = willing }

grew :
    (after 1000 10 (observed 5 ∷ [])).applied
    < (after 1000 10 (observed 17 ∷ observed 5 ∷ [])).applied
unfolding computing
grew = ltb→lt _ _ refl

after_grows_example :
    (since : ℕ) × (Steady
        (after 1000 10 (observed 17 ∷ observed 5 ∷ [])).applied
        since
        (observed 17 ∷ observed 5 ∷ [])
      × (10 ≤ 17 - since))
after_grows_example = after_grows 1000 10 (observed 17) (observed 5 ∷ []) grew
