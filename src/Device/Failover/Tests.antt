-- ===== src/Device/Failover/Tests.antt =====
-- A peer with a literal endpoint and a name of two addresses.
use fecalia.Base.{◌+◌, ◌%◌, ◌≡◌, refl, true, false, ◌||◌, some, List, [], ◌∷◌, leb, arith}
use fecalia.Telemetry.Liveness.{PathState, down, up}
use fecalia.Device.Failover.{
  Failover, flat_from, flat, flat_len, position_from, entry_at, new_hub_failover, contains_addr,
  reconcile, update_resolution, select_next, check_single, check_down, check_failover,
}
use fecalia.Device.Failover.Cycle.{IsCycling, check_all, check_all_lem}
use fecalia.Device.Failover.Quiet.{Resolved, update_resolution-Resolved}
use fecalia.Device.Failover.History.{Start, Event, checks, after}
use fecalia.Device.Failover.Outage.{Judged, check_failover-Judged}

-- What the tests compute with.
computing : Unit {0}
unfolding flat_from flat position_from new_hub_failover contains_addr reconcile update_resolution
    select_next check_single check_down check_failover check_all after
computing = tt

abbrev pub peer : Failover
peer =
    new_hub_failover
      (record { is_name = false; addrs = 10 ∷ [] }
        ∷ record { is_name = true; addrs = 20 ∷ 21 ∷ [] }
        ∷ [])
      5 0

abbrev pub dark : List PathState
dark = down ∷ down ∷ []

-- After two checks the second address of the name is active; a third completes the round.
turns : (check_all peer dark (6 ∷ 12 ∷ [])).active ≡ some (1, 21)
unfolding computing
turns = refl

peer-IsCycling : IsCycling peer dark 0
unfolding computing
peer-IsCycling = record {
  lost = refl;
  total = omega arith;
  distinct = ((refl, (refl, tt)), ((refl, tt), (tt, tt)));
  inside = omega arith;
  active = refl;
  advances = omega arith;
}

check_all_lem_example :
    ((check_all peer dark (6 ∷ 12 ∷ 18 ∷ [])).active
      ≡ entry_at peer.specs ((0 + 3) % flat_len peer.specs))
    × ((check_all peer dark (6 ∷ 12 ∷ 18 ∷ [])).exhausted_latched
        ≡ (peer.exhausted_latched || leb (flat_len peer.specs) (peer.down_advances + 3)))
unfolding new_hub_failover
check_all_lem_example =
    check_all_lem peer dark 0 (6 ∷ 12 ∷ 18 ∷ []) peer-IsCycling
      (omega arith, (omega arith, (omega arith, tt)))

abbrev alone : Start
alone = record { specs = record { is_name = false; addrs = 10 ∷ [] } ∷ []; settle = 5; boot = 0 }

-- An outage at 3, a recovery at 9 and an outage at 12.
abbrev outages : List Event
outages = checks dark 12 ∷ checks (up ∷ down ∷ []) 9 ∷ checks dark 3 ∷ []

-- The second outage has its own onset.
onsets :
    ((check_failover (after alone outages) dark 16).2 ≡ false)
    × ((check_failover (after alone outages) dark 17).2 ≡ true)
unfolding computing
onsets = (refl, refl)

check_failover-Judged_example :
    Judged alone outages
      (after alone outages)
      dark
      17
      (check_failover (after alone outages) dark 17)
check_failover-Judged_example = check_failover-Judged alone outages dark 17

update_resolution-Resolved_example :
    Resolved peer 1 (21 ∷ []) (update_resolution peer 3 1 (21 ∷ []))
update_resolution-Resolved_example = update_resolution-Resolved peer 3 1 (21 ∷ [])
