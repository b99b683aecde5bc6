-- ===== src/Telemetry/Tests.antt =====
-- The replay filters and the liveness machine at concrete runs.
use fecalia.Base.{ℕ, ◌≡◌, refl, ap, true, List, [], ◌∷◌, ◌++◌, map, arith, false}
use fecalia.Telemetry.Replay.{accept_seq, admit_control, ControlGuard, new_guard, put}
use fecalia.Telemetry.Replay.Fresh.{mark, Rising, let_through, let_through-Rising}
use fecalia.Telemetry.Reflector.{
  Reflector, accept_probe, adopt_with, decide_probe, draw_challenge, find_path, judge_current,
  accept_current, new_reflector, open_path, replayed, reflected, adoption,
}
use fecalia.Telemetry.Reflector.Once.{is_taken}
use fecalia.Telemetry.Reflector.Session.{
  Arrival, StaysLive, arrive, arrive_all, accept_probe-replayed,
}
use fecalia.Telemetry.Liveness.{
  up, down, LivenessConfig, Event, echo, tick, after, drive, record_echo, streak_at, tick_at,
  new_liveness,
}
use fecalia.Telemetry.Liveness.Verdict.{
  echoes, Earned, after-Earned, after-silence, after-ride_through,
}

-- What the runs below compute with.
computing : Unit {0}
unfolding let_through admit_control accept_seq put new_guard after drive record_echo streak_at
    tick_at new_liveness accept_probe adopt_with decide_probe draw_challenge find_path judge_current
    accept_current new_reflector open_path arrive arrive_all
computing = tt

abbrev guard : ControlGuard
guard = new_guard (7 ∷ [])

-- A replay of 3, a stale 2 and frames of another type between.
abbrev frames : List (ℕ × ℕ)
frames = (7, 3) ∷ (9, 3) ∷ (7, 3) ∷ (7, 2) ∷ (9, 3) ∷ (7, 5) ∷ []

frames_returns : let_through guard 7 frames ≡ 3 ∷ 5 ∷ []
unfolding computing
frames_returns = refl

guard_secure : guard.secure 7 ≡ true
unfolding computing
guard_secure = refl

let_through-Rising_example : Rising (mark (guard.guards 7)) (let_through guard 7 frames)
let_through-Rising_example = let_through-Rising guard 7 frames guard_secure

three-Rising : Rising (mark (guard.guards 7)) (1 ∷ 4 ∷ 6 ∷ [])
unfolding computing
three-Rising = (tt, (omega arith, (omega arith, tt)))

abbrev config : LivenessConfig
config = record { down_after = 1200; up_after_successes = 3; ride_through = 300 }

-- Three echoes 200 apart, and a tick.
abbrev history : List Event
history = tick 1500 ∷ echo 600 ∷ echo 400 ∷ echo 200 ∷ []

history-up : (after config history).state ≡ up
unfolding computing
history-up = refl

after-Earned_example : Earned (after config history).state 3 1200 (echoes history)
after-Earned_example = after-Earned config history

after-silence_example : (after config (map tick (2400 ∷ []) ++ (tick 2200 ∷ history))).state ≡ down
after-silence_example =
    after-silence config history 600 (400 ∷ 200 ∷ []) 2200 (2400 ∷ []) refl (omega arith)

after-ride_through_example : (after config (map tick (2100 ∷ []) ++ history)).state ≡ up
after-ride_through_example =
    after-ride_through config history 600 (400 ∷ 200 ∷ []) (2100 ∷ []) refl history-up
      (omega arith, tt)

-- The words 5, 8 and 9 are still to be drawn; a probe that echoes 5 adopts its session.
abbrev responder : Reflector
responder = new_reflector (5 ∷ 0 ∷ 8 ∷ 9 ∷ [])

abbrev first : Reflector
first = (accept_probe responder 1 77 3 5).0

adopts : (accept_probe responder 1 77 3 5).1 ≡ reflected 8 adoption false
unfolding computing
adopts = refl

-- A probe of the session, and one of another without the challenge.
abbrev between : List Arrival
between =
    record { path_id = 1; session = 77; seq = 4; echoed = 0 }
    ∷ record { path_id = 1; session = 78; seq = 1; echoed = 5 }
    ∷ []

between_stays : StaysLive 77 1 first between
unfolding computing
between_stays = (refl, (refl, tt))

restarts : (accept_probe (arrive_all first between) 1 78 0 8).1 ≡ reflected 9 adoption true
unfolding computing
restarts = refl

accept_probe-replayed_example :
    (accept_probe (arrive_all (accept_probe responder 1 77 3 5).0 between) 1 77 3 8).1 ≡ replayed
accept_probe-replayed_example =
    accept_probe-replayed responder 1 77 3 5 between 8 (ap is_taken adopts) between_stays
