-- ===== src/Telemetry/Liveness.antt =====
-- The up/down machine of a path, of internal/telemetry/liveness.go. Times and durations are
-- nanoseconds, the clock's answer is an argument, and logging is left out.
use fecalia.Base.{
  ℕ, zero, suc, ◌+◌, ◌-◌, ◌<◌, ◌≤◌, ◌≡◌, Bool, true, false, ◌&&◌, List, [], ◌∷◌, ltb, leb,
  if◌then◌else◌,
}
pub mod Verdict

pub data PathState : Type 0 where
  down up : PathState

abbrev pub is_up : PathState → Bool
is_up down = false
is_up up = true

abbrev pub is_down : PathState → Bool
is_down down = true
is_down up = false

pub record LivenessConfig : Type 0 where
  pub down_after : ℕ
  pub up_after_successes : ℕ
  pub ride_through : ℕ

pub record Liveness : Type 0 where
  pub cfg : LivenessConfig
  pub state : PathState
  pub last_good : ℕ
  pub have_good : Bool
  pub good_streak : ℕ

-- `NewLiveness`.
unfoldable pub new_liveness : LivenessConfig → Liveness
new_liveness cfg = record {
  cfg = cfg;
  state = down;
  last_good = 0;
  have_good = false;
  good_streak = 0;
}

-- The streak that an echo goes on with: silence breaks it.
unfoldable pub streak_at : Liveness → ℕ → ℕ
streak_at l now =
    if l.have_good && ltb l.cfg.down_after (now - l.last_good) then 0 else l.good_streak

-- `RecordEcho`.
unfoldable pub record_echo : Liveness → ℕ → Liveness
unfolding streak_at
record_echo l now =
    let streak = streak_at l now + 1 in
    record l {
      last_good = now;
      have_good = true;
      good_streak = streak;
      state = if is_down l.state && leb l.cfg.up_after_successes streak then up else l.state;
    }

-- `Tick`.
unfoldable pub tick_at : Liveness → ℕ → Liveness
tick_at l now =
    if l.have_good
    then (let silence = now - l.last_good in
        if is_up l.state && ltb (l.cfg.down_after + l.cfg.ride_through) silence
        then (record l { good_streak = 0; state = down })
        else (if is_down l.state && ltb l.cfg.down_after silence
            then (record l { good_streak = 0 })
            else l))
    else l

-- What drives the machine, each at its time; a history has the newest first.
pub data Event : Type 0 where
  echo tick : ℕ → Event

unfoldable pub drive : Liveness → Event → Liveness
unfolding record_echo tick_at
drive l (echo now) = record_echo l now
drive l (tick now) = tick_at l now

unfoldable pub after : LivenessConfig → List Event → Liveness
unfolding drive new_liveness
after cfg [] = new_liveness cfg
after cfg (e ∷ es) = drive (after cfg es) e
