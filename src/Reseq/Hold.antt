-- ===== src/Reseq/Hold.antt =====
-- The head-of-line hold of internal/reseq/reseq.go: the list of arrivals behind a gap (`held`), and
-- the deadline of the gap at the release point. Times are nanoseconds of the injected clock.
use fecalia.Base.{
  ℕ, ◌+◌, ◌-◌, ◌/◌, ◌<◌, Bool, true, false, ◌&&◌, Option, none, some, List, [], ◌∷◌, ltb, leb, ◌==◌,
  if◌then◌else◌, length, drop, add64,
}
use fecalia.Reseq.Buffer.{Buffer, cell, present}
pub mod Arrivals
pub mod Bound

-- `const holdBoundFloor = 10 * time.Millisecond`.
abbrev pub hold_bound_floor : ℕ
hold_bound_floor = 10_000_000

pub record Held : Type 0 where
  pub held : List ℕ
  pub held_pos : ℕ
  pub hold_slot_visits : ℕ

-- `r.held, r.heldPos = r.held[:0], 0`.
abbrev pub clear_held : Held → Held
clear_held h = record h { held = []; held_pos = 0 }

-- What was passed over is dropped once it is most of the list.
unfoldable pub compact : Held → Held
compact h =
    if ltb (length h.held / 2) h.held_pos
    then (record h { held = drop h.held_pos h.held; held_pos = 0 })
    else h

-- The loop of `oldestBufferedObservation`, over the arrivals from `heldPos` on.
unfoldable pub oldest_from : Buffer → Held → List ℕ → Held × Option ℕ
oldest_from b h [] = (clear_held h, none)
oldest_from b h (seq ∷ l) =
    let seen = record h { hold_slot_visits = add64 h.hold_slot_visits 1 } in
    let rest = oldest_from b (record seen { held_pos = h.held_pos + 1 }) l in
    if present b seq && leb b.next seq then (compact seen, some (cell b seq).observed_at) else rest

unfoldable pub oldest_buffered_observation : Buffer → Held → Held × Option ℕ
oldest_buffered_observation b h = oldest_from b h (drop h.held_pos h.held)

-- `hold_bound` is 0 while it is unset; `notified` counts the calls of the callback, which is set if
-- `has_notifier`.
pub record Hold : Type 0 where
  pub timeout : ℕ
  pub hold_bound : ℕ
  pub waiting : Bool
  pub deadline : ℕ
  pub armed_at : ℕ
  pub armed_window : ℕ
  pub holds : ℕ
  pub hold_nanos : ℕ
  pub deadline_wakeups : ℕ
  pub gap_fills : ℕ
  pub has_notifier : Bool
  pub notified : ℕ
  pub closed : Bool

-- `SetHoldBound`: the floor first, then the cap.
unfoldable pub set_hold_bound : Hold → ℕ → Hold
set_hold_bound h d =
    let d' = if ltb d hold_bound_floor then hold_bound_floor else d in
    record h { hold_bound = if ltb h.timeout d' then h.timeout else d' }

-- `SetNotifier`: whether the callback is set.
unfoldable pub set_notifier : Hold → Bool → Hold
set_notifier h on = record h { has_notifier = on }

-- `notifyLocked`.
abbrev pub notify : Hold → Hold
notify h = record h { notified = if h.has_notifier then h.notified + 1 else h.notified }

-- `effectiveHoldLocked`.
unfoldable pub effective_hold : Hold → ℕ
effective_hold h = if h.hold_bound == 0 then h.timeout else h.hold_bound

-- `ArmedDeadline`.
unfoldable pub armed_deadline : Hold → Option ℕ
armed_deadline h = if h.waiting then some h.deadline else none

-- No deadline, or one to come.
abbrev pub Unelapsed : ℕ → Option ℕ → Type 0
Unelapsed now none = Unit
Unelapsed now (some t) = now < t

-- `endHoldLocked`.
unfoldable pub end_hold : Hold → ℕ → Hold
end_hold h now =
    if h.waiting
    then notify (record h {
      hold_nanos =
          if ltb h.armed_at now then add64 h.hold_nanos (now - h.armed_at) else h.hold_nanos;
      waiting = false;
      armed_window = 0;
    })
    else h

-- The armed branch of `arm`, from the oldest observation of a buffered frame on.
unfoldable pub start_hold : Hold → ℕ → ℕ → Hold
unfolding effective_hold
start_hold h observed_at now =
    let hold = effective_hold h in
    notify (record h {
      waiting = true;
      deadline = observed_at + hold;
      armed_at = now;
      armed_window = hold;
      holds = add64 h.holds 1;
    })

-- `Close`.
unfoldable pub close : Hold → ℕ → Hold
unfolding end_hold
close h now = if h.closed then h else notify (end_hold (record h { closed = true }) now)
