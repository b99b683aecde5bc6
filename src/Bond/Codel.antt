-- ===== src/Bond/Codel.antt =====
-- The drop schedule of the bulk queue, `codel` of internal/bond/queue.go. Times and durations are
-- nanoseconds; `firstAbove` is none where the source has the zero time. The quotient by a square
-- root that `controlLaw` takes in floating point is the parameter `spacing`, of the interval and
-- the count.
use fecalia.Base.{
  ℕ, ◌+◌, ◌-◌, ◌*◌, ◌≤◌, ◌<◌, min, max, Bool, true, false, not, ◌&&◌, ◌||◌, Option, none, some, ltb,
  ◌==◌, if◌then◌else◌,
}
pub mod Standing
pub mod Tests

abbrev pub codel_min_target : ℕ
codel_min_target = 10000000

abbrev pub codel_max_target : ℕ
codel_max_target = 100000000

abbrev pub codel_min_interval : ℕ
codel_min_interval = 100000000

pub record Codel : Type 0 where
  pub target : ℕ
  pub interval : ℕ
  pub first_above : Option ℕ
  pub drop_next : ℕ
  pub count : ℕ
  pub last_count : ℕ
  pub dropping : Bool

-- The zero value.
abbrev pub new_codel : Codel
new_codel = record {
  target = 0;
  interval = 0;
  first_above = none;
  drop_next = 0;
  count = 0;
  last_count = 0;
  dropping = false;
}

abbrev pub codel_target : ℕ → ℕ
codel_target round_trip = min codel_max_target (max codel_min_target round_trip)

abbrev pub codel_interval : ℕ → ℕ
codel_interval round_trip = max codel_min_interval (2 * (round_trip + codel_target round_trip))

unfoldable pub ok_since : Codel → ℕ → Option ℕ → Codel × Bool
ok_since c now none = (record c { first_above = some (now + c.interval) }, false)
ok_since c now (some above) = (c, not (ltb now above))

-- `okToDrop`.
unfoldable pub ok_to_drop : Codel → ℕ → ℕ → ℕ → Codel × Bool
unfolding ok_since
ok_to_drop c now sojourn remaining =
    if ltb sojourn c.target || remaining == 0
    then (record c { first_above = none }, false)
    else ok_since c now c.first_above

-- `controlLaw`.
abbrev pub control_law : (ℕ → ℕ → ℕ) → Codel → ℕ → ℕ
control_law spacing c t = t + spacing c.interval c.count

abbrev pub with_count : Codel → ℕ → Codel
with_count c n = record c { count = n }

-- The rest of `drop` while it drops.
unfoldable pub keep_dropping : (ℕ → ℕ → ℕ) → Codel → ℕ → Bool → Codel × Bool
keep_dropping spacing c now ok =
    if not ok
    then (record c { dropping = false }, false)
    else (if ltb now c.drop_next
        then (c, false)
        else (let d = with_count c (c.count + 1) in
            (record d { drop_next = control_law spacing d c.drop_next }, true)))

-- The rest of `drop` while it does not.
unfoldable pub start_dropping : (ℕ → ℕ → ℕ) → Codel → ℕ → Bool → Codel × Bool
start_dropping spacing c now ok =
    if not ok
    then (c, false)
    else (let delta = c.count - c.last_count in
        let n = if ltb 1 delta && ltb (now - c.drop_next) (16 * c.interval) then delta else 1 in
        let d = with_count c n in
        (record d { dropping = true; last_count = n; drop_next = control_law spacing d now }, true))

-- `drop`: the state, and whether the packet is discarded.
unfoldable pub drop : (ℕ → ℕ → ℕ) → Codel → ℕ → ℕ → ℕ → ℕ → Codel × Bool
unfolding ok_to_drop keep_dropping start_dropping
drop spacing c now sojourn remaining round_trip =
    let tuned = record c {
      target = codel_target round_trip;
      interval = codel_interval round_trip;
    } in
    let (d, ok) = ok_to_drop tuned now sojourn remaining in
    if d.dropping then keep_dropping spacing d now ok else start_dropping spacing d now ok
