-- ===== src/Reseq/Machine.antt =====
-- The `Resequencer` of internal/reseq/reseq.go and its methods. Each method takes the lock for its
-- whole body, so it is one function on the state; the clock's answer is the argument `now`. A
-- `panic` sets the field `panicked`.
use fecalia.Base.{
  ℕ, zero, suc, ◌+◌, ◌-◌, ◌%◌, Bool, true, false, ◌&&◌, not, Option, none, some, List, [], ◌∷◌,
  ◌++◌, ltb, leb, ◌==◌, if◌then◌else◌, replicate, add64, mul64,
}
use fecalia.Reseq.Buffer.{
  Item, Slot, zero_slot, Buffer, cell, present, drain, advance_to, smallest_buffered, discard,
  place, take_ready,
}
use fecalia.Reseq.Hold
use fecalia.Reseq.Hold.{
  Held, Hold, clear_held, oldest_buffered_observation, notify, start_hold, end_hold,
}
use fecalia.Reseq.Guard.{Guard, resync_factor, idle_guard, collect}
pub mod Invariant
pub mod Expire
pub mod Admit
pub mod Observe
pub mod Outcome
pub mod Methods
pub mod Trace

pub record Resequencer : Type 0 where
  pub started : Bool
  pub buffer : Buffer
  pub held : Held
  pub hold : Hold
  pub guard : Guard
  pub high_water : ℕ
  pub drop_dup : ℕ
  pub drop_late : ℕ
  pub drop_suspect : ℕ
  pub resyncs : ℕ
  pub rebaselines : ℕ
  pub panicked : Bool

-- `New`: an empty window is a panic.
unfoldable pub new : ℕ → ℕ → Resequencer
new window timeout = record {
  started = false;
  buffer = record {
    window = window;
    next = 0;
    ring = replicate window zero_slot;
    buf = 0;
    ready = [];
    ready_pos = 0;
    skipped = 0;
    released_n = 0;
  };
  held = record { held = []; held_pos = 0; hold_slot_visits = 0 };
  hold = record {
    timeout = timeout;
    hold_bound = 0;
    waiting = false;
    deadline = 0;
    armed_at = 0;
    armed_window = 0;
    holds = 0;
    hold_nanos = 0;
    deadline_wakeups = 0;
    gap_fills = 0;
    has_notifier = false;
    notified = 0;
    closed = false;
  };
  guard = idle_guard;
  high_water = 0;
  drop_dup = 0;
  drop_late = 0;
  drop_suspect = 0;
  resyncs = 0;
  rebaselines = 0;
  panicked = window == 0;
}

-- The arming branch of `arm`: the deadline runs from the oldest observation; none is a panic.
unfoldable pub start : Resequencer → ℕ → Held × Option ℕ → Resequencer
start r now (h, none) = record r { held = h; panicked = true }
start r now (h, some t) = record r { held = h; hold = start_hold r.hold t now }

unfoldable pub arm : Resequencer → ℕ → Resequencer
unfolding start
arm r now =
    if not (present r.buffer r.buffer.next) && ltb 0 r.buffer.buf
    then (if r.hold.waiting then r else start r now (oldest_buffered_observation r.buffer r.held))
    else (record r { hold = end_hold r.hold now })

-- `if r.next < minSeq { r.skipped += minSeq - r.next; r.next = minSeq }`.
unfoldable pub skip_gap : Buffer → ℕ → Buffer
skip_gap b m =
    if ltb b.next m then (record b { skipped = add64 b.skipped (m - b.next); next = m }) else b

-- The rest of a turn of `expire` once the smallest buffered sequence is known.
unfoldable pub expire_gap : Resequencer → ℕ → ℕ → Resequencer
unfolding arm skip_gap
expire_gap r now m =
    arm (record r { buffer = drain (skip_gap r.buffer m); hold = end_hold r.hold now }) now

abbrev pub count_wakeup : Resequencer → Resequencer
count_wakeup r = record r {
  hold = record (r.hold) { deadline_wakeups = add64 r.hold.deadline_wakeups 1 };
}

-- The loop of `expire`. Each turn that goes on releases a frame, so one turn more than there are
-- buffered frames is enough.
unfoldable pub expire_loop : ℕ → ℕ → Resequencer → Resequencer
unfolding expire_gap
expire_loop zero now r = r
expire_loop (suc fuel) now r = elim (r.hold.waiting && not (ltb now r.hold.deadline)) [
  | false ↦ r
  | true ↦ elim (smallest_buffered r.buffer) [
    | none ↦ record (count_wakeup r) { hold = end_hold (count_wakeup r).hold now }
    | some m ↦ expire_loop fuel now (expire_gap (count_wakeup r) now m)
  ]
]

unfoldable pub expire : Resequencer → ℕ → Resequencer
expire r now = expire_loop (suc r.buffer.buf) now r

-- `resync`.
unfoldable pub resync : Resequencer → ℕ → ℕ → Resequencer
resync r base now = record r {
  buffer = discard r.buffer base;
  held = clear_held r.held;
  hold = end_hold r.hold now;
  guard = idle_guard;
  resyncs = add64 r.resyncs 1;
}

-- The two suspect branches of `admit`: `if r.tryResync(seq, now) { return true }; r.dropSuspect++`.
unfoldable pub suspect : Resequencer → ℕ → ℕ → Resequencer × Bool
unfolding resync
suspect r seq now =
    let (g, corroborated) = collect r.guard r.buffer.window seq in
    if corroborated
    then (resync (record r { guard = g }) seq now, true)
    else (record r { guard = g; drop_suspect = add64 r.drop_suspect 1 }, false)

unfoldable pub admit : Resequencer → ℕ → ℕ → Resequencer × Bool
unfolding suspect
admit r seq now =
    let b = r.buffer in
    if ltb seq b.next
    then (if ltb b.window (b.next - seq)
        then suspect r seq now
        else (record r { guard = idle_guard; drop_late = add64 r.drop_late 1 }, false))
    else (if leb (mul64 resync_factor b.window) (seq - b.next)
        then suspect r seq now
        else (if leb b.window (seq - b.next)
            then (
              record r {
                guard = idle_guard;
                hold = end_hold r.hold now;
                buffer = advance_to b (add64 (seq - b.window) 1);
              },
              true,
            )
            else (record r { guard = idle_guard }, true)))

-- `Observe` from the write of the cell on.
unfoldable pub accept : Resequencer → ℕ → List ℕ → ℕ → ℕ → Resequencer
unfolding arm
accept r seq payload src now =
    let fills_gap = r.hold.waiting && seq == r.buffer.next in
    let slot : Slot = record {
      seq = seq;
      src = src;
      payload = payload;
      observed_at = now;
      occupied = true;
    } in
    let placed = place r.buffer slot in
    arm
      (record r {
        buffer = drain placed;
        held =
            if seq == r.buffer.next
            then r.held
            else (record (r.held) { held = r.held.held ++ (seq ∷ []) });
        high_water = if ltb r.high_water placed.buf then placed.buf else r.high_water;
        hold =
            if fills_gap
            then end_hold (record (r.hold) { gap_fills = add64 r.hold.gap_fills 1 }) now
            else r.hold;
      })
      now

-- `if !r.started { r.started = true; r.next = seq }`.
unfoldable pub pin : Resequencer → ℕ → Resequencer
pin r seq =
    if r.started
    then r
    else (record r { started = true; buffer = record (r.buffer) { next = seq } })

-- What `Observe` does with an admitted sequence, the duplicate included.
unfoldable pub observe_admitted : Resequencer → ℕ → List ℕ → ℕ → ℕ → Resequencer × Bool
unfolding accept
observe_admitted r seq payload src now =
    if present r.buffer seq
    then (record r { drop_dup = add64 r.drop_dup 1 }, false)
    else (accept r seq payload src now, true)

unfoldable pub observe : Resequencer → ℕ → List ℕ → ℕ → ℕ → Resequencer × Bool
unfolding pin expire admit observe_admitted
observe r seq payload src now =
    let (a, admitted) = admit (expire (pin r seq) now) seq now in
    if admitted then observe_admitted a seq payload src now else (a, false)

unfoldable pub pop : Resequencer → ℕ → Resequencer × Option Item
unfolding expire
pop r now =
    let e = expire r now in let (b, it) = take_ready e.buffer in (record e { buffer = b }, it)

-- `RebaselineAt`; a zero sequence is a panic.
unfoldable pub rebaseline_at : Resequencer → ℕ → ℕ → Resequencer
rebaseline_at r next now = if next == 0 then (record r { panicked = true }) else (record r {
  buffer = discard r.buffer next;
  held = clear_held r.held;
  started = true;
  hold = notify (end_hold r.hold now);
  guard = idle_guard;
  rebaselines = add64 r.rebaselines 1;
})
