-- ===== src/Reseq/Buffer.antt =====
-- The ring, the release point and the FIFO of released items of internal/reseq/reseq.go, and the
-- loops that release and skip. The fields of the Go struct stand in four groups, of which `Buffer`
-- is one; each name is the source's. Times are nanoseconds of the injected clock.
use fecalia.Base.{
  ℕ, zero, suc, ◌+◌, ◌-◌, ◌%◌, Bool, true, false, ◌&&◌, Option, none, some, List, [], ◌∷◌, ◌++◌,
  ltb, leb, ◌==◌, if◌then◌else◌, get_or, set, length, drop, replicate, add64,
}
pub mod Window
pub mod Step
pub mod Release
pub mod Advance
pub mod Reference
pub mod Smallest
pub mod Place
pub mod Fifo

-- A released datagram. The payload is its bytes, the source an address in some coding.
pub record Item : Type 0 where
  pub payload : List ℕ
  pub src : ℕ

pub record Slot : Type 0 where
  pub seq : ℕ
  pub src : ℕ
  pub payload : List ℕ
  pub observed_at : ℕ
  pub occupied : Bool

-- The zero values `slot{}` and `Item{}`.
abbrev pub zero_slot : Slot
zero_slot = record { seq = 0; src = 0; payload = []; observed_at = 0; occupied = false }

abbrev pub zero_item : Item
zero_item = record { payload = []; src = 0 }

pub record Buffer : Type 0 where
  pub window : ℕ
  pub next : ℕ
  pub ring : List Slot
  pub buf : ℕ
  pub ready : List Item
  pub ready_pos : ℕ
  pub skipped : ℕ
  pub released_n : ℕ

-- `r.ring[seq%r.window]`.
abbrev pub cell : Buffer → ℕ → Slot
cell b seq = get_or b.ring (seq % b.window) zero_slot

-- `cell.occupied && cell.seq == seq`, for the cell of `seq`.
abbrev pub present : Buffer → ℕ → Bool
present b seq = (cell b seq).occupied && (cell b seq).seq == seq

abbrev pub clear : Slot → Slot
clear c = record c { occupied = false; payload = []; observed_at = 0 }

-- `release`: the cell of `seq` goes to the ready FIFO and is cleared. `r.buf--` runs on an occupied
-- cell, which `buf` counts.
unfoldable pub release : Buffer → ℕ → Buffer
release b seq =
    let c = cell b seq in
    record b {
      ready = b.ready ++ (record { payload = c.payload; src = c.src } ∷ []);
      ring = set b.ring (seq % b.window) (clear c);
      buf = b.buf - 1;
      released_n = add64 b.released_n 1;
    }

-- One turn of the loop of `drain`: `r.release(cell); r.next++`.
unfoldable pub release_head : Buffer → Buffer
unfolding release
release_head b = let r = release b b.next in record r { next = add64 r.next 1 }

-- The loop of `drain`, which ends by its test. Each turn empties a cell, so `window` turns are
-- enough.
unfoldable pub drain_loop : ℕ → Buffer → Buffer
drain_loop zero b = b
drain_loop (suc fuel) b = elim (present b b.next) [
  | true ↦ drain_loop fuel (release_head b)
  | false ↦ b
]

unfoldable pub drain : Buffer → Buffer
drain b = drain_loop b.window b

-- One turn of the loop of `advanceTo`: release or skip the head.
unfoldable pub advance_step : Buffer → Buffer
unfolding release
advance_step b =
    let r =
      if present b b.next then release b b.next else (record b { skipped = add64 b.skipped 1 }) in
    record r { next = add64 r.next 1 }

-- `for r.next < limit`, which makes `limit - next` turns.
unfoldable pub advance_loop : ℕ → Buffer → Buffer
advance_loop zero b = b
advance_loop (suc n) b = advance_loop n (advance_step b)

-- The gap that is closed by arithmetic: `if r.next < target { … }`.
unfoldable pub skip_to : Buffer → ℕ → Buffer
skip_to b target =
    if ltb b.next target
    then (record b { skipped = add64 b.skipped (target - b.next); next = target })
    else b

unfoldable pub advance_limit : Buffer → ℕ → ℕ
advance_limit b target =
    if ltb (add64 b.next b.window) target then add64 b.next b.window else target

unfoldable pub advance_to : Buffer → ℕ → Buffer
advance_to b target = skip_to (advance_loop (advance_limit b target - b.next) b) target

-- `!found || c.seq < best`.
abbrev pub better : Option ℕ → ℕ → Bool
better none s = true
better (some m) s = ltb s m

-- One turn of the scan of `smallestBuffered`: `best` and `found` are one option.
unfoldable pub pick : ℕ → Option ℕ → Slot → Option ℕ
pick next best c = if c.occupied && (leb next c.seq && better best c.seq) then some c.seq else best

unfoldable pub smallest_from : ℕ → Option ℕ → List Slot → Option ℕ
unfolding pick
smallest_from next best [] = best
smallest_from next best (c ∷ cs) = smallest_from next (pick next best c) cs

unfoldable pub smallest_buffered : Buffer → Option ℕ
unfolding smallest_from
smallest_buffered b = smallest_from b.next none b.ring

-- `for i := range r.ring { r.ring[i] = slot{} }; r.buf = 0; r.next = base`, of `resync` and
-- `RebaselineAt`.
unfoldable pub discard : Buffer → ℕ → Buffer
discard b base = record b { ring = replicate (length b.ring) zero_slot; buf = 0; next = base }

-- The cell of `Observe`: the frame is written into its place.
unfoldable pub place : Buffer → Slot → Buffer
place b c = record b { ring = set b.ring (c.seq % b.window) c; buf = b.buf + 1 }

-- The FIFO from the read cursor on.
unfoldable pub pending : Buffer → List Item
pending b = drop b.ready_pos b.ready

-- `Pop`, without its call of `expire`.
unfoldable pub take_ready : Buffer → Buffer × Option Item
take_ready b = if leb (length b.ready) b.ready_pos then (b, none) else (
  if leb (length b.ready) (b.ready_pos + 1)
      then (record b { ready = []; ready_pos = 0 })
      else (record b { ready = set b.ready b.ready_pos zero_item; ready_pos = b.ready_pos + 1 }),
  some (get_or b.ready b.ready_pos zero_item),
)
