-- ===== src/Reseq/Machine/Methods.antt =====
-- The other methods of the resequencer keep its invariant: `New`, `Pop`, `RebaselineAt`, `Close`,
-- `SetHoldBound`.
use fecalia.Base.{
  ℕ, ◌+◌, ◌*◌, ◌≤◌, ◌<◌, ◌≡◌, ◌≢◌, refl, sym, ap, ◌∙◌, true, false, Option, List, arith, if_false,
  ltb, le→ltb_false, ◌==◌, length, length-replicate, add64, u64_mod,
}
use mathlib.Core.Path.{subst}
use fecalia.Reseq.Buffer.{Item, zero_slot, Buffer, discard, take_ready, pending}
use fecalia.Reseq.Buffer.Window
use fecalia.Reseq.Buffer.Window.{Carries, occupied_at}
use fecalia.Reseq.Buffer.Release.{empty-absent}
use fecalia.Reseq.Buffer.Place.{
  discard-IsValid, discard-Carries, discard_empty, window-discard, buf-discard, none_occupied,
  zeroed-Fits, zeroed-count,
}
use fecalia.Reseq.Buffer.Fifo.{
  take_ready-frame, take_ready-fifo, Front, put_back-Front, take_ready_lem,
}
use fecalia.Reseq.Hold.{
  Hold, Unelapsed, armed_deadline, clear_held, notify, end_hold, set_hold_bound,
}
use fecalia.Reseq.Guard.{idle_guard, resync_factor}
use fecalia.Reseq.Machine.{Resequencer, new, expire, pop, rebaseline_at}
use fecalia.Reseq.Machine.Invariant.{IsValid, waiting-end_hold}
use fecalia.Reseq.Machine.Expire.{expire_lem}
use fecalia.Reseq.Machine.Observe.{Delivered, Released-Delivered}

module _ (sent : ℕ → List ℕ → Type 0) where
  -- A new resequencer satisfies the invariant, for a window that is not empty and of which four times
  -- the size fits `uint64`.
  pub new-IsValid :
      (window timeout : ℕ)
      → 0 < window
      → resync_factor * window < u64_mod
      → IsValid sent (new window timeout)
  unfolding new
  new-IsValid window timeout pos small =
      let fits = zeroed-Fits window 0 window in
      let b : Window.IsValid (new window timeout).buffer = record {
        pos = pos;
        sized = length-replicate window zero_slot;
        counted = zeroed-count window;
        headroom = omega arith;
        fifo = omega arith;
        fits = fits;
      } in
      record {
        sound = record {
          buffer = b;
          carries = λ i o. absurd (none_occupied window i o);
          covers = λ i o. absurd (none_occupied window i o);
          cursor = omega arith;
          alive = ground arith;
          small = small;
          level = omega arith;
          level_max = omega arith;
          run = omega arith;
        };
        gap = empty-absent b refl 0;
        armed = refl;
        pinned = λ _. (refl, refl);
      }

module _ {sent : ℕ → List ℕ → Type 0} {r : Resequencer} (v : IsValid sent r) where
  -- Only the FIFO has changed.
  refifo-IsValid :
      (l : List Item) (pos : ℕ)
      → pos ≤ length l
      → IsValid sent (record r { buffer = record (r.buffer) { ready = l; ready_pos = pos } })
  refifo-IsValid l pos h =
      let s = v.sound in
      record {
        sound = record {
          buffer = record {
            pos = s.buffer.pos;
            sized = s.buffer.sized;
            counted = s.buffer.counted;
            headroom = s.buffer.headroom;
            fifo = h;
            fits = s.buffer.fits;
          };
          carries = s.carries;
          covers = s.covers;
          cursor = s.cursor;
          alive = s.alive;
          small = s.small;
          level = s.level;
          level_max = s.level_max;
          run = s.run;
        };
        gap = v.gap;
        armed = v.armed;
        pinned = v.pinned;
      }

  -- Only the hold has changed, and it waits as before.
  rehold-IsValid : (h : Hold) → h.waiting ≡ r.hold.waiting → IsValid sent (record r { hold = h })
  rehold-IsValid h e =
      let s = v.sound in
      record {
        sound = record {
          buffer = s.buffer;
          carries = s.carries;
          covers = s.covers;
          cursor = s.cursor;
          alive = s.alive;
          small = s.small;
          level = s.level;
          level_max = s.level_max;
          run = s.run;
        };
        gap = v.gap;
        armed = e ∙ v.armed;
        pinned = v.pinned;
      }

  -- `SetHoldBound` keeps the invariant.
  pub set_hold_bound-IsValid : (d : ℕ) → IsValid sent (record r { hold = set_hold_bound r.hold d })
  unfolding set_hold_bound
  set_hold_bound-IsValid d = rehold-IsValid (set_hold_bound r.hold d) refl

  -- `RebaselineAt` at a sequence that is not zero, and a window from the end of `uint64`, keeps the
  -- invariant, empties the buffer and pins the release point.
  pub rebaseline_at-IsValid :
      (next now : ℕ)
      → next ≢ 0
      → next + r.buffer.window ≤ u64_mod
      → IsValid sent (rebaseline_at r next now)
        × ((rebaseline_at r next now).buffer ≡ discard r.buffer next)
        × ((rebaseline_at r next now).started ≡ true)
  unfolding rebaseline_at
  rebaseline_at-IsValid next now nz room =
      let s = v.sound in
      let b = discard r.buffer next in
      let w = discard-IsValid next s.buffer room in
      let none_left = buf-discard r.buffer next in
      let idle : ltb 0 b.buf ≡ false = le→ltb_false 0 b.buf (omega (arith, none_left)) in
      let t : Resequencer = record r {
        buffer = b;
        held = clear_held r.held;
        started = true;
        hold = notify (end_hold r.hold now);
        guard = idle_guard;
        rebaselines = add64 r.rebaselines 1;
      } in
      let valid : IsValid sent t = record {
        sound = record {
          buffer = w;
          carries = discard-Carries sent r.buffer next;
          covers = λ i o. absurd (discard_empty r.buffer next i o);
          cursor = omega arith;
          alive = s.alive;
          small = omega (arith, s.small, window-discard r.buffer next);
          level = omega (arith, none_left);
          level_max = omega (arith, s.level_max, window-discard r.buffer next);
          run = omega arith;
        };
        gap = empty-absent w none_left _;
        armed = waiting-end_hold r.hold now ∙ sym idle;
        pinned = λ e. cc e;
      } in
      let other : (next == 0) ≡ false = ground arith in
      subst (λ (x : Resequencer). IsValid sent x × (x.buffer ≡ b) × (x.started ≡ true))
        (sym (if_false (next == 0) _ _ other)) (valid, refl, refl)

-- What a call of `Pop` does.
pub record Popped (sent : ℕ → List ℕ → Type 0) (r : Resequencer) (o : Resequencer × Option Item)
    : Type 0 where
  pub valid : IsValid sent o.0
  pub mid : Buffer
  pub delivered : Delivered sent r.buffer mid
  pub front : Front o.1 (pending mid) (pending o.0.buffer)
  pub next : o.0.buffer.next ≡ mid.next
  pub resyncs : o.0.resyncs ≡ r.resyncs

-- In a valid state `Pop` keeps the invariant, gives up the elapsed gaps, and returns the oldest
-- released frame, none only where nothing is pending; no elapsed hold is left.
pub pop_lem :
    {sent : ℕ → List ℕ → Type 0} {r : Resequencer} (now : ℕ)
    → IsValid sent r
    → Popped sent r (pop r now) × Unelapsed now (armed_deadline (pop r now).0.hold)
unfolding pop
pop_lem {sent} {r} now v =
    let e = expire r now in
    let (p, w, t) = expire_lem now v in
    let frame = take_ready-frame e.buffer in
    let b = (take_ready e.buffer).0 in
    let fifo = take_ready-fifo e.buffer w.sound.buffer.fifo in
    let (f, n) = take_ready_lem e.buffer in
    (
      record {
        valid =
            subst (λ (x : Buffer). IsValid sent (record e { buffer = x })) frame
              (refifo-IsValid w b.ready b.ready_pos fifo);
        mid = e.buffer;
        delivered = Released-Delivered p.released;
        front = put_back-Front _ _ _ f n;
        next = ap (λ (x : Buffer). x.next) (sym frame);
        resyncs = p.resyncs;
      },
      t,
    )
