-- ===== src/Reseq/Machine/Invariant.antt =====
-- What holds of a resequencer between two calls, and that arming its hold establishes it.
use fecalia.Base.{
  ℕ, ◌*◌, ◌≤◌, ◌<◌, ◌≡◌, inl, inr, refl, sym, ap, ◌∙◌, Bool, true, false, Option, none, some, List,
  arith, Bool-cases, ltb, lt→ltb, le→ltb_false, if_true, if_false, not, ◌&&◌, length, u64_mod,
  dec_lt,
}
use mathlib.Core.Path.{subst}
use fecalia.Reseq.Buffer.{present}
use fecalia.Reseq.Buffer.Window
use fecalia.Reseq.Buffer.Window.{Carries}
use fecalia.Reseq.Hold.{Held, Hold, oldest_buffered_observation, start_hold, end_hold}
use fecalia.Reseq.Hold.Arrivals.{arrivals, Covers, oldest_buffered_observation_lem}
use fecalia.Reseq.Guard.{resync_factor, resync_corroborate}
use fecalia.Reseq.Machine.{Resequencer, start, arm}

-- What holds also inside a call. `sent s p` says that the payload `p` may come under sequence `s`.
pub record Sound (sent : ℕ → List ℕ → Type 0) (r : Resequencer) : Type 0 where
  pub buffer : Window.IsValid r.buffer
  pub carries : Carries sent r.buffer.ring
  pub covers : Covers r.buffer (arrivals r.held)
  pub cursor : r.held.held_pos ≤ length r.held.held
  pub alive : r.panicked ≡ false
  pub small : resync_factor * r.buffer.window < u64_mod
  pub level : r.buffer.buf ≤ r.high_water
  pub level_max : r.high_water ≤ r.buffer.window
  pub run : length r.guard.resync_seqs < resync_corroborate

-- What holds between two calls: the frame at the release point is never withheld, a hold is armed
-- exactly while frames are buffered, and before the first frame nothing is buffered and the release point is 0.
pub record IsValid (sent : ℕ → List ℕ → Type 0) (r : Resequencer) : Type 0 where
  pub sound : Sound sent r
  pub gap : present r.buffer r.buffer.next ≡ false
  pub armed : r.hold.waiting ≡ ltb 0 r.buffer.buf
  pub pinned : r.started ≡ false → (r.buffer.buf ≡ 0) × (r.buffer.next ≡ 0)

pub waiting-end_hold : (h : Hold) (now : ℕ) → (end_hold h now).waiting ≡ false
unfolding end_hold
waiting-end_hold h now = ground arith

waiting-start_hold : (h : Hold) (t now : ℕ) → (start_hold h t now).waiting ≡ true
unfolding start_hold
waiting-start_hold h t now = refl

-- What `arm` sees: no frame at the release point, and frames behind it.
abbrev blocked : Resequencer → Bool
blocked r = not (present r.buffer r.buffer.next) && ltb 0 r.buffer.buf

module _ (r : Resequencer) (now : ℕ) where
  arm_waiting : blocked r ≡ true → r.hold.waiting ≡ true → arm r now ≡ r
  unfolding arm
  arm_waiting g w = if_true (blocked r) _ _ g ∙ if_true r.hold.waiting _ _ w

  arm-start :
      blocked r ≡ true
      → r.hold.waiting ≡ false
      → arm r now ≡ start r now (oldest_buffered_observation r.buffer r.held)
  unfolding arm
  arm-start g w = if_true (blocked r) _ _ g ∙ if_false r.hold.waiting _ _ w

  arm_clear : blocked r ≡ false → arm r now ≡ record r { hold = end_hold r.hold now }
  unfolding arm
  arm_clear g = if_false (blocked r) _ _ g

-- What `arm` leaves of a sound state with the buffer `b`.
record Armed (r a : Resequencer) : Type 0 where
  same : record r { held = a.held; hold = a.hold } ≡ a
  covers : Covers r.buffer (arrivals a.held)
  cursor : a.held.held_pos ≤ length a.held.held
  waits : a.hold.waiting ≡ ltb 0 r.buffer.buf

start-Armed :
    (r : Resequencer) (now : ℕ) (o : Held × Option ℕ) (t : ℕ)
    → o.1 ≡ some t
    → 0 < r.buffer.buf
    → Covers r.buffer (arrivals o.0)
    → o.0.held_pos ≤ length o.0.held
    → Armed r (start r now o)
unfolding start
start-Armed r now (h, none) t e p c k = cc e
start-Armed r now (h, some u) t e p c k = record {
  same = refl;
  covers = c;
  cursor = k;
  waits = waiting-start_hold r.hold u now ∙ sym (lt→ltb 0 r.buffer.buf p);
}

-- Where the head is a gap, `arm` finds the oldest observation if it looks for it, and leaves a hold
-- exactly if frames are buffered.
arm-Armed :
    {sent : ℕ → List ℕ → Type 0} {r : Resequencer} (now : ℕ)
    → Sound sent r
    → present r.buffer r.buffer.next ≡ false
    → Armed r (arm r now)
arm-Armed {sent} {r} now s gap = elim (dec_lt 0 r.buffer.buf) [
  | yes p ↦
      let stuck : blocked r ≡ true = rw (gap, lt→ltb 0 r.buffer.buf p) refl in
      elim (Bool-cases r.hold.waiting) [
        | inl w ↦ subst (Armed r) (sym (arm_waiting r now stuck w)) (record {
          same = refl;
          covers = s.covers;
          cursor = s.cursor;
          waits = w ∙ sym (lt→ltb 0 r.buffer.buf p);
        })
        | inr n ↦
            let ((t, e), c, k) = oldest_buffered_observation_lem r.held s.buffer s.covers gap p in
            subst (Armed r) (sym (arm-start r now stuck n)) (start-Armed r now _ t e p c k)
      ]
  | no p ↦
      let none_left = le→ltb_false 0 r.buffer.buf (omega arith) in
      let clear : blocked r ≡ false = rw (gap, none_left) refl in
      subst (Armed r) (sym (arm_clear r now clear)) (record {
        same = refl;
        covers = s.covers;
        cursor = s.cursor;
        waits = waiting-end_hold r.hold now ∙ sym none_left;
      })
]

-- `arm` makes a sound state with a gap at the release point valid, and keeps the buffer.
pub arm-IsValid :
    {sent : ℕ → List ℕ → Type 0} {r : Resequencer} (now : ℕ)
    → Sound sent r
    → present r.buffer r.buffer.next ≡ false
    → (r.started ≡ false → (r.buffer.buf ≡ 0) × (r.buffer.next ≡ 0))
    → IsValid sent (arm r now)
      × ((arm r now).buffer ≡ r.buffer)
      × ((arm r now).started ≡ r.started)
      × ((arm r now).guard ≡ r.guard)
      × ((arm r now).resyncs ≡ r.resyncs)
arm-IsValid {sent} {r} now s gap p =
    let a = arm-Armed now s gap in
    (
      subst (IsValid sent) a.same (record {
        sound = record {
          buffer = s.buffer;
          carries = s.carries;
          covers = a.covers;
          cursor = a.cursor;
          alive = s.alive;
          small = s.small;
          level = s.level;
          level_max = s.level_max;
          run = s.run;
        };
        gap = gap;
        armed = a.waits;
        pinned = p;
      }),
      ap (λ (x : Resequencer). x.buffer) (sym a.same),
      ap (λ (x : Resequencer). x.started) (sym a.same),
      ap (λ (x : Resequencer). x.guard) (sym a.same),
      ap (λ (x : Resequencer). x.resyncs) (sym a.same),
    )
