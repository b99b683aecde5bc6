-- ===== src/Reseq/Machine/Expire.antt =====
-- The head-of-line timeout: `expire` gives up the gaps whose hold has elapsed, and ends.
use fecalia.Base.{
  ℕ, zero, suc, ◌+◌, ◌≤◌, ◌<◌, ◌≡◌, inl, inr, refl, sym, ap, ◌∙◌, Bool, true, false, ◌&&◌, not,
  List, arith, Bool-cases, if_true, if_false, ltb, lt→ltb, ltb→lt, get_or, u64_mod,
}
use mathlib.Core.Path.{subst}
use fecalia.Reseq.Buffer.{zero_slot, Buffer, present, drain}
use fecalia.Reseq.Buffer.Window
use fecalia.Reseq.Buffer.Window.{Carries, present-occupied, absent-later, &&-true, occupied_at}
use fecalia.Reseq.Buffer.Step.{Released, Released-refl, Released-trans, Released-Carries}
use fecalia.Reseq.Buffer.Release.{drain_lem, drain_progress}
use fecalia.Reseq.Buffer.Advance.{jump, jump-IsValid, jump_lem}
use fecalia.Reseq.Buffer.Smallest.{smallest_buffered_lem}
use fecalia.Reseq.Hold.{Hold, Unelapsed, armed_deadline, end_hold}
use fecalia.Reseq.Hold.Arrivals.{Released-Covers}
use fecalia.Reseq.Machine.{Resequencer, skip_gap, expire_gap, count_wakeup, expire_loop, expire}
use fecalia.Reseq.Machine.Invariant.{Sound, IsValid, arm-IsValid}

-- A step that only releases frames and skips gaps.
pub record Passed (sent : ℕ → List ℕ → Type 0) (r r' : Resequencer) : Type 0 where
  pub released : Released sent r.buffer r'.buffer
  pub started : r'.started ≡ r.started
  pub guard : r'.guard ≡ r.guard
  pub resyncs : r'.resyncs ≡ r.resyncs

pub Passed-trans :
    {sent : ℕ → List ℕ → Type 0} {a b c : Resequencer}
    → Passed sent a b
    → Passed sent b c
    → Passed sent a c
Passed-trans {sent} p q = record {
  released = Released-trans sent p.released q.released;
  started = q.started ∙ p.started;
  guard = q.guard ∙ p.guard;
  resyncs = q.resyncs ∙ p.resyncs;
}

skip_gap_lem : (b : Buffer) (m : ℕ) → b.next < m → skip_gap b m ≡ jump b m
unfolding skip_gap
skip_gap_lem b m h = if_true (ltb b.next m) _ _ (lt→ltb b.next m h)

-- The buffer of a turn of `expire`: the gap is skipped and the run behind it released.
module _ (sent : ℕ → List ℕ → Type 0) {b : Buffer} (v : Window.IsValid b) (h : Carries sent b.ring)
    (gap : present b b.next ≡ false) (m : ℕ) (here : present b m ≡ true)
    (least : (i : ℕ) → occupied_at b.ring i ≡ true → m ≤ (get_or b.ring i zero_slot).seq) where
  gap_drained :
      Released sent b (drain (skip_gap b m))
      × Window.IsValid (drain (skip_gap b m))
      × (present (drain (skip_gap b m)) (drain (skip_gap b m)).next ≡ false)
      × ((drain (skip_gap b m)).buf < b.buf)
  gap_drained =
      let (o, e) = present-occupied b m here in
      let f = v.fits _ o in
      let behind : b.next < m = omega (arith, e, absent-later v gap _ o) in
      let room : m + b.window ≤ u64_mod = omega (arith, e, f.room) in
      let j = jump_lem v m (omega arith) room sent in
      let w = jump-IsValid v m (omega arith) room least in
      let (r, w', gap') = drain_lem sent w h in
      rw (skip_gap_lem b m behind) (Released-trans sent j r, w', gap', drain_progress sent w h here)

-- One turn of `expire` over a valid state.
expire_gap_lem :
    {sent : ℕ → List ℕ → Type 0} {r : Resequencer} (now m : ℕ)
    → IsValid sent r
    → present r.buffer m ≡ true
    → ((i : ℕ) → occupied_at r.buffer.ring i ≡ true → m ≤ (get_or r.buffer.ring i zero_slot).seq)
    → Passed sent r (expire_gap r now m)
      × IsValid sent (expire_gap r now m)
      × ((expire_gap r now m).buffer.buf < r.buffer.buf)
unfolding expire_gap
expire_gap_lem {sent} {r} now m v here least =
    let s = v.sound in
    let (d, w, gap', less) = gap_drained sent s.buffer s.carries v.gap m here least in
    let r' : Resequencer = record r {
      buffer = drain (skip_gap r.buffer m);
      hold = end_hold r.hold now;
    } in
    let s' : Sound sent r' = record {
      buffer = w;
      carries = Released-Carries sent d s.carries;
      covers = Released-Covers d s.covers;
      cursor = s.cursor;
      alive = s.alive;
      small = rw d.same_window s.small;
      level = omega (arith, s.level);
      level_max = rw d.same_window s.level_max;
      run = s.run;
    } in
    let (a, b, c, g, n) = arm-IsValid now s' gap' (λ p. omega (arith, v.pinned p)) in
    (
      record {
        released = subst (Released sent r.buffer) (sym b) d;
        started = c;
        guard = g;
        resyncs = n;
      },
      a,
      omega (arith, ap (λ (x : Buffer). x.buf) b),
    )

count_wakeup-IsValid :
    {sent : ℕ → List ℕ → Type 0} {r : Resequencer} → IsValid sent r → IsValid sent (count_wakeup r)
count_wakeup-IsValid v = record {
  sound = record {
    buffer = v.sound.buffer;
    carries = v.sound.carries;
    covers = v.sound.covers;
    cursor = v.sound.cursor;
    alive = v.sound.alive;
    small = v.sound.small;
    level = v.sound.level;
    level_max = v.sound.level_max;
    run = v.sound.run;
  };
  gap = v.gap;
  armed = v.armed;
  pinned = v.pinned;
}

pub Passed-refl : {sent : ℕ → List ℕ → Type 0} (r : Resequencer) → Passed sent r r
Passed-refl {sent} r = record {
  released = Released-refl sent r.buffer;
  started = refl;
  guard = refl;
  resyncs = refl;
}

count_wakeup-Passed :
    {sent : ℕ → List ℕ → Type 0} (r : Resequencer) → Passed sent r (count_wakeup r)
count_wakeup-Passed {sent} r = record {
  released = Released-refl sent r.buffer;
  started = refl;
  guard = refl;
  resyncs = refl;
}

not_elapsed :
    (w : Bool) (now deadline : ℕ)
    → (w && not (ltb now deadline)) ≡ false
    → w ≡ true
    → now < deadline
not_elapsed true now deadline n w = ground arith
not_elapsed false now deadline n w = cc w

-- `expire` ends by its test: its turns are enough, and no elapsed hold is left.
expire_loop_lem :
    {sent : ℕ → List ℕ → Type 0} (fuel now : ℕ) {r : Resequencer}
    → r.buffer.buf < fuel
    → IsValid sent r
    → Passed sent r (expire_loop fuel now r)
      × IsValid sent (expire_loop fuel now r)
      × ((expire_loop fuel now r).hold.waiting ≡ true
          → now < (expire_loop fuel now r).hold.deadline)
unfolding expire_loop
expire_loop_lem {sent} zero now {r} h v = elim h [ ]
expire_loop_lem {sent} (suc fuel) now {r} h v =
    elim (Bool-cases (r.hold.waiting && not (ltb now r.hold.deadline))) [
      | inr n ↦
          rw (n, expire_loop)
            (Passed-refl r, v, λ w. not_elapsed r.hold.waiting now r.hold.deadline n w)
      | inl y ↦
          let waits = (&&-true r.hold.waiting _ y).0 in
          let filled = ltb→lt 0 r.buffer.buf (sym v.armed ∙ waits) in
          let (m, e, here, least) = smallest_buffered_lem v.sound.buffer filled in
          let (p, v', less) = expire_gap_lem now m (count_wakeup-IsValid v) here least in
          let (q, w, t) = expire_loop_lem fuel now (omega arith) v' in
          rw (y, e, expire_loop) (Passed-trans (count_wakeup-Passed r) (Passed-trans p q), w, t)
    ]

unelapsed :
    (h : Hold) (now : ℕ) → (h.waiting ≡ true → now < h.deadline) → Unelapsed now (armed_deadline h)
unfolding armed_deadline
unelapsed h now t = elim (Bool-cases h.waiting) [
  | inl w ↦ subst (Unelapsed now) (sym (if_true h.waiting _ _ w)) (t w)
  | inr w ↦ subst (Unelapsed now) (sym (if_false h.waiting _ _ w)) tt
]

-- From a valid state, after `expire` the release point has only moved over gaps and released frames, the invariant
-- holds, and a hold that is left has not elapsed.
pub expire_lem :
    {sent : ℕ → List ℕ → Type 0} (now : ℕ) {r : Resequencer}
    → IsValid sent r
    → Passed sent r (expire r now)
      × IsValid sent (expire r now)
      × Unelapsed now (armed_deadline (expire r now).hold)
unfolding expire
expire_lem now {r} v =
    let (p, w, t) = expire_loop_lem (suc r.buffer.buf) now (omega arith) v in
    (p, w, unelapsed (expire r now).hold now t)
