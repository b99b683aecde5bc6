-- ===== src/Reseq/Machine/Admit.antt =====
-- What `admit` does with a sequence: it rejects it, makes room for it, or pins the release point anew.
use fecalia.Base.{
  ℕ, ◌+◌, ◌-◌, ◌%◌, ◌≤◌, ◌<◌, ◌≡◌, inl, inr, refl, sym, ap, ◌∙◌, Bool, true, false, List, [], ◌∷◌,
  arith, Bool-cases, if_true, if_false, ltb, leb, lt→ltb, le→ltb_false, length, length-append,
  add64, mul64, u64_mod, dec_le,
}
use mathlib.Core.Path.{subst}
use fecalia.Reseq.Buffer.{Slot, Buffer, present, advance_to, discard}
use fecalia.Reseq.Buffer.Window.{present-occupied}
use fecalia.Reseq.Buffer.Step.{Released, Released-refl, Released-Carries}
use fecalia.Reseq.Buffer.Advance.{advance_to_lem}
use fecalia.Reseq.Buffer.Place.{discard-IsValid, discard-Carries, discard_empty}
use fecalia.Reseq.Hold.{end_hold}
use fecalia.Reseq.Hold.Arrivals.{Released-Covers}
use fecalia.Reseq.Guard.{Guard, resync_factor, resync_corroborate, idle_guard, collect}
use fecalia.Reseq.Machine.{Resequencer, resync, suspect, admit}
use fecalia.Reseq.Machine.Invariant.{Sound, IsValid}

-- The run stays below the number that corroborates.
pub collect-run :
    (g : Guard) (window seq : ℕ)
    → length g.resync_seqs < resync_corroborate
    → (collect g window seq).1 ≡ false
    → length (collect g window seq).0.resync_seqs < resync_corroborate
unfolding collect
collect-run g window seq h e = ground (arith, length-append g.resync_seqs (seq ∷ []))

-- The sequence is dropped: nothing but the guard and a counter changes.
pub record Rejected (sent : ℕ → List ℕ → Type 0) (r a : Resequencer) : Type 0 where
  pub valid : IsValid sent a
  pub buffer : a.buffer ≡ r.buffer
  pub held : a.held ≡ r.held
  pub hold : a.hold ≡ r.hold
  pub started : a.started ≡ r.started
  pub resyncs : a.resyncs ≡ r.resyncs

-- The sequence is in the window, perhaps after the release point has advanced.
pub record Welcomed (sent : ℕ → List ℕ → Type 0) (r : Resequencer) (seq : ℕ) (a : Resequencer)
    : Type 0 where
  pub sound : Sound sent a
  pub released : Released sent r.buffer a.buffer
  pub low : a.buffer.next ≤ seq
  pub high : seq < a.buffer.next + a.buffer.window
  pub duplicate : present a.buffer seq ≡ true → IsValid sent a
  pub started : a.started ≡ r.started
  pub resyncs : a.resyncs ≡ r.resyncs

-- The release point is the sequence, and the buffer is empty.
pub record Repinned (sent : ℕ → List ℕ → Type 0) (r : Resequencer) (seq : ℕ) (a : Resequencer)
    : Type 0 where
  pub sound : Sound sent a
  pub buffer : a.buffer ≡ discard r.buffer seq
  pub started : a.started ≡ r.started
  pub resyncs : a.resyncs ≡ add64 r.resyncs 1

pub data Admission (sent : ℕ → List ℕ → Type 0) (r : Resequencer) (seq : ℕ) (o : Resequencer × Bool)
    : Type 0 where
  rejected : o.1 ≡ false → Rejected sent r o.0 → Admission sent r seq o
  welcomed : o.1 ≡ true → Welcomed sent r seq o.0 → Admission sent r seq o
  repinned : o.1 ≡ true → Repinned sent r seq o.0 → Admission sent r seq o

module _ {sent : ℕ → List ℕ → Type 0} {r : Resequencer} (v : IsValid sent r) (seq now : ℕ)
    (room : seq + r.buffer.window < u64_mod) where
  -- A change of the guard and of the drop counters leaves a valid state.
  reject_lem :
      (g : Guard) (late junk : ℕ)
      → length g.resync_seqs < resync_corroborate
      → Rejected sent r (record r { guard = g; drop_late = late; drop_suspect = junk })
  reject_lem g late junk h = record {
    valid = record {
      sound = record {
        buffer = v.sound.buffer;
        carries = v.sound.carries;
        covers = v.sound.covers;
        cursor = v.sound.cursor;
        alive = v.sound.alive;
        small = v.sound.small;
        level = v.sound.level;
        level_max = v.sound.level_max;
        run = h;
      };
      gap = v.gap;
      armed = v.armed;
      pinned = v.pinned;
    };
    buffer = refl;
    held = refl;
    hold = refl;
    started = refl;
    resyncs = refl;
  }

  resync_lem : (g : Guard) → Repinned sent r seq (resync (record r { guard = g }) seq now)
  unfolding resync discard
  resync_lem g = record {
    sound = record {
      buffer = discard-IsValid seq v.sound.buffer (omega arith);
      carries = discard-Carries sent r.buffer seq;
      covers = λ i o. absurd (discard_empty r.buffer seq i o);
      cursor = omega arith;
      alive = v.sound.alive;
      small = v.sound.small;
      level = omega arith;
      level_max = v.sound.level_max;
      run = omega arith;
    };
    buffer = refl;
    started = refl;
    resyncs = refl;
  }

  suspect_lem : Admission sent r seq (suspect r seq now)
  unfolding suspect
  suspect_lem = elim (Bool-cases (collect r.guard r.buffer.window seq).1) [
    | inl y ↦
        subst (Admission sent r seq) (sym (if_true _ _ _ y))
          (repinned refl (resync_lem (collect r.guard r.buffer.window seq).0))
    | inr n ↦
        subst (Admission sent r seq) (sym (if_false _ _ _ n))
          (rejected refl (reject_lem _ _ _ (collect-run r.guard r.buffer.window seq v.sound.run n)))
  ]

  -- Inside the window the frame fits as it is.
  fits_lem :
      r.buffer.next ≤ seq
      → seq < r.buffer.next + r.buffer.window
      → Welcomed sent r seq (record r { guard = idle_guard })
  fits_lem low high = record {
    sound = (reject_lem idle_guard r.drop_late r.drop_suspect (omega arith)).valid.sound;
    released = Released-refl sent r.buffer;
    low = low;
    high = high;
    duplicate = λ _. (reject_lem idle_guard r.drop_late r.drop_suspect (omega arith)).valid;
    started = refl;
    resyncs = refl;
  }

  -- A sequence beyond the window is not buffered, also not once the release point has advanced.
  beyond_fresh :
      {b : Buffer}
      → Released sent r.buffer b
      → r.buffer.next + r.buffer.window ≤ seq
      → ¬ (present b seq ≡ true)
  beyond_fresh {b} d far y =
      let (o, e) = present-occupied b seq y in
      let same = d.kept (seq % b.window) o in
      let old = ap (λ (c : Slot). c.occupied) (sym same) ∙ o in
      omega
        (arith, (v.sound.buffer.fits (seq % b.window) old).high, ap (λ (c : Slot). c.seq) same, e)

  -- Beyond it the release point advances, so that the frame is the last of the window.
  advance_lem :
      r.buffer.next + r.buffer.window ≤ seq
      → Welcomed sent r seq (record r {
        guard = idle_guard;
        hold = end_hold r.hold now;
        buffer = advance_to r.buffer (add64 (seq - r.buffer.window) 1);
      })
  advance_lem far =
      let b = r.buffer in
      let target = add64 (seq - b.window) 1 in
      let exact : target ≡ seq - b.window + 1 = omega arith in
      let (d, w, e) =
        advance_to_lem v.sound.buffer target (omega (arith, exact)) (omega (arith, exact)) sent
          v.sound.carries in
      record {
        sound = record {
          buffer = w;
          carries = Released-Carries sent d v.sound.carries;
          covers = Released-Covers d v.sound.covers;
          cursor = v.sound.cursor;
          alive = v.sound.alive;
          small = rw d.same_window v.sound.small;
          level = omega (arith, v.sound.level, d.conserved);
          level_max = rw d.same_window v.sound.level_max;
          run = omega arith;
        };
        released = d;
        low = omega (arith, e, exact);
        high = omega (arith, e, exact, d.same_window, v.sound.buffer.pos);
        duplicate = λ y. absurd (beyond_fresh d far y);
        started = refl;
        resyncs = refl;
      }

  admit_below : seq < r.buffer.next → Admission sent r seq (admit r seq now)
  unfolding admit
  admit_below lt =
      subst (Admission sent r seq) (sym (if_true (ltb seq r.buffer.next) _ _ (lt→ltb _ _ lt)))
        (elim (Bool-cases (ltb r.buffer.window (r.buffer.next - seq))) [
          | inl y ↦
              subst (Admission sent r seq)
                (sym (if_true (ltb r.buffer.window (r.buffer.next - seq)) _ _ y)) suspect_lem
          | inr n ↦
              subst (Admission sent r seq)
                (sym (if_false (ltb r.buffer.window (r.buffer.next - seq)) _ _ n))
                (rejected refl
                  (reject_lem idle_guard (add64 r.drop_late 1) r.drop_suspect (omega arith)))
        ])

  admit_above : r.buffer.next ≤ seq → Admission sent r seq (admit r seq now)
  unfolding admit
  admit_above le =
      let far = leb (mul64 resync_factor r.buffer.window) (seq - r.buffer.next) in
      let out = leb r.buffer.window (seq - r.buffer.next) in
      subst (Admission sent r seq)
        (sym (if_false (ltb seq r.buffer.next) _ _ (le→ltb_false _ _ le)))
        (elim (Bool-cases far) [
          | inl y ↦ subst (Admission sent r seq) (sym (if_true far _ _ y)) suspect_lem
          | inr n ↦ subst (Admission sent r seq) (sym (if_false far _ _ n)) (elim (Bool-cases out) [
            | inl y ↦
                subst (Admission sent r seq) (sym (if_true out _ _ y))
                  (welcomed refl (advance_lem (ground arith)))
            | inr n' ↦
                subst (Admission sent r seq) (sym (if_false out _ _ n'))
                  (welcomed refl (fits_lem le (ground arith)))
          ])
        ])

  pub admit_lem : Admission sent r seq (admit r seq now)
  admit_lem = elim (dec_le r.buffer.next seq) [
    | yes le ↦ admit_above le
    | no gt ↦ admit_below (omega arith)
  ]
