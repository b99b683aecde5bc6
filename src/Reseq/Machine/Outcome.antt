-- ===== src/Reseq/Machine/Outcome.antt =====
-- `Observe` keeps the invariant, and what it delivers.
use fecalia.Base.{
  ℕ, ◌+◌, ◌<◌, ◌≡◌, inl, inr, refl, sym, ap, ◌∙◌, Bool, true, false, List, arith, Bool-cases,
  if_true, if_false, if◌then◌else◌, add64, u64_mod,
}
use mathlib.Core.Path.{subst}
use fecalia.Reseq.Buffer.{Buffer, present, discard}
use fecalia.Reseq.Buffer.Window
use fecalia.Reseq.Buffer.Window.{Carries, occupied_at, occupied_count-pos}
use fecalia.Reseq.Buffer.Release.{empty-absent}
use fecalia.Reseq.Buffer.Place.{next-discard, window-discard, buf-discard}
use fecalia.Reseq.Machine.{Resequencer, expire, admit, pin, accept, observe_admitted, observe}
use fecalia.Reseq.Machine.Invariant.{IsValid}
use fecalia.Reseq.Machine.Expire.{Passed, expire_lem}
use fecalia.Reseq.Machine.Admit.{
  Admission, rejected, welcomed, repinned, Rejected, Welcomed, Repinned, admit_lem,
}
use fecalia.Reseq.Machine.Observe.{Delivered, Delivered-trans, Released-Delivered, accept_lem}

-- An empty buffer may take any release point.
none_live : {b : Buffer} → Window.IsValid b → b.buf ≡ 0 → (i : ℕ) → ¬ (occupied_at b.ring i ≡ true)
none_live {b} v z i o = omega (arith, v.counted, occupied_count-pos b.ring i o)

-- What a call of `Observe` did to the FIFO: what it appended comes in order behind the release
-- point, which the first frame pins, and which a corroborated discontinuity may have pinned anew.
pub data Outcome (sent : ℕ → List ℕ → Type 0) (r : Resequencer) (seq : ℕ) (a : Resequencer)
    : Type 0 where
  ordered :
      a.resyncs ≡ r.resyncs → Delivered sent (pin r seq).buffer a.buffer → Outcome sent r seq a
  resynced :
      (mid : Buffer)
      → a.resyncs ≡ add64 r.resyncs 1
      → Delivered sent (pin r seq).buffer mid
      → Delivered sent (discard mid seq) a.buffer
      → Outcome sent r seq a

module _ {sent : ℕ → List ℕ → Type 0} where
  -- The first frame pins the release point.
  pub pin-IsValid :
      {r : Resequencer} (seq : ℕ)
      → IsValid sent r
      → seq + r.buffer.window < u64_mod
      → IsValid sent (pin r seq)
        × ((pin r seq).started ≡ true)
        × ((pin r seq).resyncs ≡ r.resyncs)
        × ((pin r seq).buffer.window ≡ r.buffer.window)
  unfolding pin
  pin-IsValid {r} seq v room = elim (Bool-cases r.started) [
    | inl on ↦
        subst
          (λ (p : Resequencer).
            IsValid sent p
            × (p.started ≡ true)
            × (p.resyncs ≡ r.resyncs)
            × (p.buffer.window ≡ r.buffer.window))
          (sym (if_true r.started _ _ on)) (v, on, refl, refl)
    | inr off ↦
        let s = v.sound in
        let z = (v.pinned off).0 in
        let w : Window.IsValid (record (r.buffer) { next = seq }) = record {
          pos = s.buffer.pos;
          sized = s.buffer.sized;
          counted = s.buffer.counted;
          headroom = omega arith;
          fifo = s.buffer.fifo;
          fits = λ i o. absurd (none_live s.buffer z i o);
        } in
        subst
          (λ (p : Resequencer).
            IsValid sent p
            × (p.started ≡ true)
            × (p.resyncs ≡ r.resyncs)
            × (p.buffer.window ≡ r.buffer.window))
          (sym (if_false r.started _ _ off))
          (
            record {
              sound = record {
                buffer = w;
                carries = s.carries;
                covers = λ i o. absurd (none_live s.buffer z i o);
                cursor = s.cursor;
                alive = s.alive;
                small = s.small;
                level = s.level;
                level_max = s.level_max;
                run = s.run;
              };
              gap = empty-absent w z seq;
              armed = v.armed;
              pinned = λ e. cc e;
            },
            refl,
            refl,
            refl,
          )
  ]

  module _ {r : Resequencer} (seq : ℕ) (payload : List ℕ) (src now : ℕ) (v : IsValid sent r)
      (genuine : sent seq payload) (room : seq + r.buffer.window < u64_mod) where
    -- A dropped duplicate leaves the state as it is, but for its counter.
    duplicate_lem :
        {a : Resequencer}
        → IsValid sent a
        → IsValid sent (record a { drop_dup = add64 a.drop_dup 1 })
    duplicate_lem w = record {
      sound = record {
        buffer = w.sound.buffer;
        carries = w.sound.carries;
        covers = w.sound.covers;
        cursor = w.sound.cursor;
        alive = w.sound.alive;
        small = w.sound.small;
        level = w.sound.level;
        level_max = w.sound.level_max;
        run = w.sound.run;
      };
      gap = w.gap;
      armed = w.armed;
      pinned = w.pinned;
    }

    abbrev Result : Resequencer × Bool → Type 0
    Result o = IsValid sent o.0 × Outcome sent r seq o.0

    -- An admitted frame, once the expired holds are dealt with.
    admitted_lem :
        (e a : Resequencer)
        → Passed sent (pin r seq) e
        → e.started ≡ true
        → e.resyncs ≡ r.resyncs
        → e.buffer.window ≡ r.buffer.window
        → Welcomed sent e seq a
        → Result (observe_admitted a seq payload src now)
    unfolding observe_admitted
    admitted_lem e a p on same wide w = elim (Bool-cases (present a.buffer seq)) [
      | inl y ↦ subst Result (sym (if_true (present a.buffer seq) _ _ y)) (
        duplicate_lem (w.duplicate y),
        ordered (w.resyncs ∙ same)
            (Delivered-trans (Released-Delivered p.released) (Released-Delivered w.released)),
      )
      | inr n ↦
          let fits : seq + a.buffer.window < u64_mod =
            omega (arith, w.released.same_window, wide) in
          let (x, d, _, m) =
            accept_lem w.sound seq payload src now genuine w.low w.high fits n (w.started ∙ on) in
          subst Result (sym (if_false (present a.buffer seq) _ _ n)) (
            x,
            ordered (m ∙ w.resyncs ∙ same) (
                Delivered-trans (Released-Delivered p.released)
                  (Delivered-trans (Released-Delivered w.released) d)),
          )
    ]

    -- After a resync the frame is the head of an empty buffer.
    repinned_lem :
        (e a : Resequencer)
        → Passed sent (pin r seq) e
        → e.started ≡ true
        → e.resyncs ≡ r.resyncs
        → e.buffer.window ≡ r.buffer.window
        → Repinned sent e seq a
        → Result (observe_admitted a seq payload src now)
    unfolding observe_admitted
    repinned_lem e a p on same wide w =
        let b = w.buffer in
        let at : a.buffer.next ≡ seq = ap (λ (x : Buffer). x.next) b ∙ next-discard e.buffer seq in
        let size : a.buffer.window ≡ r.buffer.window =
          ap (λ (x : Buffer). x.window) b ∙ window-discard e.buffer seq ∙ wide in
        let none_left = ap (λ (x : Buffer). x.buf) b ∙ buf-discard e.buffer seq in
        let n = empty-absent w.sound.buffer none_left seq in
        let (x, d, _, m) =
          accept_lem w.sound seq payload src now genuine (omega arith)
            (omega (arith, w.sound.buffer.pos)) (omega arith) n (w.started ∙ on) in
        subst Result (sym (if_false (present a.buffer seq) _ _ n)) (
          x,
          resynced e.buffer (m ∙ w.resyncs ∙ ap (λ k. add64 k 1) same)
              (Released-Delivered p.released)
              (subst (λ (y : Buffer). Delivered sent y (accept a seq payload src now).buffer) b d),
        )

    rejected_lem :
        (e a : Resequencer)
        → Passed sent (pin r seq) e
        → e.resyncs ≡ r.resyncs
        → Rejected sent e a
        → IsValid sent a × Outcome sent r seq a
    rejected_lem e a p same w = (
      w.valid,
      ordered (w.resyncs ∙ same) (
          subst (Delivered sent (pin r seq).buffer) (sym w.buffer) (Released-Delivered p.released)),
    )

    decide :
        (e : Resequencer) (o : Resequencer × Bool)
        → Passed sent (pin r seq) e
        → e.started ≡ true
        → e.resyncs ≡ r.resyncs
        → e.buffer.window ≡ r.buffer.window
        → Admission sent e seq o
        → Result (if o.1 then observe_admitted o.0 seq payload src now else (o.0, false))
    decide e (a, true) p on same wide (rejected f w) = cc f
    decide e (a, false) p on same wide (rejected f w) = rejected_lem e a p same w
    decide e (a, true) p on same wide (welcomed f w) = admitted_lem e a p on same wide w
    decide e (a, false) p on same wide (welcomed f w) = cc f
    decide e (a, true) p on same wide (repinned f w) = repinned_lem e a p on same wide w
    decide e (a, false) p on same wide (repinned f w) = cc f

-- `Observe` keeps the invariant: no panic, a bounded buffer, no frame withheld, a hold exactly
-- while frames are buffered; and it appends frames to the FIFO in strictly rising order. The state
-- is valid before, the frame may come under its sequence, which is a window from the end of `uint64`.
pub observe_lem :
    {sent : ℕ → List ℕ → Type 0} {r : Resequencer} (seq : ℕ) (payload : List ℕ) (src now : ℕ)
    → IsValid sent r
    → sent seq payload
    → seq + r.buffer.window < u64_mod
    → IsValid sent (observe r seq payload src now).0
      × Outcome sent r seq (observe r seq payload src now).0
unfolding observe
observe_lem {sent} {r} seq payload src now v genuine room =
    let (q, on, n, wide) = pin-IsValid seq v room in
    let (p, e, _) = expire_lem now q in
    let size : (expire (pin r seq) now).buffer.window ≡ r.buffer.window =
      p.released.same_window ∙ wide in
    let fits : seq + (expire (pin r seq) now).buffer.window < u64_mod = omega (arith, size) in
    decide seq payload src now v genuine room (expire (pin r seq) now)
      (admit (expire (pin r seq) now) seq now) p (p.started ∙ on) (p.resyncs ∙ n) size
      (admit_lem e seq now fits)
