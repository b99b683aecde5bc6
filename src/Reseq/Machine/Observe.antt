-- ===== src/Reseq/Machine/Observe.antt =====
-- What an admitted frame does: it is written, the run at the release point is released, the hold is
-- armed again.
use fecalia.Base.{
  ℕ, ◌+◌, ◌≤◌, ◌<◌, ◌≡◌, inl, inr, refl, sym, ◌∙◌, true, false, ◌&&◌, List, [], ◌∷◌, ◌++◌, arith,
  Bool-cases, ==_iff, if_true, if_false, if◌then◌else◌, ltb, ◌==◌, length, length-append, add64,
  append_assoc, append-nil, u64_mod,
}
use mathlib.Core.Path.{subst}
use fecalia.Reseq.Buffer.{Slot, Buffer, present, place, drain}
use fecalia.Reseq.Buffer.Window.{buf-le-window}
use fecalia.Reseq.Buffer.Step.{
  Ascending, Ascending-append, Pairs, Pairs-append, payloads, Released, Released-Carries,
}
use fecalia.Reseq.Buffer.Release.{drain_lem}
use fecalia.Reseq.Buffer.Place.{place-IsValid, place-Carries}
use fecalia.Reseq.Hold.{Held, end_hold}
use fecalia.Reseq.Hold.Arrivals.{
  arrivals, Covers, Released-Covers, place-Covers_behind, place-Covers_head, drop-snoc,
}
use fecalia.Reseq.Machine.{Resequencer, accept}
use fecalia.Reseq.Machine.Invariant.{Sound, IsValid, arm-IsValid}

-- From `b` to `b'` the FIFO has grown by `items`, which come under the strictly rising sequences
-- `seqs`, from the old release point on and below the new one.
pub record Delivered (sent : ℕ → List ℕ → Type 0) (b b' : Buffer) : Type 0 where
  pub seqs : List ℕ
  pub ascending : Ascending b.next seqs b'.next
  pub items : List (List ℕ)
  pub paired : Pairs sent seqs items
  pub appended : payloads b'.ready ≡ payloads b.ready ++ items
  pub same_pos : b'.ready_pos ≡ b.ready_pos
  pub same_window : b'.window ≡ b.window

pub Released-Delivered :
    {sent : ℕ → List ℕ → Type 0} {b b' : Buffer} → Released sent b b' → Delivered sent b b'
Released-Delivered r = record {
  seqs = r.seqs;
  ascending = r.ascending;
  items = r.items;
  paired = r.delivered;
  appended = r.appended;
  same_pos = r.same_pos;
  same_window = r.same_window;
}

pub Delivered-trans :
    {sent : ℕ → List ℕ → Type 0} {a b c : Buffer}
    → Delivered sent a b
    → Delivered sent b c
    → Delivered sent a c
Delivered-trans {sent} {a} {b} {c} p q = record {
  seqs = p.seqs ++ q.seqs;
  ascending = Ascending-append a.next p.seqs b.next q.seqs c.next p.ascending q.ascending;
  items = p.items ++ q.items;
  paired = Pairs-append sent p.seqs p.items q.seqs q.items p.paired q.paired;
  appended = q.appended ∙ rw (p.appended, append_assoc);
  same_pos = q.same_pos ∙ p.same_pos;
  same_window = q.same_window ∙ p.same_window;
}

-- `if r.buf > r.highWater { r.highWater = r.buf }`.
rise : (high n : ℕ) {x : ℕ} → x ≤ n → x ≤ (if ltb high n then n else high)
rise high n h = ground arith

rise_max : (high n : ℕ) {w : ℕ} → high ≤ w → n ≤ w → (if ltb high n then n else high) ≤ w
rise_max high n h k = ground arith

place-Delivered :
    (sent : ℕ → List ℕ → Type 0) (b : Buffer) (c : Slot) → Delivered sent b (place b c)
unfolding place
place-Delivered sent b c = record {
  seqs = [];
  ascending = omega arith;
  items = [];
  paired = tt;
  appended = sym (append-nil _);
  same_pos = refl;
  same_window = refl;
}

module _ {sent : ℕ → List ℕ → Type 0} {r : Resequencer} (s : Sound sent r) (seq : ℕ)
    (payload : List ℕ) (src now : ℕ) (genuine : sent seq payload) (low : r.buffer.next ≤ seq)
    (high : seq < r.buffer.next + r.buffer.window) (room : seq + r.buffer.window < u64_mod)
    (fresh : present r.buffer seq ≡ false) where
  abbrev frame : Slot
  frame = record { seq = seq; src = src; payload = payload; observed_at = now; occupied = true }

  -- The list of arrivals once the frame is noted.
  abbrev appended : Held
  appended = record (r.held) { held = r.held.held ++ (seq ∷ []) }

  abbrev noted : Held
  noted = if seq == r.buffer.next then r.held else appended

  abbrev Complete : Held → Type 0
  Complete h = Covers (place r.buffer frame) (arrivals h) × (h.held_pos ≤ length h.held)

  -- The arrivals still cover the buffer once the frame is written and noted.
  noted-Complete : Complete noted
  noted-Complete = elim (Bool-cases (seq == r.buffer.next)) [
    | inl y ↦
        let e = (==_iff seq r.buffer.next).0 y in
        subst Complete (sym (if_true (seq == r.buffer.next) _ _ y))
          (place-Covers_head s.buffer frame refl low high room fresh e s.covers, s.cursor)
    | inr n ↦
        let wider = drop-snoc r.held.held_pos r.held.held seq s.cursor in
        subst Complete (sym (if_false (seq == r.buffer.next) _ _ n)) (
          subst (Covers (place r.buffer frame)) (sym wider)
              (place-Covers_behind s.buffer frame refl low high room fresh s.covers),
          omega (arith, s.cursor, length-append r.held.held (seq ∷ [])),
        )
  ]

  -- The state before the hold is armed again.
  abbrev stored : Resequencer
  stored = record r {
    buffer = drain (place r.buffer frame);
    held = noted;
    high_water =
        if ltb r.high_water (place r.buffer frame).buf
        then (place r.buffer frame).buf
        else r.high_water;
    hold =
        if r.hold.waiting && seq == r.buffer.next
        then end_hold (record (r.hold) { gap_fills = add64 r.hold.gap_fills 1 }) now
        else r.hold;
  }

  stored_lem :
      Sound sent stored
      × (present stored.buffer stored.buffer.next ≡ false)
      × Released sent (place r.buffer frame) stored.buffer
  stored_lem =
      let w = place-IsValid s.buffer frame refl low high room fresh in
      let h = place-Carries s.buffer frame refl low high room fresh sent s.carries genuine in
      let (d, w', gap) = drain_lem sent w h in
      let wide = (place-Delivered sent r.buffer frame).same_window in
      let (c, k) = noted-Complete in
      (
        record {
          buffer = w';
          carries = Released-Carries sent d h;
          covers = Released-Covers d c;
          cursor = k;
          alive = s.alive;
          small = omega (arith, s.small, d.same_window, wide);
          level = rise r.high_water (place r.buffer frame).buf (omega (arith, d.conserved));
          level_max =
              rise_max r.high_water (place r.buffer frame).buf
                (omega (arith, s.level_max, d.same_window, wide))
                (omega (arith, buf-le-window w, d.same_window));
          run = s.run;
        },
        gap,
        d,
      )

  -- An admitted frame leaves a valid state, and what becomes deliverable has been released in order.
  pub accept_lem :
      r.started ≡ true
      → IsValid sent (accept r seq payload src now)
        × Delivered sent r.buffer (accept r seq payload src now).buffer
        × ((accept r seq payload src now).started ≡ true)
        × ((accept r seq payload src now).resyncs ≡ r.resyncs)
  unfolding accept
  accept_lem on =
      let (t, gap, d) = stored_lem in
      let (v, b, o, _, n) = arm-IsValid now t gap (λ p. cc (p, on)) in
      (
        v,
        subst (Delivered sent r.buffer) (sym b)
            (Delivered-trans (place-Delivered sent r.buffer frame) (Released-Delivered d)),
        o ∙ on,
        n,
      )
