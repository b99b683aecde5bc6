-- ===== src/Reseq/Machine/Trace.antt =====
-- Sequences of calls: what `Pop` returns over a whole run.
use fecalia.Base.{
  ℕ, ◌+◌, ◌≤◌, ◌<◌, ◌≡◌, inl, inr, refl, sym, ap, ◌∙◌, Option, none, some, List, [], ◌∷◌, ◌++◌,
  append-nil, append_assoc, arith, Bool-cases, if_true, if_false, u64_mod,
}
use mathlib.Core.Path.{subst}
use fecalia.Reseq.Buffer.{Item, pending}
use fecalia.Reseq.Buffer.Step.{Ascending, Ascending-append, Pairs, Pairs-append, payloads}
use fecalia.Reseq.Buffer.Fifo.{put_back, Front-put_back, pending-append}
use fecalia.Reseq.Machine.{Resequencer, pin, observe, pop}
use fecalia.Reseq.Machine.Invariant.{IsValid}
use fecalia.Reseq.Machine.Outcome.{ordered, resynced, pin-IsValid, observe_lem}
use fecalia.Reseq.Machine.Methods.{pop_lem}

-- The calls of the Bind's receive path: a frame handed in, or an item asked for.
pub data Call : Type 0 where
  receive : ℕ → List ℕ → ℕ → ℕ → Call
  ask : ℕ → Call

abbrev pub returned : Option Item → List (List ℕ)
returned none = []
returned (some x) = x.payload ∷ []

unfoldable pub step : Resequencer → Call → Resequencer × List (List ℕ)
step r (receive seq payload src now) = ((observe r seq payload src now).0, [])
step r (ask now) = ((pop r now).0, returned (pop r now).1)

-- The state after the calls, and the payloads that they returned.
unfoldable pub run : Resequencer → List Call → Resequencer × List (List ℕ)
unfolding step
run r [] = (r, [])
run r (c ∷ cs) = let (r', out) = step r c in let (r'', outs) = run r' cs in (r'', out ++ outs)

-- Each frame may come under its sequence, which is far from the end of `uint64`, and no call
-- re-pins the release point.
abbrev pub Admissible : (ℕ → List ℕ → Type 0) → ℕ → Call → Type 0
Admissible sent window (receive seq payload src now) = sent seq payload × (seq + window < u64_mod)
Admissible sent window (ask now) = Unit

abbrev pub Steady : (ℕ → List ℕ → Type 0) → Resequencer → List Call → Type 0
Steady sent r [] = Unit
Steady sent r (c ∷ cs) =
    Admissible sent r.buffer.window c
    × ((step r c).0.resyncs ≡ r.resyncs)
    × Steady sent (step r c).0 cs

-- The payloads `out` and what is pending at the end are what was pending at the start, followed by
-- payloads that come under strictly rising sequences.
pub record InOrder (sent : ℕ → List ℕ → Type 0) (r r' : Resequencer) (out : List (List ℕ))
    : Type 0 where
  pub seqs : List ℕ
  pub ascending : Ascending r.buffer.next seqs r'.buffer.next
  pub items : List (List ℕ)
  pub paired : Pairs sent seqs items
  pub output : out ++ payloads (pending r'.buffer) ≡ payloads (pending r.buffer) ++ items

module _ {sent : ℕ → List ℕ → Type 0} where
  InOrder-trans :
      {a b c : Resequencer} {out outs : List (List ℕ)}
      → InOrder sent a b out
      → InOrder sent b c outs
      → InOrder sent a c (out ++ outs)
  InOrder-trans {a} {b} {c} {out} {outs} p q = record {
    seqs = p.seqs ++ q.seqs;
    ascending =
        Ascending-append a.buffer.next p.seqs b.buffer.next q.seqs c.buffer.next p.ascending
          q.ascending;
    items = p.items ++ q.items;
    paired = Pairs-append sent p.seqs p.items q.seqs q.items p.paired q.paired;
    output =
        append_assoc out outs _
        ∙ ap (λ l. out ++ l) q.output
        ∙ sym (append_assoc out (payloads (pending b.buffer)) q.items)
        ∙ ap (λ l. l ++ q.items) p.output
        ∙ append_assoc (payloads (pending a.buffer)) p.items q.items;
  }

Ascending-weaken :
    (lo mid : ℕ) (xs : List ℕ) (hi : ℕ) → lo ≤ mid → Ascending mid xs hi → Ascending lo xs hi
Ascending-weaken lo mid [] hi h p = omega arith
Ascending-weaken lo mid (x ∷ xs) hi h p = (omega (arith, p.0), p.1)

-- The first frame does not pin the release point below where it was.
pin_lem :
    {sent : ℕ → List ℕ → Type 0} {r : Resequencer} (seq : ℕ)
    → IsValid sent r
    → (r.buffer.next ≤ (pin r seq).buffer.next) × (pending (pin r seq).buffer ≡ pending r.buffer)
unfolding pin pending
pin_lem {sent} {r} seq v = elim (Bool-cases r.started) [
  | inl on ↦
      subst
        (λ (p : Resequencer).
          (r.buffer.next ≤ p.buffer.next) × (pending p.buffer ≡ pending r.buffer))
        (sym (if_true r.started _ _ on)) (omega arith, refl)
  | inr off ↦
      subst
        (λ (p : Resequencer).
          (r.buffer.next ≤ p.buffer.next) × (pending p.buffer ≡ pending r.buffer))
        (sym (if_false r.started _ _ off)) (omega (arith, (v.pinned off).1), refl)
]

put_back-returned :
    (o : Option Item) (l : List Item) → returned o ++ payloads l ≡ payloads (put_back o l)
put_back-returned none l = refl
put_back-returned (some x) l = refl

module _ {sent : ℕ → List ℕ → Type 0} {r : Resequencer} (v : IsValid sent r) where
  receive-InOrder :
      (seq : ℕ) (payload : List ℕ) (src now : ℕ)
      → sent seq payload
      → seq + r.buffer.window < u64_mod
      → (observe r seq payload src now).0.resyncs ≡ r.resyncs
      → InOrder sent r (observe r seq payload src now).0 []
  receive-InOrder seq payload src now genuine room same =
      let (q, _, _, _) = pin-IsValid seq v room in
      let (le, quiet) = pin_lem seq v in
      elim (observe_lem seq payload src now v genuine room).1 [
        | ordered _ d ↦ record {
          seqs = d.seqs;
          ascending =
              Ascending-weaken r.buffer.next (pin r seq).buffer.next d.seqs _ le d.ascending;
          items = d.items;
          paired = d.paired;
          output =
              pending-append (pin r seq).buffer _ d.items q.sound.buffer.fifo d.same_pos d.appended
              ∙ ap (λ l. payloads l ++ d.items) quiet;
        }
        | resynced _ n _ _ ↦ absurd (omega (arith, n, same))
      ]

  ask-InOrder : (now : ℕ) → InOrder sent r (pop r now).0 (returned (pop r now).1)
  ask-InOrder now =
      let (p, _) = pop_lem now v in
      let d = p.delivered in
      record {
        seqs = d.seqs;
        ascending = subst (Ascending r.buffer.next d.seqs) (sym p.next) d.ascending;
        items = d.items;
        paired = d.paired;
        output =
            put_back-returned (pop r now).1 (pending (pop r now).0.buffer)
            ∙ ap payloads (sym (Front-put_back (pop r now).1 _ _ p.front))
            ∙ pending-append r.buffer p.mid d.items v.sound.buffer.fifo d.same_pos d.appended;
      }

  step-IsValid : (c : Call) → Admissible sent r.buffer.window c → IsValid sent (step r c).0
  unfolding step
  step-IsValid (receive seq payload src now) (g, room) =
      (observe_lem seq payload src now v g room).0
  step-IsValid (ask now) _ = (pop_lem now v).0.valid

  step-InOrder :
      (c : Call)
      → Admissible sent r.buffer.window c
      → (step r c).0.resyncs ≡ r.resyncs
      → InOrder sent r (step r c).0 (step r c).1
  unfolding step
  step-InOrder (receive seq payload src now) (g, room) same =
      receive-InOrder seq payload src now g room same
  step-InOrder (ask now) _ same = ask-InOrder now

-- From a valid state, over any sequence of calls in which the release point is not re-pinned and
-- each sequence handed in is a window from the end of `uint64`, the payloads returned by
-- `Pop` and those still pending are the ones pending at the start, followed by payloads of strictly
-- rising sequences: nothing is returned twice, late or out of order, and the state stays valid.
pub run_lem :
    (sent : ℕ → List ℕ → Type 0) (r : Resequencer) (calls : List Call)
    → IsValid sent r
    → Steady sent r calls
    → IsValid sent (run r calls).0 × InOrder sent r (run r calls).0 (run r calls).1
unfolding run
run_lem sent r [] v s = (
  v,
  record {
    seqs = [];
    ascending = omega arith;
    items = [];
    paired = tt;
    output = sym (append-nil _);
  },
)
run_lem sent r (c ∷ cs) v (a, same, s) =
    let w = step-IsValid v c a in
    let (x, q) = run_lem sent (step r c).0 cs w s in (x, InOrder-trans (step-InOrder v c a same) q)
