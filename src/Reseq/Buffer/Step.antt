-- ===== src/Reseq/Buffer/Step.antt =====
-- Steps that release frames: which sequences, in which order, and what they leave in place.
use fecalia.Base.{
  ℕ, ◌+◌, ◌-◌, ◌%◌, ◌≤◌, ◌≡◌, refl, sym, ap, ◌∙◌, true, List, [], ◌∷◌, ◌++◌, map, append-nil,
  append_assoc, arith, get_or, length, length-append, u64_mod,
}
use fecalia.Reseq.Buffer.{Item, Slot, zero_slot, Buffer}
use fecalia.Reseq.Buffer.Window.{occupied_at, Carries}

-- The numbers of the list rise strictly from `lo` on, below `hi`.
abbrev pub Ascending : ℕ → List ℕ → ℕ → Type 0
Ascending lo [] hi = lo ≤ hi
Ascending lo (s ∷ ss) hi = (lo ≤ s) × Ascending (s + 1) ss hi

pub Ascending-append :
    (lo : ℕ) (xs : List ℕ) (mid : ℕ) (ys : List ℕ) (hi : ℕ)
    → Ascending lo xs mid
    → Ascending mid ys hi
    → Ascending lo (xs ++ ys) hi
Ascending-append lo [] mid [] hi p q = omega arith
Ascending-append lo [] mid (y ∷ ys) hi p q = (omega arith, q.1)
Ascending-append lo (x ∷ xs) mid ys hi p q = (p.0, Ascending-append (x + 1) xs mid ys hi p.1 q)

pub Ascending-le : (lo : ℕ) (xs : List ℕ) (hi : ℕ) → Ascending lo xs hi → lo + length xs ≤ hi
Ascending-le lo [] hi p = omega arith
Ascending-le lo (x ∷ xs) hi p = omega (arith, Ascending-le (x + 1) xs hi p.1)

-- Each payload is allowed under the sequence beside it.
abbrev pub Pairs : (ℕ → List ℕ → Type 0) → List ℕ → List (List ℕ) → Type 0
Pairs sent [] [] = Unit
Pairs sent [] (p ∷ ps) = ⊥
Pairs sent (s ∷ ss) [] = ⊥
Pairs sent (s ∷ ss) (p ∷ ps) = sent s p × Pairs sent ss ps

pub Pairs-append :
    (sent : ℕ → List ℕ → Type 0) (xs : List ℕ) (ps : List (List ℕ)) (ys : List ℕ)
    (qs : List (List ℕ))
    → Pairs sent xs ps
    → Pairs sent ys qs
    → Pairs sent (xs ++ ys) (ps ++ qs)
Pairs-append sent [] [] ys qs p q = q
Pairs-append sent [] (_ ∷ _) ys qs p q = absurd p
Pairs-append sent (_ ∷ _) [] ys qs p q = absurd p
Pairs-append sent (x ∷ xs) (c ∷ ps) ys qs p q = (p.0, Pairs-append sent xs ps ys qs p.1 q)

-- The payloads of a FIFO.
abbrev pub payloads : List Item → List (List ℕ)
payloads = map (λ it. it.payload)

-- A step from `b` to `b'` releases the frames of the sequences `seqs`, in this order, with the
-- payloads `items` that they carry, leaves the others where they were, and accounts for each sequence that it
-- passes.
pub record Released (sent : ℕ → List ℕ → Type 0) (b b' : Buffer) : Type 0 where
  pub seqs : List ℕ
  pub ascending : Ascending b.next seqs b'.next
  pub items : List (List ℕ)
  pub delivered : Pairs sent seqs items
  pub appended : payloads b'.ready ≡ payloads b.ready ++ items
  pub kept :
      (i : ℕ)
      → occupied_at b'.ring i ≡ true
      → get_or b'.ring i zero_slot ≡ get_or b.ring i zero_slot
  pub conserved : length seqs + b'.buf ≡ b.buf
  pub counted : b'.released_n % u64_mod ≡ (b.released_n + length seqs) % u64_mod
  pub accounted : (b'.skipped + length seqs) % u64_mod ≡ (b.skipped + (b'.next - b.next)) % u64_mod
  pub same_window : b'.window ≡ b.window
  pub same_pos : b'.ready_pos ≡ b.ready_pos

module _ (sent : ℕ → List ℕ → Type 0) where
  pub Released-refl : (b : Buffer) → Released sent b b
  Released-refl b = record {
    seqs = [];
    ascending = omega arith;
    items = [];
    delivered = tt;
    appended = sym (append-nil _);
    kept = λ i o. refl;
    conserved = omega arith;
    counted = omega arith;
    accounted = omega arith;
    same_window = refl;
    same_pos = refl;
  }

  pub Released-trans : {a b c : Buffer} → Released sent a b → Released sent b c → Released sent a c
  Released-trans {a} {b} {c} p q = record {
    seqs = p.seqs ++ q.seqs;
    ascending = Ascending-append a.next p.seqs b.next q.seqs c.next p.ascending q.ascending;
    items = p.items ++ q.items;
    delivered = Pairs-append sent p.seqs p.items q.seqs q.items p.delivered q.delivered;
    appended = q.appended ∙ rw (p.appended, append_assoc);
    kept = λ i o. q.kept i o ∙ p.kept i (ap (λ (s : Slot). s.occupied) (sym (q.kept i o)) ∙ o);
    conserved = omega (arith, length-append p.seqs q.seqs, p.conserved, q.conserved);
    counted = omega (arith, length-append p.seqs q.seqs, p.counted, q.counted);
    accounted = omega (
      arith,
      length-append p.seqs q.seqs,
      p.accounted,
      q.accounted,
      Ascending-le a.next p.seqs b.next p.ascending,
      Ascending-le b.next q.seqs c.next q.ascending,
    );
    same_window = q.same_window ∙ p.same_window;
    same_pos = q.same_pos ∙ p.same_pos;
  }

  pub Released-Carries :
      {b b' : Buffer} → Released sent b b' → Carries sent b.ring → Carries sent b'.ring
  Released-Carries {b} {b'} r h i o =
      rw (r.kept i o) (h i (ap (λ (s : Slot). s.occupied) (sym (r.kept i o)) ∙ o))
