-- ===== src/Bond/Queue/Turn.antt =====
-- The turns of the flows: a burst in one flow does not hold up another.
use fecalia.Base.{
  ℕ, suc, zero, ◌<◌, ◌≡◌, inl, inr, refl, sym, not, ◌&&◌, Option, some, List, [], ◌∷◌, ◌++◌, ◌-◌,
  ◌==◌, ==_iff, Bool-cases, length,
}
use mathlib.Core.Path.{subst}
use fecalia.Frame.{◌>>=◌}
use fecalia.Bond.Queue.{
  Packet, Flow, FairQueue, first, supersedes, extend, insert, push, peek, rotate, pop_ring, pop,
}
use fecalia.Bond.Queue.Invariant.{Fresh, AreFlows, IsValid, push-IsValid, Pops, pop-Pops}

-- What the scheduler does with the queue.
pub data Use : Type 0 where
  gives : Packet → Use
  takes : Use

abbrev pub run : FairQueue → List Use → Option FairQueue
run q [] = some q
run q (gives p ∷ l) = run (push q p).0 l
run q (takes ∷ l) = do r ← pop q; run r l

abbrev pub taken : List Use → ℕ
taken [] = 0
taken (gives _ ∷ l) = taken l
taken (takes ∷ l) = suc (taken l)

-- The packet stands first in the flow that is `k` places behind the head.
abbrev Turn : ℕ → Packet → List Flow → Type 0
Turn k p [] = ⊥
Turn zero p (f ∷ l) = first f.packets ≡ some p
Turn (suc k) p (f ∷ l) = Turn k p l

first-extend : (l : List Packet) (p x : Packet) → first l ≡ some p → first (extend l x).1 ≡ some p
unfolding extend
first-extend [] p x e = cc e
first-extend (a ∷ []) p x e = e
first-extend (a ∷ b ∷ []) p x e =
    elim (Bool-cases (not (x.flow == 0) && supersedes b.ack a.ack && supersedes x.ack b.ack)) [
      | inl y ↦ rw (y) e
      | inr y ↦ rw (y) e
    ]
first-extend (a ∷ b ∷ c ∷ l) p x e = e

insert-Turn : (k : ℕ) (l : List Flow) (p x : Packet) → Turn k p l → Turn k p (insert l x).1
unfolding insert
insert-Turn k [] p x h = elim h [ ]
insert-Turn zero (f ∷ l) p x h = elim (Bool-cases (f.id == x.flow)) [
  | inl y ↦ rw (y) (first-extend f.packets p x h)
  | inr y ↦ rw (y) h
]
insert-Turn (suc k) (f ∷ l) p x h = elim (Bool-cases (f.id == x.flow)) [
  | inl y ↦ rw (y) h
  | inr y ↦ rw (y) (insert-Turn k l p x h)
]

Turn-append : (k : ℕ) (l m : List Flow) (p : Packet) → Turn k p l → Turn k p (l ++ m)
Turn-append k [] m p h = elim h [ ]
Turn-append zero (f ∷ l) m p h = h
Turn-append (suc k) (f ∷ l) m p h = Turn-append k l m p h

rotate-Turn :
    (k : ℕ) (f : Flow) (rest : List Packet) (l : List Flow) (p : Packet)
    → Turn k p l
    → Turn k p (rotate f rest l)
unfolding rotate
rotate-Turn k f [] l p h = h
rotate-Turn k f (x ∷ rest) l p h = Turn-append k l (record f { packets = x ∷ rest } ∷ []) p h

pop_ring-Turn :
    (k : ℕ) (f : Flow) (ps : List Packet) (l : List Flow) (p : Packet)
    → f.packets ≡ ps
    → 0 < length ps
    → Turn k p l
    → (m : List Flow) × ((pop_ring (f ∷ l) ≡ some m) × Turn k p m)
unfolding pop_ring
pop_ring-Turn k f [] l p e full h = elim full [ ]
pop_ring-Turn k f (x ∷ rest) l p e full h =
    (rotate f rest l, (rw (e) refl, rotate-Turn k f rest l p h))

pop-Turn :
    (k : ℕ) (q : FairQueue) (p : Packet)
    → IsValid q
    → Turn (suc k) p q.ring
    → (r : FairQueue) × ((pop q ≡ some r) × (IsValid r × Turn k p r.ring))
unfolding pop
pop-Turn k q p v h =
    let (m, (e, t)) = ring_turn q.ring v.flows h in
    let r : FairQueue = record { ring = m; count = q.count - 1 } in
    let popped : pop q ≡ some r = rw (e) refl in
    (r, (popped, ((subst (Pops q) popped (pop-Pops q v)).0, t)))
  where
    ring_turn :
        (l : List Flow)
        → AreFlows l
        → Turn (suc k) p l
        → (m : List Flow) × ((pop_ring l ≡ some m) × Turn k p m)
    ring_turn [] a h = elim h [ ]
    ring_turn (f ∷ l) (full, _, _) h = pop_ring-Turn k f f.packets l p refl full h

run-Turn :
    (l : List Use) (q : FairQueue) (p : Packet)
    → IsValid q
    → Turn (taken l) p q.ring
    → (r : FairQueue) × ((run q l ≡ some r) × (peek r ≡ some p))
unfolding peek push
run-Turn [] q p v h = (q, (refl, shown q.ring h))
  where
    shown :
        (ring : List Flow) → Turn 0 p ring → peek (record { ring = ring; count = q.count }) ≡ some p
    shown [] h = elim h [ ]
    shown (f ∷ ring) h = h
run-Turn (gives x ∷ l) q p v h =
    run-Turn l (push q x).0 p (push-IsValid q x v) (insert-Turn (taken l) q.ring p x h)
run-Turn (takes ∷ l) q p v h =
    let (m, (e, (w, t))) = pop-Turn (taken l) q p v h in
    let (r, (ran, shows)) = run-Turn l m p w t in (r, (rw (e) ran, shows))

insert_new : (l : List Flow) (p : Packet) → Fresh p.flow l → Turn (length l) p (insert l p).1
unfolding insert
insert_new [] p h = refl
insert_new (f ∷ l) p (n, h) = elim (Bool-cases (f.id == p.flow)) [
  | inl y ↦ absurd (n ((==_iff f.id p.flow).0 y))
  | inr y ↦ rw (y) (insert_new l p h)
]

-- A packet of a flow that is not in the queue is shown after exactly one `pop` for each flow that was
-- there when it came, however many packets are pushed meanwhile; none of these calls of `pop` fails.
pub push_turn :
    (q : FairQueue) (p : Packet) (l : List Use)
    → IsValid q
    → Fresh p.flow q.ring
    → taken l ≡ length q.ring
    → (r : FairQueue) × ((run (push q p).0 l ≡ some r) × (peek r ≡ some p))
unfolding push
push_turn q p l v new e =
    run-Turn l (push q p).0 p (push-IsValid q p v)
      (subst (λ k. Turn k p (insert q.ring p).1) (sym e) (insert_new q.ring p new))
