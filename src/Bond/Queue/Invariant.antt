-- ===== src/Bond/Queue/Invariant.antt =====
-- The well-formed queue: every flow stands in the ring once and has packets, and the count is right.
use fecalia.Base.{
  ℕ, suc, ◌+◌, ◌-◌, ◌<◌, ◌≡◌, ◌≢◌, inl, inr, refl, sym, ap, ◌∙◌, Bool, true, false, not, ◌&&◌,
  Option, none, some, List, [], ◌∷◌, ◌++◌, ◌==◌, arith, if◌then◌else◌, Bool-cases, length,
}
use fecalia.Frame.{◌>>=◌}
use fecalia.Bond.Queue.{
  Packet, Flow, FairQueue, supersedes, extend, insert, push, rotate, pop_ring, pop,
}

-- No flow of the ring has the identifier.
abbrev pub Fresh : ℕ → List Flow → Type 0
Fresh id [] = Unit
Fresh id (f ∷ l) = (f.id ≢ id) × Fresh id l

abbrev pub AreFlows : List Flow → Type 0
AreFlows [] = Unit
AreFlows (f ∷ l) = (0 < length f.packets) × Fresh f.id l × AreFlows l

abbrev pub total : List Flow → ℕ
total [] = 0
total (f ∷ l) = length f.packets + total l

pub record IsValid (q : FairQueue) : Type 0 where
  pub flows : AreFlows q.ring
  pub counted : q.count ≡ total q.ring

-- The places that a packet takes.
abbrev places : Bool → ℕ
places true = 0
places false = 1

pub extend_full : (l : List Packet) (p : Packet) → 0 < length (extend l p).1
unfolding extend
extend_full [] p = omega arith
extend_full (a ∷ []) p = omega arith
extend_full (a ∷ b ∷ []) p =
    elim (Bool-cases (not (p.flow == 0) && supersedes b.ack a.ack && supersedes p.ack b.ack)) [
      | inl e ↦ rw (e) (omega arith)
      | inr e ↦ rw (e) (omega arith)
    ]
extend_full (a ∷ b ∷ c ∷ l) p = omega arith

length-extend :
    (l : List Packet) (p : Packet) → length (extend l p).1 ≡ length l + places (extend l p).0
unfolding extend
length-extend [] p = refl
length-extend (a ∷ []) p = refl
length-extend (a ∷ b ∷ []) p =
    elim (Bool-cases (not (p.flow == 0) && supersedes b.ack a.ack && supersedes p.ack b.ack)) [
      | inl e ↦ rw (e) refl
      | inr e ↦ rw (e) refl
    ]
length-extend (a ∷ b ∷ c ∷ l) p = omega (arith, length-extend (b ∷ c ∷ l) p)

insert-Fresh :
    (id : ℕ) (l : List Flow) (p : Packet) → p.flow ≢ id → Fresh id l → Fresh id (insert l p).1
unfolding insert
insert-Fresh id [] p n h = (n, tt)
insert-Fresh id (f ∷ l) p n (g, h) = elim (Bool-cases (f.id == p.flow)) [
  | inl e ↦ rw (e) (g, h)
  | inr e ↦ rw (e) (g, insert-Fresh id l p n h)
]

insert-AreFlows : (l : List Flow) (p : Packet) → AreFlows l → AreFlows (insert l p).1
unfolding insert
insert-AreFlows [] p h = (omega arith, tt, tt)
insert-AreFlows (f ∷ l) p (full, new, h) = elim (Bool-cases (f.id == p.flow)) [
  | inl e ↦ rw (e) (extend_full f.packets p, new, h)
  | inr e ↦
      rw (e)
        (full, insert-Fresh f.id l p (λ q. other f.id p.flow e (sym q)) new, insert-AreFlows l p h)
]
  where
    other : (a b : ℕ) → (a == b) ≡ false → a ≢ b
    other a b e q = ground arith

total-insert : (l : List Flow) (p : Packet) → total (insert l p).1 ≡ total l + places (insert l p).0
unfolding insert
total-insert [] p = refl
total-insert (f ∷ l) p = elim (Bool-cases (f.id == p.flow)) [
  | inl e ↦ rw (e) (omega (arith, length-extend f.packets p))
  | inr e ↦ rw (e) (omega (arith, total-insert l p))
]

-- A packet that is pushed leaves a well-formed queue well-formed, coalesced or not.
pub push-IsValid : (q : FairQueue) (p : Packet) → IsValid q → IsValid (push q p).0
unfolding push
push-IsValid q p v = record {
  flows = insert-AreFlows q.ring p v.flows;
  counted = counted (insert q.ring p).0 (total-insert q.ring p);
}
  where
    counted :
        (b : Bool)
        → total (insert q.ring p).1 ≡ total q.ring + places b
        → (if b then q.count else q.count + 1) ≡ total (insert q.ring p).1
    counted true e = omega (arith, e, v.counted)
    counted false e = omega (arith, e, v.counted)

total-append : (l m : List Flow) → total (l ++ m) ≡ total l + total m
total-append [] m = omega arith
total-append (f ∷ l) m = omega (arith, total-append l m)

Fresh-append :
    (id : ℕ) (l : List Flow) (g : Flow) → Fresh id l → g.id ≢ id → Fresh id (l ++ (g ∷ []))
Fresh-append id [] g h n = (n, tt)
Fresh-append id (f ∷ l) g (m, h) n = (m, Fresh-append id l g h n)

AreFlows-append :
    (l : List Flow) (g : Flow)
    → AreFlows l
    → Fresh g.id l
    → 0 < length g.packets
    → AreFlows (l ++ (g ∷ []))
AreFlows-append [] g h n full = (full, tt, tt)
AreFlows-append (f ∷ l) g (some_packet, new, h) (n, fresh) full =
    (some_packet, Fresh-append f.id l g new (λ e. n (sym e)), AreFlows-append l g h fresh full)

-- The ring that a `pop` leaves.
abbrev pub Popped : List Flow → Option (List Flow) → Type 0
Popped l none = l ≡ []
Popped l (some m) = AreFlows m × (total l ≡ suc (total m))

rotate-AreFlows :
    (f : Flow) (rest : List Packet) (l : List Flow)
    → Fresh f.id l
    → AreFlows l
    → AreFlows (rotate f rest l) × (total (rotate f rest l) ≡ length rest + total l)
unfolding rotate
rotate-AreFlows f [] l n h = (h, omega arith)
rotate-AreFlows f (p ∷ rest) l n h =
    let g : Flow = record f { packets = p ∷ rest } in
    (AreFlows-append l g h n (omega arith), omega (arith, total-append l (g ∷ [])))

pop_head :
    (f : Flow) (ps : List Packet) (l : List Flow)
    → f.packets ≡ ps
    → 0 < length ps
    → Fresh f.id l
    → AreFlows l
    → Popped (f ∷ l) (pop_ring (f ∷ l))
unfolding pop_ring
pop_head f [] l e full n h = elim full [ ]
pop_head f (p ∷ rest) l e full n h =
    let (flows, size) = rotate-AreFlows f rest l n h in
    rw (e) (flows, omega (arith, size, ap (λ (ps : List Packet). length ps) e))

pop_ring-Popped : (l : List Flow) → AreFlows l → Popped l (pop_ring l)
unfolding pop_ring
pop_ring-Popped [] h = refl
pop_ring-Popped (f ∷ l) (full, n, h) = pop_head f f.packets l refl full n h

-- What `pop` does to a well-formed queue: none if it is empty, else a well-formed queue with one
-- packet less.
abbrev pub Pops : FairQueue → Option FairQueue → Type 0
Pops q none = q.count ≡ 0
Pops q (some r) = IsValid r × (q.count ≡ suc r.count)

pops :
    (q : FairQueue) (o : Option (List Flow))
    → q.count ≡ total q.ring
    → Popped q.ring o
    → Pops q (do ring ← o; some (record { ring = ring; count = q.count - 1 }))
pops q none c h = c ∙ ap total h
pops q (some m) c (flows, size) =
    (record { flows = flows; counted = omega (arith, c, size) }, omega (arith, c, size))

-- On a well-formed queue `pop` fails only if the queue is empty; it leaves the queue well-formed,
-- and its count is one less.
pub pop-Pops : (q : FairQueue) → IsValid q → Pops q (pop q)
unfolding pop
pop-Pops q v = pops q (pop_ring q.ring) v.counted (pop_ring-Popped q.ring v.flows)
