-- ===== src/Bond/Queue/Flows.antt =====
-- What the ring holds for each flow: its packets, in their order.
use fecalia.Base.{
  ℕ, ◌-◌, ◌≡◌, ◌≢◌, inl, inr, refl, sym, ap, ◌∙◌, true, false, Option, none, some, List, [], ◌∷◌,
  ◌++◌, ◌==◌, ==_iff, arith, if◌then◌else◌, if_true, if_false, Bool-cases,
}
use mathlib.Core.Path.{subst}
use fecalia.Frame.{◌>>=◌}
use fecalia.Bond.Queue.{
  Packet, Flow, FairQueue, first, extend, insert, push, peek, rotate, pop_ring, pop,
}
use fecalia.Bond.Queue.Invariant.{Fresh, AreFlows, IsValid}

-- The packets of a flow, none if it is not in the ring.
abbrev pub packets_of : ℕ → List Flow → List Packet
packets_of id [] = []
packets_of id (f ∷ l) = if f.id == id then f.packets else packets_of id l

same_refl : (a : ℕ) → (a == a) ≡ true
same_refl a = ground arith

other_false : (a b : ℕ) → a ≢ b → (a == b) ≡ false
other_false a b n = ground arith

insert_own :
    (l : List Flow) (p : Packet)
    → packets_of p.flow (insert l p).1 ≡ (extend (packets_of p.flow l) p).1
unfolding insert extend
insert_own [] p = if_true (p.flow == p.flow) _ _ (same_refl p.flow)
insert_own (f ∷ l) p = elim (Bool-cases (f.id == p.flow)) [
  | inl e ↦ rw (e) (if_true (f.id == p.flow) _ _ e)
  | inr e ↦ rw (e) (if_false (f.id == p.flow) _ _ e ∙ insert_own l p)
]

insert_other :
    (id : ℕ) (l : List Flow) (p : Packet)
    → p.flow ≢ id
    → packets_of id (insert l p).1 ≡ packets_of id l
unfolding insert
insert_other id [] p n = if_false (p.flow == id) _ _ (other_false p.flow id n)
insert_other id (f ∷ l) p n = elim (Bool-cases (f.id == p.flow)) [
  | inl e ↦
      let no : (f.id == id) ≡ false =
        other_false f.id id (λ q. n (sym ((==_iff f.id p.flow).0 e) ∙ q)) in
      rw (e) (if_false (f.id == id) _ _ no ∙ sym (if_false (f.id == id) _ _ no))
  | inr e ↦ elim (Bool-cases (f.id == id)) [
    | inl y ↦ rw (e) (if_true (f.id == id) _ _ y ∙ sym (if_true (f.id == id) _ _ y))
    | inr y ↦
        rw (e)
          (if_false (f.id == id) _ _ y ∙ insert_other id l p n ∙ sym (if_false (f.id == id) _ _ y))
  ]
]

-- A push extends the packets of the packet's own flow, and leaves those of every other flow alone.
pub push_lem :
    (q : FairQueue) (p : Packet)
    → (packets_of p.flow (push q p).0.ring ≡ (extend (packets_of p.flow q.ring) p).1)
      × ((id : ℕ) → p.flow ≢ id → packets_of id (push q p).0.ring ≡ packets_of id q.ring)
unfolding push
push_lem q p = (insert_own q.ring p, λ id n. insert_other id q.ring p n)

packets_of-append :
    (id : ℕ) (l : List Flow) (g : Flow)
    → g.id ≢ id
    → packets_of id (l ++ (g ∷ [])) ≡ packets_of id l
packets_of-append id [] g n = if_false (g.id == id) _ _ (other_false g.id id n)
packets_of-append id (f ∷ l) g n = elim (Bool-cases (f.id == id)) [
  | inl y ↦ if_true (f.id == id) _ _ y ∙ sym (if_true (f.id == id) _ _ y)
  | inr y ↦
      if_false (f.id == id) _ _ y ∙ packets_of-append id l g n ∙ sym (if_false (f.id == id) _ _ y)
]

packets_of_last :
    (l : List Flow) (g : Flow) → Fresh g.id l → packets_of g.id (l ++ (g ∷ [])) ≡ g.packets
packets_of_last [] g h = if_true (g.id == g.id) _ _ (same_refl g.id)
packets_of_last (f ∷ l) g (n, h) =
    if_false (f.id == g.id) _ _ (other_false f.id g.id n) ∙ packets_of_last l g h

packets_of-Fresh : (id : ℕ) (l : List Flow) → Fresh id l → packets_of id l ≡ []
packets_of-Fresh id [] h = refl
packets_of-Fresh id (f ∷ l) (n, h) =
    if_false (f.id == id) _ _ (other_false f.id id n) ∙ packets_of-Fresh id l h

rotate_own :
    (f : Flow) (rest : List Packet) (l : List Flow)
    → Fresh f.id l
    → packets_of f.id (rotate f rest l) ≡ rest
unfolding rotate
rotate_own f [] l h = packets_of-Fresh f.id l h
rotate_own f (p ∷ rest) l h = packets_of_last l (record f { packets = p ∷ rest }) h

rotate_other :
    (id : ℕ) (f : Flow) (rest : List Packet) (l : List Flow)
    → f.id ≢ id
    → packets_of id (rotate f rest l) ≡ packets_of id l
unfolding rotate
rotate_other id f [] l n = refl
rotate_other id f (p ∷ rest) l n = packets_of-append id l (record f { packets = p ∷ rest }) n

-- The packet `p` stands first in a flow, `popped` takes it from there, and from no other.
abbrev pub Takes : List Flow → Option Packet → Option (List Flow) → Type 0
Takes l none o = o ≡ none
Takes l (some p) none = ⊥
Takes l (some p) (some m) =
    (id : ℕ) × ((packets_of id l ≡ p ∷ packets_of id m)
      × ((other : ℕ) → id ≢ other → packets_of other m ≡ packets_of other l))

pop_ring-Takes :
    (f : Flow) (ps : List Packet) (l : List Flow)
    → f.packets ≡ ps
    → Fresh f.id l
    → Takes (f ∷ l) (first ps) (pop_ring (f ∷ l))
unfolding pop_ring
pop_ring-Takes f [] l e h = rw (e) refl
pop_ring-Takes f (p ∷ rest) l e h = rw (e) (
  f.id,
  (
    if_true (f.id == f.id) _ _ (same_refl f.id)
        ∙ ap (λ (ps : List Packet). p ∷ ps) (sym (rotate_own f rest l h)),
    λ other n.
        rotate_other other f rest l n
        ∙ sym (if_false (f.id == other) _ _ (other_false f.id other n)),
  ),
)

-- The rings of what `pop` answers.
abbrev pub ring_of : Option FairQueue → Option (List Flow)
ring_of none = none
ring_of (some q) = some q.ring

popped_ring :
    (q : FairQueue) (o : Option (List Flow))
    → ring_of (do ring ← o; some (record { ring = ring; count = q.count - 1 })) ≡ o
popped_ring q none = refl
popped_ring q (some m) = refl

-- On a well-formed queue `pop` takes the packet that `peek` shows from the front of one flow, and
-- leaves every other flow alone; it fails if `peek` shows none.
pub pop-Takes : (q : FairQueue) → IsValid q → Takes q.ring (peek q) (ring_of (pop q))
unfolding pop peek
pop-Takes q v =
    subst (Takes q.ring (peek q)) (sym (popped_ring q (pop_ring q.ring))) (takes q.ring v.flows)
  where
    takes :
        (l : List Flow) → AreFlows l → Takes l (peek (record { ring = l; count = 0 })) (pop_ring l)
    takes [] h = refl
    takes (f ∷ l) (_, n, h) = pop_ring-Takes f f.packets l refl n
