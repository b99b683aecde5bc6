-- ===== src/Bond/Transport/Balance.antt =====
-- The loops over the attempts of a lane, against the bytes that its attempts hold: what a counter
-- loses, the attempts that are gone or released held.
use fecalia.Base.{
  ℕ, ◌+◌, ◌-◌, ◌≡◌, inl, inr, refl, sym, ap, ◌∙◌, Bool, true, false, Option, none, some, List, [],
  ◌∷◌, if◌then◌else◌, if_true, if_false, Bool-cases, add64, arith,
}
use fecalia.Bond.Transport.{Class, same_class, Carried, Attempt, Lane}
use fecalia.Bond.Transport.Flight.{
  Entry, take_from, release, release_once, count_wire, Sweep, confirm,
}

-- The counters of a lane: the bytes in flight, those of each class, and its latest sequence, which no
-- attempt holds a part of.
pub data Counter : Type 0 where
  all latest : Counter
  of_class : Class → Counter

abbrev pub counter : Lane → Counter → ℕ
counter p all = p.inflight
counter p latest = p.seq
counter p (of_class c) = p.class_inflight c

-- What an attempt adds to a counter.
abbrev pub weight : Counter → Attempt → ℕ
weight all s = s.bytes
weight latest s = 0
weight (of_class c) s = elim s.packet [
  | none ↦ 0
  | some k ↦ if same_class k.class c then s.bytes else 0
]

-- What it holds, until it is released.
abbrev pub load : Counter → Attempt → ℕ
load k s = if s.released then 0 else weight k s

abbrev pub held : Counter → List Entry → ℕ
held k [] = 0
held k ((_, s) ∷ l) = load k s + held k l

pub held-latest : (l : List Entry) → held latest l ≡ 0
held-latest [] = refl
held-latest ((_, s) ∷ l) = omega (arith, nothing s.released 0, held-latest l)
  where
    nothing : (b : Bool) (z : ℕ) → (if b then z else z) ≡ z
    nothing true z = refl
    nothing false z = refl

-- Every counter of the lane is what the attempts hold on top of `x`.
abbrev pub Holds : Lane → (Counter → ℕ) → List Entry → Type 0
Holds p x l = (k : Counter) → counter p k ≡ x k + held k l

-- A lane of the sequence `m` with nothing on top.
abbrev pub base : ℕ → Counter → ℕ
base m all = 0
base m latest = m
base m (of_class c) = 0

pub release_lem :
    (p : Lane) (s : Attempt) (k : Counter) → counter (release p s) k ≡ counter p k - weight k s
unfolding release
release_lem p s k = by_packet s.packet k
  where
    by_packet :
        (o : Option Carried) (k : Counter)
        → counter
            (elim o as (λ _. Lane) [
              | none ↦ record p { inflight = p.inflight - s.bytes }
              | some c ↦ record p {
                inflight = p.inflight - s.bytes;
                class_inflight = take_from p.class_inflight c.class s.bytes;
              }
            ])
            k
          ≡ counter p k - weight k (record s { packet = o })
    by_packet none all = refl
    by_packet none latest = omega arith
    by_packet none (of_class c) = omega arith
    by_packet (some d) all = refl
    by_packet (some d) latest = omega arith
    by_packet (some d) (of_class c) = elim (Bool-cases (same_class d.class c)) [
      | inl y ↦
          if_true (same_class d.class c) _ _ y
          ∙ ap (λ n. p.class_inflight c - n) (sym (if_true (same_class d.class c) _ _ y))
      | inr n ↦
          if_false (same_class d.class c) _ _ n
          ∙ omega arith
          ∙ ap (λ n. p.class_inflight c - n) (sym (if_false (same_class d.class c) s.bytes 0 n))
    ]

pub release_once_lem :
    (p : Lane) (s : Attempt) (k : Counter) → counter (release_once p s) k ≡ counter p k - load k s
release_once_lem p s k = elim (Bool-cases s.released) [
  | inl y ↦
      ap (λ (q : Lane). counter q k) (if_true s.released _ _ y)
      ∙ omega arith
      ∙ ap (λ n. counter p k - n) (sym (if_true s.released 0 (weight k s) y))
  | inr n ↦
      ap (λ (q : Lane). counter q k) (if_false s.released _ _ n)
      ∙ release_lem p s k
      ∙ ap (λ n. counter p k - n) (sym (if_false s.released 0 (weight k s) n))
]

-- The attempt in front is released.
pub release_once-Holds :
    (p : Lane) (x : Counter → ℕ) (seq : ℕ) (s : Attempt) (l : List Entry)
    → Holds p x ((seq, s) ∷ l)
    → Holds (release_once p s) x l
release_once-Holds p x seq s l h k = omega (arith, release_once_lem p s k, h k)

-- The attempt in front is kept, and counted on the other side.
pub keep_front :
    (p : Lane) (x : Counter → ℕ) (seq : ℕ) (s : Attempt) (l : List Entry)
    → Holds p x ((seq, s) ∷ l)
    → Holds p (λ k. x k + load k s) l
keep_front p x seq s l h k = omega (arith, h k)

pub keep_back :
    (p : Lane) (x : Counter → ℕ) (seq : ℕ) (s : Attempt) (l : List Entry)
    → Holds p (λ k. x k + load k s) l
    → Holds p x ((seq, s) ∷ l)
keep_back p x seq s l h k = omega (arith, h k)

counter-count_wire :
    (p : Lane) (s : Attempt) (k : Counter) → counter (count_wire p s) k ≡ counter p k
counter-count_wire p s k = by_packet s.packet k
  where
    by_packet :
        (o : Option Carried) (k : Counter)
        → counter (count_wire p (record s { packet = o })) k ≡ counter p k
    by_packet none all = refl
    by_packet none latest = refl
    by_packet none (of_class c) = refl
    by_packet (some d) all = refl
    by_packet (some d) latest = refl
    by_packet (some d) (of_class c) = refl

counter-acked : (p : Lane) (n : ℕ) (k : Counter) → counter (record p { acked = n }) k ≡ counter p k
counter-acked p n all = refl
counter-acked p n latest = refl
counter-acked p n (of_class c) = refl

pub confirm-Holds :
    (w : Sweep) (x : Counter → ℕ) (seq : ℕ) (s : Attempt) (l : List Entry)
    → Holds w.lane x ((seq, s) ∷ l)
    → Holds (confirm w s).lane x l
unfolding confirm
confirm-Holds w x seq s l h k =
    counter-acked (release_once (count_wire w.lane s) s)
      (add64 (release_once (count_wire w.lane s) s).acked s.bytes) k
    ∙ release_once-Holds (count_wire w.lane s) x seq s l (λ k. counter-count_wire w.lane s k ∙ h k)
        k
