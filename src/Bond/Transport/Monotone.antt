-- ===== src/Bond/Transport/Monotone.antt =====
-- Lanes and receipts as the latest delivery sequence grows, and as an attempt is added.
use fecalia.Base.{
  ℕ, ◌+◌, ◌≤◌, ◌≡◌, ◌⊎◌, inl, inr, sym, ap, ◌∙◌, Bool, true, false, Option, none, some, List, [],
  ◌∷◌, ◌++◌, ltb, ◌==◌, if◌then◌else◌, if_both, arith,
}
use mathlib.Core.Path.{subst}
use fecalia.Bond.Transport.{Class, same_class, Datagram, Carried, Lane, Ledger}
use fecalia.Bond.Transport.Flight.{Entry, member, delete, begin_attempt, launch}
use fecalia.Bond.Transport.Send.{put_datagram, await_receipt, retain}
use fecalia.Bond.Transport.Balance.{
  Counter, all, latest, of_class, counter, held, held-latest, base,
}
use fecalia.Bond.Transport.Kept.{Each, member_cons, member-delete}
use fecalia.Bond.Transport.Ledgers.{Sound, Given, Keys}
use fecalia.Bond.Transport.Balanced.{IsLane, AreLanes}

abbrev pub AreOrdered : ℕ → List Datagram → Type 0
AreOrdered n [] = Unit
AreOrdered n (d ∷ l) = (d.seq ≤ n) × AreOrdered n l

Given-mono : (n m : ℕ) (o : Option Carried) → n ≤ m → Given n o → Given m o
Given-mono n m none le g = g
Given-mono n m (some k) le g = omega arith

pub Keys-mono :
    (i j n m : ℕ) (l : List Entry) → i ≤ j → n ≤ m → Each (Keys i n) l → Each (Keys j m) l
Keys-mono i j n m [] le le2 h = h
Keys-mono i j n m ((seq, s) ∷ l) le le2 ((low, given), h) =
    ((omega arith, Given-mono n m s.packet le2 given), Keys-mono i j n m l le le2 h)

pub lanes_mono : (n m : ℕ) (l : List Lane) → n ≤ m → AreLanes n l → AreLanes m l
lanes_mono n m [] le vs = vs
lanes_mono n m (p ∷ l) le (v, vs) = (
  record {
    balanced = v.balanced;
    keys = Keys-mono p.seq p.seq n m p.attempts (omega arith) le v.keys;
  },
  lanes_mono n m l le vs,
)

pub order_mono : (n m : ℕ) (l : List Datagram) → n ≤ m → AreOrdered n l → AreOrdered m l
order_mono n m [] le h = h
order_mono n m (d ∷ l) le (low, h) = (omega arith, order_mono n m l le h)

pub order_append :
    (n : ℕ) (l : List Datagram) (d : Datagram)
    → AreOrdered n l
    → d.seq ≤ n
    → AreOrdered n (l ++ (d ∷ []))
order_append n [] d h le = (le, tt)
order_append n (e ∷ l) d (low, h) le = (low, order_append n l d h le)

pub order_put :
    (n : ℕ) (l : List Datagram) (d : Datagram)
    → AreOrdered n l
    → d.seq ≤ n
    → AreOrdered n (put_datagram l d)
order_put n [] d h le = h
order_put n (e ∷ l) d (low, h) le =
    if_both (AreOrdered n) (e.seq == d.seq) (le, h) (low, order_put n l d h le)

pub Sound-mono : (n m : ℕ) (g : Ledger) → n ≤ m → Sound n g → Sound m g
Sound-mono n m g le v = record {
  apart = v.apart;
  pending_bound = λ k e. omega (arith, v.pending_bound k e, le);
  acked_bound = λ k e. omega (arith, v.acked_bound k e, le);
}

pub await_receipt-Sound :
    (n seq : ℕ) (g : Ledger)
    → seq ≤ n
    → member seq g.acked ≡ false
    → Sound n g
    → Sound n (await_receipt g seq)
await_receipt-Sound n seq g le unset v = record {
  apart = λ k e. elim (cases k e) [
    | inl p ↦ subst (λ z. member z g.acked ≡ false) p unset
    | inr q ↦ v.apart k q
  ];
  pending_bound =
      λ k e. elim (cases k e) [ inl p ↦ omega (arith, p) | inr q ↦ v.pending_bound k q ];
  acked_bound = v.acked_bound;
}
  where
    cases :
        (k : ℕ)
        → member k (if member seq g.pending then g.pending else seq ∷ g.pending) ≡ true
        → (seq ≡ k) ⊎ (member k g.pending ≡ true)
    cases k =
        if_both (λ (l : List ℕ). member k l ≡ true → (seq ≡ k) ⊎ (member k g.pending ≡ true))
          (member seq g.pending) (λ e. inr e) (member_cons k seq g.pending)

forget-Sound :
    (n x : ℕ) (g : Ledger) → Sound n g → Sound n (record g { pending = delete x g.pending })
forget-Sound n x g v = record {
  apart = λ k e. v.apart k (member-delete k x g.pending e).0;
  pending_bound = λ k e. v.pending_bound k (member-delete k x g.pending e).0;
  acked_bound = v.acked_bound;
}

pub retain-Sound :
    (n now : ℕ) (l : List Datagram) (g : Ledger) (expired : ℕ)
    → AreOrdered n l
    → Sound n g
    → let r = retain now l g expired in AreOrdered n r.0 × Sound n r.1.0
unfolding retain
retain-Sound n now [] g expired h v = (h, v)
retain-Sound n now (d ∷ l) g expired (le, h) v =
    if_both (λ (r : List Datagram × (Ledger × ℕ)). AreOrdered n r.0 × Sound n r.1.0)
      (member d.seq g.acked) (retain-Sound n now l _ expired h (forget-Sound n d.seq g v))
      (if_both (λ (r : List Datagram × (Ledger × ℕ)). AreOrdered n r.0 × Sound n r.1.0)
        (ltb d.repair_deadline now) (retain-Sound n now l _ _ h (forget-Sound n d.seq g v))
        (let (kept, sound) = retain-Sound n now l g expired h v in ((le, kept), sound)))

-- A lane that differs from a sound one in nothing that the invariant reads.
pub same_counters :
    (n : ℕ) (p q : Lane)
    → q.inflight ≡ p.inflight
    → q.seq ≡ p.seq
    → ((c : Class) → q.class_inflight c ≡ p.class_inflight c)
    → q.attempts ≡ p.attempts
    → IsLane n p
    → IsLane n q
same_counters n p q bytes seq classes e v = record {
  balanced = λ k.
      same k
      ∙ v.balanced k
      ∙ ap (λ (i : ℕ). base i k + held k p.attempts) (sym seq)
      ∙ ap (λ (l : List Entry). base q.seq k + held k l) (sym e);
  keys =
      subst (Each (Keys q.seq n)) (sym e)
        (subst (λ i. Each (Keys i n) p.attempts) (sym seq) v.keys);
}
  where
    same : (k : Counter) → counter q k ≡ counter p k
    same all = bytes
    same latest = seq
    same (of_class c) = classes c

-- A lane that has sent nothing.
pub idle-IsLane :
    (n : ℕ) (p : Lane)
    → p.inflight ≡ 0
    → p.seq ≡ 0
    → ((c : Class) → p.class_inflight c ≡ 0)
    → p.attempts ≡ []
    → IsLane n p
idle-IsLane n p bytes seq classes e = record {
  balanced = λ k. nothing k ∙ ap (λ (l : List Entry). base p.seq k + held k l) (sym e);
  keys = subst (Each (Keys p.seq n)) (sym e) tt;
}
  where
    nothing : (k : Counter) → counter p k ≡ base p.seq k + 0
    nothing all = omega (arith, bytes)
    nothing latest = omega arith
    nothing (of_class c) = omega (arith, classes c)

-- An attempt more, under the next sequence.
pub launch-IsLane :
    (n : ℕ) (p : Lane) (o : Option Carried) (size now : ℕ)
    → Given n o
    → IsLane n p
    → IsLane n (launch (begin_attempt p) o size now)
unfolding launch
launch-IsLane n p o size now given v = record {
  balanced = by_packet o;
  keys = (
    (omega arith, given),
    Keys-mono p.seq (p.seq + 1) n n p.attempts (omega arith) (omega arith) v.keys,
  );
}
  where
    by_packet :
        (o : Option Carried) (k : Counter)
        → counter (launch (begin_attempt p) o size now) k
          ≡ base (p.seq + 1) k + held k (launch (begin_attempt p) o size now).attempts
    by_packet o all = omega (arith, v.balanced all)
    by_packet o latest = omega (arith, held-latest p.attempts)
    by_packet none (of_class c) = omega (arith, v.balanced (of_class c))
    by_packet (some d) (of_class c) =
        added (same_class d.class c) (p.class_inflight c) size (held (of_class c) p.attempts)
          (v.balanced (of_class c))
      where
        added :
            (b : Bool) (x y z : ℕ)
            → x ≡ 0 + z
            → (if b then x + y else x) ≡ 0 + ((if b then y else 0) + z)
        added true x y z e = omega arith
        added false x y z e = omega arith
