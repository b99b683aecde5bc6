-- ===== src/Device/Resolution/Order.antt =====
-- The ordered addresses of a name hold no address twice.
use fecalia.Base.{
  ℕ, ◌+◌, ◌<◌, ◌≡◌, inl, inr, refl, sym, ap, ◌∙◌, Bool, true, false, not, ◌&&◌, ◌||◌, List, [], ◌∷◌,
  ◌++◌, append-nil, append_assoc, ◌==◌, if_true, if_false, Bool-cases, arith,
}
use mathlib.Core.Path.{subst}
use fecalia.Device.Failover.{Spec, flat_from, flat, owned, contains_addr}
use fecalia.Device.Failover.Index.{Absent, Distinct}
use fecalia.Device.Resolution.{
  Addr, PathFamilies, Ordered, unmap, is_valid, is_ip4, addr_port, allows, take_addr, take_addrs,
  order_addr_ports,
}

-- No address comes twice.
abbrev pub NoRepeat : List ℕ → Type 0
NoRepeat [] = Unit
NoRepeat (a ∷ l) = (contains_addr l a ≡ false) × NoRepeat l

or_swap : (x y z : Bool) → (x || (y || z)) ≡ (y || (x || z))
or_swap true true z = refl
or_swap true false z = refl
or_swap false true z = refl
or_swap false false z = refl

contains_middle :
    (xs ys : List ℕ) (x a : ℕ)
    → contains_addr ((xs ++ (x ∷ [])) ++ ys) a ≡ (x == a || contains_addr (xs ++ ys) a)
unfolding contains_addr
contains_middle [] ys x a = refl
contains_middle (b ∷ xs) ys x a =
    ap (λ c. b == a || c) (contains_middle xs ys x a)
    ∙ or_swap (b == a) (x == a) (contains_addr (xs ++ ys) a)

other : (b x : ℕ) (c d : Bool) → (b == x || c) ≡ false → d ≡ false → (x == b || d) ≡ false
other b x c d h e = ground arith

rest_false : (b c : Bool) → (b || c) ≡ false → c ≡ false
rest_false true c h = cc h
rest_false false c h = h

middle-NoRepeat :
    (xs ys : List ℕ) (x : ℕ)
    → NoRepeat (xs ++ ys)
    → contains_addr (xs ++ ys) x ≡ false
    → NoRepeat ((xs ++ (x ∷ [])) ++ ys)
unfolding contains_addr
middle-NoRepeat [] ys x h n = (n, h)
middle-NoRepeat (b ∷ xs) ys x (nb, h) n = (
  contains_middle xs ys x b
      ∙ other b x (contains_addr (xs ++ ys) x) (contains_addr (xs ++ ys) b) n nb,
  middle-NoRepeat xs ys x h (rest_false (b == x) (contains_addr (xs ++ ys) x) n),
)

-- What the loop has kept: no address twice, and each of them is marked as seen.
record Kept (o : Ordered) : Type 0 where
  distinct : NoRepeat (o.first ++ o.last)
  marked : (a : ℕ) → contains_addr o.seen a ≡ false → contains_addr (o.first ++ o.last) a ≡ false

at_end : (xs ys : List ℕ) (x : ℕ) → (((xs ++ ys) ++ (x ∷ [])) ++ []) ≡ xs ++ (ys ++ (x ∷ []))
at_end xs ys x = append-nil ((xs ++ ys) ++ (x ∷ [])) ∙ append_assoc xs ys (x ∷ [])

or_both : (p c d : Bool) → (c ≡ false → d ≡ false) → (p || c) ≡ false → (p || d) ≡ false
or_both true c d f h = cc h
or_both false c d f h = f h

module _ (f : PathFamilies) (port : ℕ) where
  take_addr-Kept : (o : Ordered) (a : Addr) → Kept o → Kept (take_addr f port o a)
  unfolding take_addr contains_addr
  take_addr-Kept o a k =
      let x : ℕ = addr_port (unmap a) port in
      elim (Bool-cases (not (is_valid a) || not (allows f a))) [
        | inl y ↦ subst Kept (sym (if_true (not (is_valid a) || not (allows f a)) _ _ y)) k
        | inr n ↦
            subst Kept (sym (if_false (not (is_valid a) || not (allows f a)) _ _ n))
              (elim (Bool-cases (contains_addr o.seen x)) [
                | inl y ↦ subst Kept (sym (if_true (contains_addr o.seen x) _ _ y)) k
                | inr fresh ↦
                    subst Kept (sym (if_false (contains_addr o.seen x) _ _ fresh))
                      (elim (Bool-cases (is_ip4 (unmap a))) [
                        | inl y ↦ subst Kept (sym (if_true (is_ip4 (unmap a)) _ _ y)) (record {
                          distinct = middle-NoRepeat o.first o.last x k.distinct (k.marked x fresh);
                          marked = λ b h.
                              contains_middle o.first o.last x b
                              ∙ or_both (x == b) (contains_addr o.seen b)
                                  (contains_addr (o.first ++ o.last) b) (k.marked b) h;
                        })
                        | inr y ↦ subst Kept (sym (if_false (is_ip4 (unmap a)) _ _ y)) (record {
                          distinct = subst NoRepeat (at_end o.first o.last x) (
                              middle-NoRepeat (o.first ++ o.last) [] x
                                (subst NoRepeat (sym (append-nil (o.first ++ o.last))) k.distinct)
                                (ap (λ l. contains_addr l x) (append-nil (o.first ++ o.last))
                                  ∙ k.marked x fresh));
                          marked = λ b h.
                              ap (λ l. contains_addr l b) (sym (at_end o.first o.last x))
                              ∙ contains_middle (o.first ++ o.last) [] x b
                              ∙ or_both (x == b) (contains_addr o.seen b)
                                  (contains_addr ((o.first ++ o.last) ++ []) b)
                                  (λ e.
                                    ap (λ l. contains_addr l b) (append-nil (o.first ++ o.last))
                                    ∙ k.marked b e)
                                  h;
                        })
                      ])
              ])
      ]

  take_addrs-Kept : (l : List Addr) (o : Ordered) → Kept o → Kept (take_addrs f port o l)
  unfolding take_addrs
  take_addrs-Kept [] o k = k
  take_addrs-Kept (a ∷ l) o k = take_addrs-Kept l (take_addr f port o a) (take_addr-Kept o a k)

  pub order_addr_ports-NoRepeat : (l : List Addr) → NoRepeat (order_addr_ports f port l)
  unfolding order_addr_ports contains_addr
  order_addr_ports-NoRepeat l =
      (take_addrs-Kept l (record { seen = []; first = []; last = [] })
        (record { distinct = tt; marked = λ a h. refl })).distinct

-- Every spec's addresses are without repetition.
abbrev pub AreSound : List Spec → Type 0
AreSound [] = Unit
AreSound (s ∷ l) = NoRepeat s.addrs × AreSound l

earlier_owned :
    (k i a : ℕ) (l : List ℕ) (m : List (ℕ × ℕ))
    → k < i
    → Absent (k, a) m
    → Absent (k, a) (owned i l ++ m)
earlier_owned k i a [] m lt h = h
earlier_owned k i a (b ∷ l) m lt h = (differ k i a b lt, earlier_owned k i a l m lt h)
  where
    differ : (k i a b : ℕ) → k < i → (k == i && a == b) ≡ false
    differ k i a b lt = ground arith

earlier_flat : (k i a : ℕ) (l : List Spec) → k < i → Absent (k, a) (flat_from i l)
unfolding flat_from
earlier_flat k i a [] lt = tt
earlier_flat k i a (s ∷ l) lt =
    earlier_owned k i a s.addrs (flat_from (i + 1) l) lt (earlier_flat k (i + 1) a l (omega arith))

owned-Absent :
    (i a : ℕ) (l : List ℕ) (m : List (ℕ × ℕ))
    → contains_addr l a ≡ false
    → Absent (i, a) m
    → Absent (i, a) (owned i l ++ m)
unfolding contains_addr
owned-Absent i a [] m n h = h
owned-Absent i a (b ∷ l) m n h = (
  differ i a b (contains_addr l a) n,
  owned-Absent i a l m (rest_false (b == a) (contains_addr l a) n) h,
)
  where
    differ : (i a b : ℕ) (c : Bool) → (b == a || c) ≡ false → (i == i && a == b) ≡ false
    differ i a b c n = ground arith

owned-Distinct :
    (i : ℕ) (l : List ℕ) (m : List (ℕ × ℕ))
    → NoRepeat l
    → Distinct m
    → ((a : ℕ) → Absent (i, a) m)
    → Distinct (owned i l ++ m)
owned-Distinct i [] m r d h = d
owned-Distinct i (a ∷ l) m (n, r) d h = (owned-Absent i a l m n (h a), owned-Distinct i l m r d h)

flat_from-Distinct : (i : ℕ) (l : List Spec) → AreSound l → Distinct (flat_from i l)
unfolding flat_from
flat_from-Distinct i [] h = tt
flat_from-Distinct i (s ∷ l) (r, h) =
    owned-Distinct i s.addrs (flat_from (i + 1) l) r (flat_from-Distinct (i + 1) l h)
      (λ a. earlier_flat i (i + 1) a l (omega arith))

-- The flattened list has no entry twice.
pub flat-Distinct : (l : List Spec) → AreSound l → Distinct (flat l)
unfolding flat
flat-Distinct l h = flat_from-Distinct 0 l h
