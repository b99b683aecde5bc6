-- ===== src/Device/Failover/Cycle.antt =====
-- The round robin over the endpoints while every path stays down.
use fecalia.Base.{
  ℕ, suc, ◌+◌, ◌-◌, ◌%◌, ◌≤◌, ◌<◌, ◌≡◌, ◌⊎◌, inl, inr, refl, sym, ap, ◌∙◌, Bool, true, false, not,
  ◌||◌, some, List, [], ◌∷◌, ltb, leb, ◌==◌, if_true, if_false, Bool-cases, length, arith,
  le→ltb_false, le→leb, leb→le, leb_false→lt,
}
use mathlib.Core.Path.{subst}
use native.Mathlib.Nat.{mod-add-mod, mod-lt, mod-eq_of_lt}
use fecalia.Telemetry.Liveness.{PathState}
use fecalia.Device.Failover.Index.{Distinct, position_from_lem, get_inside}
use fecalia.Device.Failover.{
  Failover, Act, flat, flat_len, flat_index, entry_at, all_down, onset, next_index, select_next,
  check_down, check_failover,
}

-- Every path is down, the flattened list has at least two entries and no entry twice, the active
-- entry is the one at `i`, and the round is not over.
pub record IsCycling (h : Failover) (health : List PathState) (i : ℕ) : Type 0 where
  pub lost : all_down health ≡ true
  pub total : 2 ≤ flat_len h.specs
  pub distinct : Distinct (flat h.specs)
  pub inside : i < flat_len h.specs
  pub active : h.active ≡ entry_at h.specs i
  pub advances : h.down_advances < flat_len h.specs

active_index :
    (h : Failover) (health : List PathState) (i : ℕ)
    → IsCycling h health i
    → flat_index h.specs h.active ≡ some i
active_index h health i c =
    let (e, q) = get_inside (flat h.specs) i c.inside in
    ap (flat_index h.specs) (c.active ∙ q)
    ∙ position_from_lem (flat h.specs) 0 i e c.distinct q
    ∙ ap some (omega arith)

-- One step of the round.
record Stepped (h : Failover) (i now : ℕ) (r : Failover) : Type 0 where
  specs : r.specs ≡ h.specs
  settle : r.settle ≡ h.settle
  active : r.active ≡ entry_at h.specs ((i + 1) % flat_len h.specs)
  switched : r.last_switch ≡ now
  round :
      (h.down_advances + 1 < flat_len h.specs)
        × ((r.down_advances ≡ h.down_advances + 1) × (r.exhausted_latched ≡ h.exhausted_latched))
      ⊎ (flat_len h.specs ≤ h.down_advances + 1)
        × ((r.down_advances ≡ 0) × (r.exhausted_latched ≡ true))

select_next-Stepped :
    (h : Failover) (i now : ℕ)
    → flat_index h.specs h.active ≡ some i
    → Stepped h i now (select_next h now).0
unfolding select_next
select_next-Stepped h i now place =
    let next : next_index (flat_index h.specs h.active) (flat_len h.specs)
        ≡ (i + 1) % flat_len h.specs =
      ap (λ o. next_index o (flat_len h.specs)) place in
    elim (Bool-cases (leb (flat_len h.specs) (h.down_advances + 1))) [
      | inl y ↦
          subst (λ (r : Failover × List Act × Bool). Stepped h i now r.0)
            (sym (if_true (leb (flat_len h.specs) (h.down_advances + 1)) _ _ y))
            (record {
              specs = refl;
              settle = refl;
              active = ap (entry_at h.specs) next;
              switched = refl;
              round = inr (leb→le (flat_len h.specs) (h.down_advances + 1) y, (refl, refl));
            })
      | inr n ↦
          subst (λ (r : Failover × List Act × Bool). Stepped h i now r.0)
            (sym (if_false (leb (flat_len h.specs) (h.down_advances + 1)) _ _ n))
            (record {
              specs = refl;
              settle = refl;
              active = ap (entry_at h.specs) next;
              switched = refl;
              round = inl (leb_false→lt (flat_len h.specs) (h.down_advances + 1) n, (refl, refl));
            })
    ]

check_failover-Stepped :
    (h : Failover) (health : List PathState) (i now : ℕ)
    → IsCycling h health i
    → h.last_switch + h.settle ≤ now
    → Stepped h i now (check_failover h health now).0
unfolding check_failover check_down
check_failover-Stepped h health i now c due =
    let total : 2 ≤ flat_len h.specs = c.total in
    let marked : Failover = record h { down_since = some (onset h.down_since now) } in
    let passes : check_failover h health now ≡ select_next marked now =
      if_false (flat_len h.specs == 0) _ _ (positive (flat_len h.specs) total)
      ∙ if_false (not (all_down health)) _ _ (ap not c.lost)
      ∙ if_false (ltb (flat_len h.specs) 2) _ _ (le→ltb_false (flat_len h.specs) 2 total)
      ∙ if_false (ltb (now - h.last_switch) h.settle) _ _
          (le→ltb_false (now - h.last_switch) h.settle (omega arith)) in
    let s : Stepped marked i now (select_next marked now).0 =
      select_next-Stepped marked i now (active_index h health i c) in
    subst (λ (r : Failover × List Act × Bool). Stepped h i now r.0) (sym passes)
      (record {
        specs = s.specs;
        settle = s.settle;
        active = s.active;
        switched = s.switched;
        round = s.round;
      })
  where
    positive : (n : ℕ) → 2 ≤ n → (n == 0) ≡ false
    positive n le = ground arith

-- The checks at the times of a list, the first one first.
unfoldable pub check_all : Failover → List PathState → List ℕ → Failover
unfolding check_failover
check_all h health [] = h
check_all h health (now ∷ l) = check_all (check_failover h health now).0 health l

-- Each check comes when the entry selected before has had its dwell.
abbrev pub AreDue : ℕ → ℕ → List ℕ → Type 0
AreDue last settle [] = Unit
AreDue last settle (now ∷ l) = (last + settle ≤ now) × AreDue now settle l

Stepped-IsCycling :
    (h : Failover) (health : List PathState) (i now : ℕ) (r : Failover)
    → IsCycling h health i
    → Stepped h i now r
    → IsCycling r health ((i + 1) % flat_len h.specs)
Stepped-IsCycling h health i now r c s =
    let back : h.specs ≡ r.specs = sym s.specs in
    let len : flat_len h.specs ≡ flat_len r.specs = ap flat_len back in
    let total : 2 ≤ flat_len h.specs = c.total in
    let below : h.down_advances < flat_len h.specs = c.advances in
    record {
      lost = c.lost;
      total = omega (arith, len);
      distinct = subst (λ l. Distinct (flat l)) back c.distinct;
      inside = subst (λ n. (i + 1) % flat_len h.specs < n) len (mod-lt (i + 1) (omega arith));
      active = s.active ∙ ap (λ l. entry_at l ((i + 1) % flat_len h.specs)) back;
      advances = elim s.round [
        | inl (lt, (a, _)) ↦ omega (arith, len, lt, a)
        | inr (_, (a, _)) ↦ omega (arith, len, a)
      ];
    }

or_true : (x y : Bool) → y ≡ true → (x || y) ≡ true
or_true true y e = refl
or_true false y e = e

or_false : (x y : Bool) → y ≡ false → (x || y) ≡ x
or_false true y e = refl
or_false false y e = e

-- The exhaustion after one step and `m` more.
exhausted_step :
    (n a m : ℕ) (x : Bool) (a' : ℕ) (x' : Bool)
    → (a + 1 < n) × ((a' ≡ a + 1) × (x' ≡ x)) ⊎ (n ≤ a + 1) × ((a' ≡ 0) × (x' ≡ true))
    → (x' || leb n (a' + m)) ≡ (x || leb n (a + suc m))
exhausted_step n a m x a' x' (inl (lt, (p, q))) =
    ap (λ b. b || leb n (a' + m)) q ∙ ap (λ k. x || leb n k) (omega (arith, p))
exhausted_step n a m x a' x' (inr (le, (p, q))) =
    ap (λ b. b || leb n (a' + m)) q
    ∙ sym (or_true x (leb n (a + suc m)) (le→leb n (a + suc m) (omega arith)))

-- While every path stays down and each check comes after the dwell, the checks select the endpoints
-- in turn, from the active one on and round the flattened list, and the exhaustion is raised from the
-- check on that completes a round.
pub check_all_lem :
    (h : Failover) (health : List PathState) (i : ℕ) (l : List ℕ)
    → IsCycling h health i
    → AreDue h.last_switch h.settle l
    → ((check_all h health l).active ≡ entry_at h.specs ((i + length l) % flat_len h.specs))
      × ((check_all h health l).exhausted_latched
          ≡ (h.exhausted_latched || leb (flat_len h.specs) (h.down_advances + length l)))
unfolding check_all
check_all_lem h health i [] c due =
    let inside : i < flat_len h.specs = c.inside in
    let below : h.down_advances < flat_len h.specs = c.advances in
    (
      c.active
          ∙ ap (entry_at h.specs)
              (sym (ap (λ n. n % flat_len h.specs) (omega arith) ∙ mod-eq_of_lt inside)),
      sym (or_false h.exhausted_latched _ (high (flat_len h.specs) h.down_advances below)),
    )
  where
    high : (n a : ℕ) → a < n → leb n (a + 0) ≡ false
    high n a lt = ground arith
check_all_lem h health i (now ∷ l) c (due, later) =
    let r : Failover = (check_failover h health now).0 in
    let s : Stepped h i now r = check_failover-Stepped h health i now c due in
    let n : ℕ = flat_len h.specs in
    let due' : AreDue r.last_switch r.settle l =
      subst (λ t. AreDue t r.settle l) (sym s.switched)
        (subst (λ t. AreDue now t l) (sym s.settle) later) in
    let (active, raised) =
      check_all_lem r health ((i + 1) % n) l (Stepped-IsCycling h health i now r c s) due' in
    (
      active
          ∙ ap (λ specs. entry_at specs (((i + 1) % n + length l) % flat_len specs)) s.specs
          ∙ ap (entry_at h.specs)
              (mod-add-mod (i + 1) n (length l) ∙ ap (λ k. k % n) (omega arith)),
      raised
          ∙ ap (λ specs. r.exhausted_latched || leb (flat_len specs) (r.down_advances + length l))
              s.specs
          ∙ exhausted_step n h.down_advances (length l) h.exhausted_latched r.down_advances
              r.exhausted_latched s.round,
    )
