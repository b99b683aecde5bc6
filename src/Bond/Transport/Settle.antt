-- ===== src/Bond/Transport/Settle.antt =====
-- The receipts through the loops of an acknowledgement.
use fecalia.Base.{
  ℕ, ◌≡◌, ◌⊎◌, inl, inr, refl, sym, ◌∙◌, Bool, true, false, not, ◌&&◌, ◌||◌, Option, none, some,
  List, [], ◌∷◌, ltb, ◌==◌, if_true, if_both, if_cases, if_false, Bool-cases, arith,
}
use mathlib.Core.Path.{subst}
use fecalia.Bond.Ack.{Acknowledgement, received}
use fecalia.Bond.Transport.{Carried, Lane, Ledger}
use fecalia.Bond.Transport.Flight.{
  Entry, release_once, member, settle_pending, reported, arrived, outlived, Sweep, confirm,
  confirm_loop, arrived_loop, global_loop,
}
use fecalia.Bond.Transport.Kept.{member_cons, member_tail, member_head, Each}
use fecalia.Bond.Transport.Ledgers.{Sound, Given, Keys, not_true, Settled, confirm-Settled}

module _ (n : ℕ) (a : Acknowledgement) (m : ℕ) where
  abbrev Leaves : List Entry × Sweep → Type 0
  Leaves r = Settled n a r.1.ledger

  pub confirm_loop-Settled :
      (fresh : Bool) (l : List Entry) (w : Sweep)
      → Each (Keys m n) l
      → Settled n a w.ledger
      → Leaves (confirm_loop a fresh l w)
  unfolding confirm_loop
  confirm_loop-Settled fresh [] w ks h = h
  confirm_loop-Settled fresh ((seq, s) ∷ l) w ((_, given), ks) h =
      let confirmed : Settled n a (confirm w s).ledger = confirm-Settled n a w s given h in
      if_both Leaves (reported a seq)
        (if_both (λ (v : Sweep). Leaves (confirm_loop a fresh l v)) (fresh && seq == a.high)
          (confirm_loop-Settled fresh l (record (confirm w s) { counted = some s.through }) ks
            confirmed)
          (confirm_loop-Settled fresh l (confirm w s) ks confirmed))
        (if_both Leaves (outlived a w.ledger seq s)
          (confirm_loop-Settled fresh l (record w { lane = release_once w.lane s }) ks h)
          (confirm_loop-Settled fresh l w ks h))

  pub arrived_loop-Settled :
      (high : ℕ) (l : List Entry) (w : Sweep)
      → Each (Keys m n) l
      → Settled n a w.ledger
      → Leaves (arrived_loop high l w)
  unfolding arrived_loop
  arrived_loop-Settled high [] w ks h = h
  arrived_loop-Settled high ((seq, s) ∷ l) w ((_, given), ks) h =
      if_both Leaves (ltb high seq) (arrived_loop-Settled high l w ks h)
        (arrived_loop-Settled high l (confirm w s) ks (confirm-Settled n a w s given h))

  -- What the last loop marks was settled before.
  mark-Settled :
      (o : Option Carried) (g : Ledger)
      → Given n o
      → arrived a g o ≡ true
      → Settled n a g
      → Settled n a
          (elim o as (λ _. Ledger) [ none ↦ g | some k ↦ record g { acked = k.seq ∷ g.acked } ])
  mark-Settled none g given e h = h
  mark-Settled (some x) g given e (v, past) = (
    record {
      apart = λ k inside. not_true (member k (x.seq ∷ g.acked)) (λ q.
          elim (member_cons k x.seq g.acked q) [
            | inl p ↦
                let known : (member k g.acked || received a k) ≡ true =
                  subst (λ z. (member z g.acked || received a z) ≡ true) p e in
                neither (member k g.acked) (received a k) (v.apart k inside) (past k inside) known
            | inr r ↦ cc (sym (v.apart k inside) ∙ r)
          ]);
      pending_bound = v.pending_bound;
      acked_bound = λ k inside. elim (member_cons k x.seq g.acked inside) [
        | inl p ↦ omega (arith, p, given)
        | inr r ↦ v.acked_bound k r
      ];
    },
    past,
  )
    where
      neither : (b c : Bool) → b ≡ false → c ≡ false → (b || c) ≡ true → ⊥
      neither true c p q e = cc p
      neither false true p q e = cc q
      neither false false p q e = cc e

  pub global_loop-Settled :
      (l : List Entry) (p : Lane) (g : Ledger)
      → Each (Keys m n) l
      → Settled n a g
      → Settled n a (global_loop a l p g).1.1
  unfolding global_loop
  global_loop-Settled [] p g ks h = h
  global_loop-Settled ((seq, s) ∷ l) p g ((_, given), ks) h =
      if_cases (λ (r : List Entry × (Lane × Ledger)). Settled n a r.1.1)
        (arrived a g s.packet && not s.confirmed)
        (λ y.
          global_loop-Settled l (release_once p s)
            (elim s.packet as (λ _. Ledger) [
              | none ↦ g
              | some c ↦ record g { acked = c.seq ∷ g.acked }
            ])
            ks (mark-Settled s.packet g given (left (arrived a g s.packet) (not s.confirmed) y) h))
        (λ _. global_loop-Settled l p g ks h)
    where
      left : (b c : Bool) → (b && c) ≡ true → b ≡ true
      left true c e = refl
      left false c e = cc e

abbrev Splits : Acknowledgement → List ℕ → List ℕ → ℕ → List ℕ × List ℕ → Type 0
Splits a l acked k r =
    (member k r.0 ≡ true → (member k l ≡ true) × (received a k ≡ false))
    × (member k r.1 ≡ true
        → (member k acked ≡ true) ⊎ ((member k l ≡ true) × (received a k ≡ true)))

-- What the first loop keeps was pending and is not reported; what it marks was marked or is both.
settle_pending_lem :
    (a : Acknowledgement) (l acked : List ℕ) (k : ℕ) → Splits a l acked k (settle_pending a l acked)
unfolding settle_pending
settle_pending_lem a [] acked k = ((λ e. cc e), λ e. inl e)
settle_pending_lem a (x ∷ l) acked k =
    let (keeps, marks) = settle_pending_lem a l acked k in
    let back : (member k acked ≡ true) ⊎ ((member k l ≡ true) × (received a k ≡ true))
        → (member k acked ≡ true) ⊎ ((member k (x ∷ l) ≡ true) × (received a k ≡ true)) =
      λ m. elim m [ inl p ↦ inl p | inr (p, q) ↦ inr (member_tail k x l p, q) ] in
    elim (Bool-cases (received a x)) [
      | inl y ↦ subst (Splits a (x ∷ l) acked k) (sym (if_true (received a x) _ _ y)) (
        (λ e. let (p, q) = keeps e in (member_tail k x l p, q)),
        λ e. elim (member_cons k x (settle_pending a l acked).1 e) [
          | inl p ↦ inr (
              subst (λ z. (member z (x ∷ l) ≡ true) × (received a z ≡ true)) p (member_head x l, y))
          | inr m ↦ back (marks m)
        ],
      )
      | inr unset ↦ subst (Splits a (x ∷ l) acked k) (sym (if_false (received a x) _ _ unset)) (
        (λ e. elim (member_cons k x (settle_pending a l acked).0 e) [
          | inl p ↦
              subst (λ z. (member z (x ∷ l) ≡ true) × (received a z ≡ false)) p
                (member_head x l, unset)
          | inr m ↦ let (p, q) = keeps m in (member_tail k x l p, q)
        ]),
        λ e. back (marks e),
      )
    ]

pub settle_pending-Settled :
    (n : ℕ) (a : Acknowledgement) (g : Ledger)
    → Sound n g
    → let r = settle_pending a g.pending g.acked in
      Settled n a (record { pending = r.0; acked = r.1 })
settle_pending-Settled n a g v = (
  record {
    apart = λ k inside. not_true (member k (settle_pending a g.pending g.acked).1) (λ e.
        let (was, unseen) = (settle_pending_lem a g.pending g.acked k).0 inside in
        elim ((settle_pending_lem a g.pending g.acked k).1 e) [
          | inl p ↦ cc (sym (v.apart k was) ∙ p)
          | inr (_, q) ↦ cc (sym unseen ∙ q)
        ]);
    pending_bound =
        λ k inside. v.pending_bound k ((settle_pending_lem a g.pending g.acked k).0 inside).0;
    acked_bound = λ k inside. elim ((settle_pending_lem a g.pending g.acked k).1 inside) [
      | inl p ↦ v.acked_bound k p
      | inr (p, _) ↦ v.pending_bound k p
    ];
  },
  λ k inside. ((settle_pending_lem a g.pending g.acked k).0 inside).1,
)
