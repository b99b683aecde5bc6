-- ===== src/Bond/Transport/Ledgers.antt =====
-- The receipts that an acknowledgement leaves: a datagram that is marked as acknowledged is not pending.
use fecalia.Base.{
  ℕ, ◌≤◌, ◌≡◌, inl, inr, refl, sym, ◌∙◌, Bool, true, false, Option, none, some, ◌∷◌, arith,
}
use fecalia.Bond.Ack.{Acknowledgement, received}
use fecalia.Bond.Transport.{Carried, Attempt, Ledger}
use fecalia.Bond.Transport.Flight.{member, settle, settle_carried, Sweep, confirm}
use fecalia.Bond.Transport.Kept.{member_cons, member-delete}

-- The receipts of a transport whose latest delivery sequence is `n`.
pub record Sound (n : ℕ) (g : Ledger) : Type 0 where
  pub apart : (k : ℕ) → member k g.pending ≡ true → member k g.acked ≡ false
  pub pending_bound : (k : ℕ) → member k g.pending ≡ true → k ≤ n
  pub acked_bound : (k : ℕ) → member k g.acked ≡ true → k ≤ n

-- No pending datagram is one that the acknowledgement reports.
abbrev pub Past : Acknowledgement → Ledger → Type 0
Past a g = (k : ℕ) → member k g.pending ≡ true → received a k ≡ false

-- The datagram of an attempt has a sequence that was given.
abbrev pub Given : ℕ → Option Carried → Type 0
Given n none = Unit
Given n (some k) = k.seq ≤ n

abbrev pub Keys : ℕ → ℕ → ℕ → Option Carried → Type 0
Keys m n seq o = (seq ≤ m) × Given n o

pub not_true : (b : Bool) → (b ≡ true → ⊥) → b ≡ false
not_true true h = absurd (h refl)
not_true false h = refl

settle-Sound : (n x : ℕ) (g : Ledger) → x ≤ n → Sound n g → Sound n (settle g x)
unfolding settle
settle-Sound n x g le v = record {
  apart = λ k inside.
      let (was, ne) = member-delete k x g.pending inside in
      not_true (member k (x ∷ g.acked)) (λ e. elim (member_cons k x g.acked e) [
        | inl p ↦ absurd (ne p)
        | inr q ↦ cc (sym (v.apart k was) ∙ q)
      ]);
  pending_bound = λ k inside. v.pending_bound k (member-delete k x g.pending inside).0;
  acked_bound = λ k inside. elim (member_cons k x g.acked inside) [
    | inl p ↦ omega (arith, p)
    | inr q ↦ v.acked_bound k q
  ];
}

module _ (n : ℕ) (a : Acknowledgement) where
  abbrev pub Settled : Ledger → Type 0
  Settled g = Sound n g × Past a g

  settle-Settled : (x : ℕ) (g : Ledger) → x ≤ n → Settled g → Settled (settle g x)
  unfolding settle
  settle-Settled x g le (v, past) =
      (settle-Sound n x g le v, λ k inside. past k (member-delete k x g.pending inside).0)

  settle_carried-Settled :
      (o : Option Carried) (g : Ledger) → Given n o → Settled g → Settled (settle_carried g o)
  settle_carried-Settled none g le h = h
  settle_carried-Settled (some k) g le h = settle-Settled k.seq g le h

  pub confirm-Settled :
      (w : Sweep) (s : Attempt) → Given n s.packet → Settled w.ledger → Settled (confirm w s).ledger
  unfolding confirm
  confirm-Settled w s le h = settle_carried-Settled s.packet w.ledger le h
