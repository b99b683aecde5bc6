-- ===== src/Device/Resolution/Retention.antt =====
-- What a step of the re-resolution keeps of the endpoint set.
use fecalia.Base.{
  ℕ, zero, suc, ◌<◌, ◌≡◌, inl, inr, refl, sym, Bool, true, false, not, ◌&&◌, Option, none, some,
  List, [], ◌∷◌, ltb, leb, ◌==◌, if◌then◌else◌, if_true, if_false, Bool-cases, length, arith,
}
use mathlib.Core.Path.{subst}
use fecalia.Telemetry.Liveness.{PathState}
use fecalia.Device.Failover.{
  Spec, Failover, Act, entry_at, contains_addr, adopt, follow, reconcile, with_addrs,
  update_resolution, all_down,
}
use fecalia.Device.Resolution.{
  Addr, PathFamilies, NameTarget, Resolution, order_addr_ports, clamp_poll_delay, publish,
  resolve_target, lesser, poll_targets, target_for, resolve_active, check_liveness_loss, poll_due,
  step,
}
use fecalia.Device.Resolution.Order.{NoRepeat, AreSound, order_addr_ports-NoRepeat}

-- A spec that has addresses in one list has addresses in the other.
abbrev pub Keeps : List Spec → List Spec → Type 0
Keeps [] [] = Unit
Keeps [] (t ∷ m) = ⊥
Keeps (s ∷ l) [] = ⊥
Keeps (s ∷ l) (t ∷ m) = (0 < length s.addrs → 0 < length t.addrs) × Keeps l m

Keeps-refl : (l : List Spec) → Keeps l l
Keeps-refl [] = tt
Keeps-refl (s ∷ l) = ((λ h. h), Keeps-refl l)

Keeps-trans : (l m n : List Spec) → Keeps l m → Keeps m n → Keeps l n
Keeps-trans [] [] [] p q = tt
Keeps-trans [] [] (u ∷ n) p q = q
Keeps-trans [] (t ∷ m) n p q = elim p [ ]
Keeps-trans (s ∷ l) [] n p q = elim p [ ]
Keeps-trans (s ∷ l) (t ∷ m) [] p q = q
Keeps-trans (s ∷ l) (t ∷ m) (u ∷ n) (f, p) (g, q) = ((λ h. g (f h)), Keeps-trans l m n p q)

-- From one endpoint set to the other no spec loses its last address, and none repeats one.
abbrev pub Retains : List Spec → List Spec → Type 0
Retains l m = Keeps l m × (AreSound l → AreSound m)

Retains-refl : (l : List Spec) → Retains l l
Retains-refl l = (Keeps-refl l, λ h. h)

Retains-trans : (l m n : List Spec) → Retains l m → Retains m n → Retains l n
Retains-trans l m n (p, f) (q, g) = (Keeps-trans l m n p q, λ h. g (f h))

with_addrs-Retains :
    (l : List Spec) (i a : ℕ) (others : List ℕ)
    → NoRepeat (a ∷ others)
    → Retains l (with_addrs l i (a ∷ others))
with_addrs-Retains [] i a others r = (tt, λ h. h)
with_addrs-Retains (s ∷ l) zero a others r = (((λ h. omega arith), Keeps-refl l), λ (_, h). (r, h))
with_addrs-Retains (s ∷ l) (suc i) a others r =
    let (p, f) = with_addrs-Retains l i a others r in (((λ h. h), p), λ (n, h). (n, f h))

reconcile_specs :
    (h : Failover) (now i : ℕ) (addrs : List ℕ) (o : Option (ℕ × ℕ))
    → (reconcile h now i addrs o).0.specs ≡ h.specs
unfolding reconcile
reconcile_specs h now i addrs none = adopted (entry_at h.specs 0)
  where
    adopted : (o : Option (ℕ × ℕ)) → (adopt h now o).0.specs ≡ h.specs
    adopted none = refl
    adopted (some (j, a)) = refl
reconcile_specs h now i addrs (some (j, a)) = chosen (i == j) addrs
  where
    kept :
        (c : Bool) (r s : Failover × List Act)
        → r.0.specs ≡ h.specs
        → s.0.specs ≡ h.specs
        → (if c then r else s).0.specs ≡ h.specs
    kept true r s p q = p
    kept false r s p q = q

    followed : (l : List ℕ) → (follow h now i a l).0.specs ≡ h.specs
    followed [] = refl
    followed (b ∷ l) = kept (contains_addr (b ∷ l) a) (h, []) _ refl refl

    chosen : (c : Bool) (l : List ℕ) → (if c then follow h now i a l else (h, [])).0.specs ≡ h.specs
    chosen c l = kept c (follow h now i a l) (h, []) (followed l) refl

update_resolution-Retains :
    (h : Failover) (now i a : ℕ) (others : List ℕ)
    → NoRepeat (a ∷ others)
    → Retains h.specs (update_resolution h now i (a ∷ others)).0.specs
unfolding update_resolution
update_resolution-Retains h now i a others r = elim (Bool-cases (leb (length h.specs) i)) [
  | inl y ↦
      subst (λ (p : Failover × List Act). Retains h.specs p.0.specs)
        (sym (if_true (leb (length h.specs) i) _ _ y)) (Retains-refl h.specs)
  | inr n ↦
      let g : Failover = record h { specs = with_addrs h.specs i (a ∷ others) } in
      subst (λ (p : Failover × List Act). Retains h.specs p.0.specs)
        (sym (if_false (leb (length h.specs) i) _ _ n))
        (subst (Retains h.specs) (sym (reconcile_specs g now i (a ∷ others) h.active))
          (with_addrs-Retains h.specs i a others r))
]

resolve_target-Retains :
    (f : PathFamilies) (h : Failover) (at : ℕ) (t : NameTarget)
    (answer : Option (List Addr × Option ℕ))
    → Retains h.specs (resolve_target f h at t answer).0.specs
unfolding resolve_target
resolve_target-Retains f h at t none = Retains-refl h.specs
resolve_target-Retains f h at t (some (addrs, ttl)) =
    published (order_addr_ports f t.port addrs) (order_addr_ports-NoRepeat f t.port addrs)
  where
    published : (l : List ℕ) → NoRepeat l → Retains h.specs (publish h at t.spec_idx l ttl).0.specs
    published [] r = Retains-refl h.specs
    published (a ∷ l) r = update_resolution-Retains h at t.spec_idx a l r

poll_targets-Retains :
    (f : PathFamilies) (interval : ℕ) (lookup : ℕ → Option (List Addr × Option ℕ)) (at : ℕ)
    (l : List NameTarget) (h : Failover) (delay : ℕ)
    → Retains h.specs (poll_targets f interval lookup at h delay l).0.specs
unfolding poll_targets
poll_targets-Retains f interval lookup at [] h delay = Retains-refl h.specs
poll_targets-Retains f interval lookup at (t ∷ l) h delay =
    let r : Failover × List Act × Option ℕ = resolve_target f h at t (lookup t.host) in
    Retains-trans h.specs r.0.specs _ (resolve_target-Retains f h at t (lookup t.host)) (
      poll_targets-Retains f interval lookup at l r.0
        (lesser (clamp_poll_delay interval r.2) delay))

module _ (lookup : ℕ → Option (List Addr × Option ℕ)) (at later : ℕ) where
  resolve_active-Retains :
      (r : Resolution) (h : Failover) (o : Option NameTarget)
      → Retains h.specs (resolve_active r h lookup at later o).1.specs
  unfolding resolve_active
  resolve_active-Retains r h none = Retains-refl h.specs
  resolve_active-Retains r h (some t) = resolve_target-Retains r.families h at t (lookup t.host)

  check_liveness_loss-Retains :
      (r : Resolution) (h : Failover) (health : List PathState)
      → Retains h.specs (check_liveness_loss r h health lookup at later).1.specs
  unfolding check_liveness_loss
  check_liveness_loss-Retains r h health =
      let marked : Resolution = record r { last_all_down = all_down health } in
      elim (Bool-cases (all_down health && not r.last_all_down)) [
        | inl y ↦
            subst (λ (p : Resolution × Failover × List Act). Retains h.specs p.1.specs)
              (sym (if_true (all_down health && not r.last_all_down) _ _ y))
              (resolve_active-Retains marked h (target_for r.targets h.active))
        | inr n ↦
            subst (λ (p : Resolution × Failover × List Act). Retains h.specs p.1.specs)
              (sym (if_false (all_down health && not r.last_all_down) _ _ n)) (Retains-refl h.specs)
      ]

  poll_due-Retains :
      (r : Resolution) (h : Failover) (now : ℕ)
      → Retains h.specs (poll_due r h lookup now at later).1.specs
  unfolding poll_due
  poll_due-Retains r h now = elim (Bool-cases (ltb now r.next_poll_at)) [
    | inl y ↦
        subst (λ (p : Resolution × Failover × List Act). Retains h.specs p.1.specs)
          (sym (if_true (ltb now r.next_poll_at) _ _ y)) (Retains-refl h.specs)
    | inr n ↦
        subst (λ (p : Resolution × Failover × List Act). Retains h.specs p.1.specs)
          (sym (if_false (ltb now r.next_poll_at) _ _ n))
          (poll_targets-Retains r.families r.poll_interval lookup at r.targets h r.poll_interval)
  ]

  -- Whatever the lookups answer, a step leaves no spec without addresses that had some, and where no
  -- spec repeated an address none does afterwards.
  pub step-Retains :
      (r : Resolution) (h : Failover) (health : List PathState) (now : ℕ)
      → Retains h.specs (step r h health lookup now at later).1.specs
  unfolding step
  step-Retains r h health now =
      let c : Resolution × Failover × List Act = check_liveness_loss r h health lookup at later in
      Retains-trans h.specs c.1.specs _ (check_liveness_loss-Retains r h health)
        (poll_due-Retains c.0 c.1 now)
