-- ===== src/Device/Failover/History.antt =====
-- The fail-over over a history of checks and resolutions: since when an outage lasts, and since when
-- the endpoint is active.
use fecalia.Base.{
  ℕ, ◌≡◌, ◌⊎◌, inl, inr, refl, sym, ap, ◌∙◌, true, Option, none, some, List, [], ◌∷◌, leb, ◌==◌,
  if_both, length,
}
use mathlib.Core.Path.{subst}
use fecalia.Telemetry.Liveness.{PathState}
use fecalia.Device.Failover.{
  Spec, Failover, Act, entry_at, new_hub_failover, contains_addr, adopt, follow, reconcile,
  with_addrs, remap, update_resolution, flat_len, all_down, onset, check_failover,
}

-- With what a fail-over is made: its specs, its dwell and the time.
pub record Start : Type 0 where
  pub specs : List Spec
  pub settle : ℕ
  pub boot : ℕ

-- What happens to it: a check of what the paths report, or the addresses of a spec, with the time.
pub data Event : Type 0 where
  checks : List PathState → ℕ → Event
  resolves : ℕ → List ℕ → ℕ → Event

abbrev pub at : Event → ℕ
at (checks _ now) = now
at (resolves _ _ now) = now

abbrev pub step : Failover → Event → Failover
step h (checks health now) = (check_failover h health now).0
step h (resolves i addrs now) = (update_resolution h now i addrs).0

-- The fail-over after a history, its latest event first.
unfoldable pub after : Start → List Event → Failover
after s [] = new_hub_failover s.specs s.settle s.boot
after s (e ∷ l) = step (after s l) e

-- Since the check at `since` every check found every path down. A check of a peer without endpoints
-- does not look at the paths.
pub data Lost (s : Start) (since : ℕ) : List Event → Type 0 where
  starts :
      (health : List PathState) (now : ℕ) (l : List Event)
      → all_down health ≡ true
      → now ≡ since
      → Lost s since (checks health now ∷ l)
  stays :
      (health : List PathState) (now : ℕ) (l : List Event)
      → all_down health ≡ true
      → Lost s since l
      → Lost s since (checks health now ∷ l)
  blind :
      (health : List PathState) (now : ℕ) (l : List Event)
      → (flat_len (after s l).specs == 0) ≡ true
      → Lost s since l
      → Lost s since (checks health now ∷ l)
  resolved :
      (i : ℕ) (addrs : List ℕ) (now : ℕ) (l : List Event)
      → Lost s since l
      → Lost s since (resolves i addrs now ∷ l)

-- Since the event at `since`, or since the fail-over was made, the active endpoint is the same.
pub data Active (s : Start) (since : ℕ) : List Event → Type 0 where
  made : s.boot ≡ since → Active s since []
  moved : (e : Event) (l : List Event) → at e ≡ since → Active s since (e ∷ l)
  kept :
      (e : Event) (l : List Event)
      → (after s (e ∷ l)).active ≡ (after s l).active
      → Active s since l
      → Active s since (e ∷ l)

-- The marks of the state are ones that the history backs.
pub record Tracks (s : Start) (h : Failover) (l : List Event) : Type 0 where
  pub settle : h.settle ≡ s.settle
  pub outage : (h.down_since ≡ none) ⊎ (since : ℕ) × ((h.down_since ≡ some since) × Lost s since l)
  pub active : Active s h.last_switch l

pub onset-Lost :
    (s : Start) (h : Failover) (l : List Event) (health : List PathState) (now : ℕ)
    → all_down health ≡ true
    → Tracks s h l
    → Lost s (onset h.down_since now) (checks health now ∷ l)
onset-Lost s h l health now lost t = go t.outage
  where
    go :
        (h.down_since ≡ none) ⊎ (since : ℕ) × ((h.down_since ≡ some since) × Lost s since l)
        → Lost s (onset h.down_since now) (checks health now ∷ l)
    go (inl e) = starts health now l lost (sym (ap (λ o. onset o now) e))
    go (inr (since, (e, k))) =
        subst (λ n. Lost s n (checks health now ∷ l)) (sym (ap (λ o. onset o now) e))
          (stays health now l lost k)

-- What a step may leave of the active endpoint: it and its mark, or the mark of the time.
abbrev pub Keeps : Failover → ℕ → Failover → Type 0
Keeps h now r = (r.active ≡ h.active) × (r.last_switch ≡ h.last_switch) ⊎ (r.last_switch ≡ now)

pub Active-step :
    (s : Start) (e : Event) (l : List Event)
    → Active s (after s l).last_switch l
    → Keeps (after s l) (at e) (after s (e ∷ l))
    → Active s (after s (e ∷ l)).last_switch (e ∷ l)
Active-step s e l a (inl (same, mark)) =
    subst (λ n. Active s n (e ∷ l)) (sym mark) (kept e l same a)
Active-step s e l a (inr mark) = moved e l (sym mark)

-- What a resolution leaves alone.
abbrev Leaves : Failover → ℕ → Failover × List Act → Type 0
Leaves h now r = (r.0.settle ≡ h.settle) × (r.0.down_since ≡ h.down_since) × Keeps h now r.0

module _ (h : Failover) (specs : List Spec) (now i : ℕ) (addrs : List ℕ) where
  adopt-Leaves :
      (o : Option (ℕ × ℕ)) → Leaves h now (remap (adopt (record h { specs = specs }) now o))
  adopt-Leaves none = (refl, refl, inl (refl, refl))
  adopt-Leaves (some (j, a)) = (refl, refl, inr refl)

  follow-Leaves :
      (a : ℕ) (l : List ℕ) → Leaves h now (remap (follow (record h { specs = specs }) now i a l))
  follow-Leaves a [] = (refl, refl, inl (refl, refl))
  follow-Leaves a (b ∷ l) =
      if_both (λ r. Leaves h now (remap r)) (contains_addr (b ∷ l) a) (refl, refl, inl (refl, refl))
        (refl, refl, inr refl)

  reconcile-Leaves :
      (o : Option (ℕ × ℕ))
      → Leaves h now (remap (reconcile (record h { specs = specs }) now i addrs o))
  unfolding reconcile
  reconcile-Leaves none = adopt-Leaves (entry_at specs 0)
  reconcile-Leaves (some (j, a)) =
      if_both (λ r. Leaves h now (remap r)) (i == j) (follow-Leaves a addrs)
        (refl, refl, inl (refl, refl))

update_resolution-Leaves :
    (h : Failover) (now i : ℕ) (addrs : List ℕ) → Leaves h now (update_resolution h now i addrs)
unfolding update_resolution
update_resolution-Leaves h now i addrs =
    if_both (Leaves h now) (leb (length h.specs) i) (refl, refl, inl (refl, refl))
      (reconcile-Leaves h (with_addrs h.specs i addrs) now i addrs h.active)

pub resolves-Tracks :
    (s : Start) (i : ℕ) (addrs : List ℕ) (now : ℕ) (l : List Event)
    → Tracks s (after s l) l
    → Tracks s (after s (resolves i addrs now ∷ l)) (resolves i addrs now ∷ l)
unfolding after
resolves-Tracks s i addrs now l t =
    let (settle, since, keeps) = update_resolution-Leaves (after s l) now i addrs in
    record {
      settle = settle ∙ t.settle;
      outage = go since t.outage;
      active = Active-step s (resolves i addrs now) l t.active keeps;
    }
  where
    go :
        {o p : Option ℕ}
        → o ≡ p
        → (p ≡ none) ⊎ (since : ℕ) × ((p ≡ some since) × Lost s since l)
        → (o ≡ none) ⊎ (since : ℕ) × ((o ≡ some since) × Lost s since (resolves i addrs now ∷ l))
    go q (inl e) = inl (q ∙ e)
    go q (inr (since, (e, k))) = inr (since, (q ∙ e, resolved i addrs now l k))
