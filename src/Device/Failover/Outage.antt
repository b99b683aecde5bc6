-- ===== src/Device/Failover/Outage.antt =====
-- When a check signals or switches, by what went before.
use fecalia.Base.{
  ℕ, ◌+◌, ◌&&◌, ◌||◌, if◌then◌else◌, ◌-◌, ◌≤◌, ◌<◌, ◌≡◌, ◌⊎◌, inl, inr, refl, sym, ap, ◌∙◌, Bool,
  true, false, not, none, some, List, [], ◌∷◌, ltb, leb, ◌==◌, if_cases, if_true, if_false,
  Bool-cases, ltb→lt, ltb_false→le,
}
use mathlib.Core.Path.{subst}
use fecalia.Telemetry.Liveness.{PathState}
use fecalia.Device.Failover.{
  Failover, Act, entry_at, new_hub_failover, flat_len, flat_index, next_index, address, all_down,
  onset, select_next, check_single, check_down, check_failover,
}
use fecalia.Device.Failover.History.{
  Start, Event, checks, resolves, after, Lost, blind, Active, made, Tracks, Keeps, onset-Lost,
  Active-step, resolves-Tracks,
}

-- What the selection of the next entry does: the peer is repointed to it, and only if the round is
-- `full` the exhaustion is raised and another round begins.
pub record Selects (h : Failover) (full : Bool) (since now : ℕ) (r : Failover × List Act × Bool)
    : Type 0 where
  pub next :
      r.0.active ≡ entry_at h.specs (next_index (flat_index h.specs h.active) (flat_len h.specs))
  pub repointed : r.1 ≡ address r.0.active
  pub switched : r.0.last_switch ≡ now
  pub onset : r.0.down_since ≡ some since
  pub settle : r.0.settle ≡ h.settle
  pub advances : r.0.down_advances ≡ (if full then 0 else h.down_advances + 1)
  pub latched : r.0.exhausted_latched ≡ (full || h.exhausted_latched)
  pub edge : r.2 ≡ (full && not h.exhausted_latched)

-- Whether the selection of one more entry makes the round full.
abbrev pub is_last : Failover → Bool
is_last h = leb (flat_len h.specs) (h.down_advances + 1)

select_next-Selects :
    (h : Failover) (since now : ℕ)
    → Selects h (is_last h) since now (select_next (record h { down_since = some since }) now)
unfolding select_next
select_next-Selects h since now = go (is_last h)
  where
    moved : Failover
    moved = record h {
      down_since = some since;
      active = entry_at h.specs (next_index (flat_index h.specs h.active) (flat_len h.specs));
      idx = some (next_index (flat_index h.specs h.active) (flat_len h.specs));
      last_switch = now;
      down_advances = h.down_advances + 1;
    }

    go :
        (full : Bool)
        → Selects h full since now (
            if full
            then (
              record moved { down_advances = 0; exhausted_latched = true },
              address moved.active,
              not h.exhausted_latched,
            )
            else (moved, address moved.active, false))
    go true = record {
      next = refl;
      repointed = refl;
      switched = refl;
      onset = refl;
      settle = refl;
      advances = refl;
      latched = refl;
      edge = refl;
    }
    go false = record {
      next = refl;
      repointed = refl;
      switched = refl;
      onset = refl;
      settle = refl;
      advances = refl;
      latched = refl;
      edge = refl;
    }

-- The ends of a check, of the state `h` after the history `l`.
pub data Judged (s : Start) (l : List Event) (h : Failover) (health : List PathState) (now : ℕ)
    : Failover × List Act × Bool → Type 0 where
  idles : (flat_len h.specs == 0) ≡ true → Judged s l h health now (h, [], false)
  recovers :
      all_down health ≡ false
      → Judged s l h health now
          (record h { down_advances = 0; exhausted_latched = false; down_since = none }, [], false)
  waits :
      (since : ℕ)
      → Lost s since (checks health now ∷ l)
      → (flat_len h.specs < 2) × (now - since < s.settle)
        ⊎ (2 ≤ flat_len h.specs) × (now - h.last_switch < s.settle)
      → Judged s l h health now (record h { down_since = some since }, [], false)
  signals :
      (since : ℕ)
      → Lost s since (checks health now ∷ l)
      → flat_len h.specs < 2
      → s.settle ≤ now - since
      → Judged s l h health now (
        record h { down_since = some since; exhausted_latched = true },
        [],
        not h.exhausted_latched,
      )
  switches :
      (r : Failover × List Act × Bool) (since : ℕ)
      → Lost s since (checks health now ∷ l)
      → 2 ≤ flat_len h.specs
      → Active s h.last_switch l
      → s.settle ≤ now - h.last_switch
      → Selects h (is_last h) since now r
      → Judged s l h health now r

module _ (s : Start) (l : List Event) (h : Failover) (health : List PathState) (now : ℕ)
    (t : Tracks s h l) where
  check_down-Judged : all_down health ≡ true → Judged s l h health now (check_down h now)
  unfolding check_down check_single
  check_down-Judged lost =
      let since : ℕ = onset h.down_since now in
      let k = onset-Lost s h l health now lost t in
      if_cases (Judged s l h health now) (ltb (flat_len h.specs) 2)
        (λ y.
          let one = ltb→lt (flat_len h.specs) 2 y in
          if_cases (Judged s l h health now) (ltb (now - since) h.settle)
            (λ w.
              waits since k (
                inl (one, subst (λ n. now - since < n) t.settle (ltb→lt (now - since) h.settle w))))
            (λ w.
              signals since k one
                (subst (λ n. n ≤ now - since) t.settle (ltb_false→le (now - since) h.settle w))))
        (λ n.
          let more = ltb_false→le (flat_len h.specs) 2 n in
          if_cases (Judged s l h health now) (ltb (now - h.last_switch) h.settle)
            (λ w. waits since k (
              inr (
                more,
                subst (λ n. now - h.last_switch < n) t.settle
                    (ltb→lt (now - h.last_switch) h.settle w),
              )))
            (λ w.
              switches _ since k more t.active
                (subst (λ n. n ≤ now - h.last_switch) t.settle
                  (ltb_false→le (now - h.last_switch) h.settle w))
                (select_next-Selects h since now)))

  judged : Judged s l h health now (check_failover h health now)
  unfolding check_failover
  judged = if_cases (Judged s l h health now) (flat_len h.specs == 0) idles (λ _.
      elim (Bool-cases (all_down health)) [
        | inl d ↦
            subst (Judged s l h health now) (sym (if_false (not (all_down health)) _ _ (ap not d)))
              (check_down-Judged d)
        | inr u ↦
            subst (Judged s l h health now) (sym (if_true (not (all_down health)) _ _ (ap not u)))
              (recovers u)
      ])

-- The marks after a check.
checked-Keeps :
    (s : Start) (l : List Event) (h : Failover) (health : List PathState) (now : ℕ)
    (r : Failover × List Act × Bool)
    → Judged s l h health now r
    → Keeps h now r.0 × (r.0.settle ≡ h.settle)
checked-Keeps s l h health now _ (idles _) = (inl (refl, refl), refl)
checked-Keeps s l h health now _ (recovers _) = (inl (refl, refl), refl)
checked-Keeps s l h health now _ (waits _ _ _) = (inl (refl, refl), refl)
checked-Keeps s l h health now _ (signals _ _ _ _) = (inl (refl, refl), refl)
checked-Keeps s l h health now r (switches _ _ _ _ _ _ n) = (inr n.switched, n.settle)

checked_outage :
    (s : Start) (l : List Event) (health : List PathState) (now : ℕ)
    (r : Failover × List Act × Bool)
    → Tracks s (after s l) l
    → Judged s l (after s l) health now r
    → (r.0.down_since ≡ none)
      ⊎ (since : ℕ) × ((r.0.down_since ≡ some since) × Lost s since (checks health now ∷ l))
checked_outage s l health now _ t (idles e) = go t.outage
  where
    go :
        ((after s l).down_since ≡ none)
          ⊎ (since : ℕ) × (((after s l).down_since ≡ some since) × Lost s since l)
        → ((after s l).down_since ≡ none)
          ⊎ (since : ℕ) × (((after s l).down_since ≡ some since)
              × Lost s since (checks health now ∷ l))
    go (inl n) = inl n
    go (inr (since, (q, k))) = inr (since, (q, blind health now l e k))
checked_outage s l health now _ t (recovers _) = inl refl
checked_outage s l health now _ t (waits since k _) = inr (since, (refl, k))
checked_outage s l health now _ t (signals since k _ _) = inr (since, (refl, k))
checked_outage s l health now r t (switches _ since k _ _ _ n) = inr (since, (n.onset, k))

after-Tracks : (s : Start) (l : List Event) → Tracks s (after s l) l
unfolding after new_hub_failover
after-Tracks s [] = record { settle = refl; outage = inl refl; active = made refl }
after-Tracks s (checks health now ∷ l) =
    let t = after-Tracks s l in
    let j = judged s l (after s l) health now t in
    let (keeps, same) = checked-Keeps s l (after s l) health now _ j in
    record {
      settle = same ∙ t.settle;
      outage = checked_outage s l health now _ t j;
      active = Active-step s (checks health now) l t.active keeps;
    }
after-Tracks s (resolves i addrs now ∷ l) = resolves-Tracks s i addrs now l (after-Tracks s l)

-- After any history of checks and resolutions, a check of a peer that has endpoints leaves the active
-- one alone unless every path is down. A peer with one endpoint is never repointed, and signals only
-- when every check that looked at the paths since one at least the dwell back found all of them down.
-- One of several endpoints is left only if it was the active one since an event at least the dwell
-- back, for the next one of the list, to which the peer is repointed; only the switch that makes the
-- round full raises the exhaustion. Where not every path is down the check ends the outage and the
-- exhaustion.
pub check_failover-Judged :
    (s : Start) (l : List Event) (health : List PathState) (now : ℕ)
    → Judged s l (after s l) health now (check_failover (after s l) health now)
check_failover-Judged s l health now = judged s l (after s l) health now (after-Tracks s l)
