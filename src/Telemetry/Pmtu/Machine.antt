-- ===== src/Telemetry/Pmtu/Machine.antt =====
-- The discovery machine: its invariant, what a tick does on every branch, and what it reports.
use fecalia.Base.{
  ℕ, ◌-◌, ◌≤◌, ◌<◌, ◌≡◌, inl, inr, refl, sym, ◌∙◌, Bool, true, false, ◌&&◌, ◌||◌, not, Option, none,
  some, ◌==◌, if◌then◌else◌, if_true, if_false, Bool-cases, arith,
}
use mathlib.Core.Path.{subst}
use fecalia.Telemetry.Liveness.{PathState, is_up}
use fecalia.Telemetry.Pmtu.{
  Answer, PmtuConfig, searching, converged, is_converged, Discovery, pmtu_floor, at_least_floor,
  new_discovery, reported, observe_state, refresh_due, decide_search, search, settle, is_found,
  tick_discovery,
}
use fecalia.Telemetry.Pmtu.Search.{Found, search-Found}

abbrev pub Held : Bool → ℕ → ℕ → Type 0
Held true discovered ceiling = discovered ≡ ceiling
Held false discovered ceiling = Unit

-- The ceiling and the result are at least the floor, the result is at most the ceiling, and a pinned
-- path holds its declared MTU.
pub record IsValid (d : Discovery) : Type 0 where
  pub ceiling : pmtu_floor ≤ d.ceiling
  pub low : pmtu_floor ≤ d.discovered
  pub high : d.discovered ≤ d.ceiling
  pub held : Held d.pinned d.discovered d.ceiling
  pub confirmations : 0 < d.confirmations

floor_le : (n : ℕ) → pmtu_floor ≤ at_least_floor n
floor_le n = ground arith

start_held : (b : Bool) (x y : ℕ) → Held b (if b then x else y) x
start_held true x y = refl
start_held false x y = tt

start_range :
    (b : Bool) (x : ℕ)
    → pmtu_floor ≤ x
    → (pmtu_floor ≤ (if b then x else pmtu_floor)) × ((if b then x else pmtu_floor) ≤ x)
start_range true x h = (h, omega arith)
start_range false x h = (omega arith, h)

-- Whatever the configuration, the machine starts in a valid state.
pub new_discovery-IsValid : (c : PmtuConfig) → IsValid (new_discovery c)
unfolding new_discovery
new_discovery-IsValid c =
    let pinned = not (c.configured_mtu == 0) in
    let asked = if pinned then c.configured_mtu else c.default_mtu in
    let (low, high) = start_range pinned (at_least_floor asked) (floor_le asked) in
    record {
      ceiling = floor_le asked;
      low = low;
      high = high;
      held = start_held pinned (at_least_floor asked) pmtu_floor;
      confirmations = ground arith;
    }

-- What a decision keeps, and when it is to search.
data Decided (d : Discovery) (state : PathState) : Discovery × Bool → Type 0 where
  holds :
      (d' : Discovery)
      → d'.ceiling ≡ d.ceiling
      → d'.pinned ≡ d.pinned
      → d'.confirmations ≡ d.confirmations
      → d'.discovered ≡ d.discovered
      → Decided d state (d', false)
  starts :
      (d' : Discovery)
      → d'.ceiling ≡ d.ceiling
      → d'.pinned ≡ d.pinned
      → d'.confirmations ≡ d.confirmations
      → d'.discovered ≡ d.discovered
      → d.pinned ≡ false
      → is_up state ≡ true
      → d'.state ≡ searching
      → Decided d state (d', true)

&&-first : (a b : Bool) → (a && b) ≡ true → a ≡ true
&&-first true b e = refl
&&-first false b e = cc e

decide_search-Decided :
    (d : Discovery) (state : PathState) (now : ℕ) → Decided d state (decide_search d state now)
unfolding decide_search observe_state refresh_due
decide_search-Decided d state now =
    let r = refresh_due (observe_state d state) now in
    elim (Bool-cases d.pinned) [
      | inl p ↦ subst (Decided d state) (sym (if_true d.pinned _ _ p)) (holds _ refl refl refl refl)
      | inr p ↦
          subst (Decided d state) (sym (if_false d.pinned _ _ p))
            (elim (Bool-cases (is_up state && (not (is_converged r.state) || r.reprobe_pending))) [
              | inl b ↦
                  subst (Decided d state)
                    (sym (
                      if_true (is_up state && (not (is_converged r.state) || r.reprobe_pending)) _ _
                        b))
                    (starts _ refl refl refl refl p (&&-first (is_up state) _ b) refl)
              | inr b ↦
                  subst (Decided d state)
                    (sym (
                      if_false (is_up state && (not (is_converged r.state) || r.reprobe_pending)) _
                        _ b))
                    (holds _ refl refl refl refl)
            ])
    ]

module _ {W : Type 0} (probe_pmtu : W → ℕ → W × Answer) where
  -- The three ends of a tick: no search and no probe; a search that an error ended, which keeps the
  -- result and is to be retried; a search that settled. Only a path that is up and not pinned probes.
  pub data Ticked (d : Discovery) (state : PathState) (later : ℕ) (w : W)
      : Discovery × W × Bool → Type 0 where
    waits : {d' : Discovery} → d'.discovered ≡ d.discovered → Ticked d state later w (d', w, true)
    fails :
        {d' : Discovery} {w' : W}
        → d.pinned ≡ false
        → is_up state ≡ true
        → d'.discovered ≡ d.discovered
        → d'.state ≡ searching
        → Ticked d state later w (d', w', false)
    settles :
        {d' : Discovery} {w' : W}
        → d.pinned ≡ false
        → is_up state ≡ true
        → d'.state ≡ converged
        → d'.last_converged ≡ later
        → Found probe_pmtu d.confirmations pmtu_floor d.ceiling (some d'.discovered)
        → Ticked d state later w (d', w', true)

  abbrev Kept : Discovery → PathState → ℕ → W → Discovery × W × Bool → Type 0
  Kept d state later w o = IsValid o.0 × Ticked d state later w o

  keep :
      {d d' : Discovery}
      → IsValid d
      → d'.ceiling ≡ d.ceiling
      → d'.pinned ≡ d.pinned
      → d'.confirmations ≡ d.confirmations
      → d'.discovered ≡ d.discovered
      → IsValid d'
  keep {d} {d'} v c p n x = record {
    ceiling = omega (arith, c, v.ceiling);
    low = omega (arith, x, v.low);
    high = omega (arith, c, x, v.high);
    held = subst (λ (t : Bool × ℕ × ℕ). Held t.0 t.1 t.2) (λ i. (sym p i, sym x i, sym c i)) v.held;
    confirmations = omega (arith, n, v.confirmations);
  }

  settled :
      (d d' : Discovery) (state : PathState) (later : ℕ) (w w' : W) (found : Option ℕ)
      → IsValid d
      → Decided d state (d', true)
      → Found probe_pmtu d'.confirmations pmtu_floor d'.ceiling found
      → Kept d state later w (settle d' later found, w', is_found found)
  unfolding settle
  settled d d' state later w w' none v (starts _ c p n x unpinned is up) f =
      (keep v c p n x, fails unpinned is x up)
  settled d d' state later w w' (some pmtu) v (starts _ c p n x unpinned is up) f = (
    record {
      ceiling = omega (arith, c, v.ceiling);
      low = f.0;
      high = f.1;
      held = subst (λ b. Held b pmtu d'.ceiling) (sym (p ∙ unpinned)) tt;
      confirmations = omega (arith, n, v.confirmations);
    },
    settles unpinned is refl refl (
        subst (λ (t : ℕ × ℕ). Found probe_pmtu t.0 pmtu_floor t.1 (some pmtu)) (λ i. (n i, c i)) f),
  )

  decided :
      (d : Discovery) (state : PathState) (later : ℕ) (w : W) (o : Discovery × Bool)
      → IsValid d
      → Decided d state o
      → Kept d state later w (elim o.1 [
        | false ↦ (o.0, w, true)
        | true ↦ (
          settle o.0 later (search probe_pmtu o.0.confirmations o.0.ceiling w).1,
          (search probe_pmtu o.0.confirmations o.0.ceiling w).0,
          is_found (search probe_pmtu o.0.confirmations o.0.ceiling w).1,
        )
      ])
  decided d state later w (d', false) v (holds _ c p n x) = (keep v c p n x, waits x)
  decided d state later w (d', true) v (starts _ c p n x unpinned is up) =
      settled d d' state later w _ _ v (starts d' c p n x unpinned is up)
        (search-Found probe_pmtu d'.confirmations d'.ceiling w (omega (arith, c, v.ceiling)))

  -- From a valid state a tick keeps the invariant, whatever the path answers, and ends in one of the
  -- three ways of `Ticked`: an error never changes the result.
  pub tick_discovery-IsValid :
      (d : Discovery) (state : PathState) (now later : ℕ) (w : W)
      → IsValid d
      → IsValid (tick_discovery probe_pmtu d state now later w).0
        × Ticked d state later w (tick_discovery probe_pmtu d state now later w)
  unfolding tick_discovery
  tick_discovery-IsValid d state now later w v =
      decided d state later w (decide_search d state now) v (decide_search-Decided d state now)

reported_at :
    (pinned : Bool) (x margin ceiling : ℕ)
    → pmtu_floor ≤ x
    → Held pinned x ceiling
    → (pmtu_floor ≤ (if pinned || margin == 0 then x else at_least_floor (x - margin)))
      × ((if pinned || margin == 0 then x else at_least_floor (x - margin)) ≤ x)
      × Held pinned (if pinned || margin == 0 then x else at_least_floor (x - margin)) ceiling
reported_at true x margin ceiling low h = (low, omega arith, h)
reported_at false x margin ceiling low h = (ground arith, ground arith, tt)

-- What a valid machine reports lies between the floor and its result, and a pinned path reports its
-- ceiling as it was declared.
pub reported-bounds :
    (d : Discovery)
    → IsValid d
    → (pmtu_floor ≤ reported d) × (reported d ≤ d.discovered) × Held d.pinned (reported d) d.ceiling
unfolding reported
reported-bounds d v = reported_at d.pinned d.discovered d.safety_margin d.ceiling v.low v.held
