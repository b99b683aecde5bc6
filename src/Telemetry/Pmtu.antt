-- ===== src/Telemetry/Pmtu.antt =====
-- The path MTU discovery of internal/telemetry/pmtu.go. The probe is a seam that the device fills: a
-- parameter, a world that answers each probed size and goes on. The clock's answers are arguments.
use fecalia.Base.{
  ℕ, zero, suc, ◌+◌, ◌-◌, ◌*◌, ◌/◌, Bool, true, false, ◌&&◌, ◌||◌, not, Option, none, some, ltb,
  leb, ◌==◌, if◌then◌else◌,
}
use fecalia.Telemetry.Liveness.{PathState, is_up}
pub mod Confirm
pub mod Search
pub mod Machine
pub mod Tests

abbrev pub pmtu_floor : ℕ
pmtu_floor = 1280

abbrev pub default_pmtu_confirmations : ℕ
default_pmtu_confirmations = 3

abbrev pub pmtu_rejections : ℕ
pmtu_rejections = 3

abbrev pub pmtu_attempts_per_confirmation : ℕ
pmtu_attempts_per_confirmation = 5

-- What `ProbePMTU` returns: `(true, nil)`, `(false, nil)`, or an error.
pub data Answer : Type 0 where
  echoed silent fault : Answer

-- `PMTUConfig`. An `int` that is not positive means "unset", which is 0 here.
pub record PmtuConfig : Type 0 where
  pub configured_mtu : ℕ
  pub default_mtu : ℕ
  pub refresh_interval : ℕ
  pub junk_headroom : ℕ
  pub confirmations : ℕ
  pub safety_margin : ℕ

pub data PmtuState : Type 0 where
  unstarted searching converged : PmtuState

abbrev pub is_converged : PmtuState → Bool
is_converged unstarted = false
is_converged searching = false
is_converged converged = true

-- `PMTUDiscovery`, without the seams.
pub record Discovery : Type 0 where
  pub ceiling : ℕ
  pub pinned : Bool
  pub refresh : ℕ
  pub junk_headroom : ℕ
  pub confirmations : ℕ
  pub safety_margin : ℕ
  pub state : PmtuState
  pub discovered : ℕ
  pub prev_up : Bool
  pub have_state : Bool
  pub reprobe_pending : Bool
  pub last_converged : ℕ

abbrev pub at_least_floor : ℕ → ℕ
at_least_floor n = if ltb n pmtu_floor then pmtu_floor else n

-- `NewPMTUDiscovery`.
unfoldable pub new_discovery : PmtuConfig → Discovery
new_discovery c =
    let pinned = not (c.configured_mtu == 0) in
    let ceiling = at_least_floor (if pinned then c.configured_mtu else c.default_mtu) in
    record {
      ceiling = ceiling;
      pinned = pinned;
      refresh = c.refresh_interval;
      junk_headroom = c.junk_headroom;
      confirmations = if c.confirmations == 0 then default_pmtu_confirmations else c.confirmations;
      safety_margin = c.safety_margin;
      state = unstarted;
      discovered = if pinned then ceiling else pmtu_floor;
      prev_up = false;
      have_state = false;
      reprobe_pending = false;
      last_converged = 0;
    }

-- `reportedLocked`, which `PathMTU` returns.
unfoldable pub reported : Discovery → ℕ
reported d =
    if d.pinned || d.safety_margin == 0
    then d.discovered
    else at_least_floor (d.discovered - d.safety_margin)

-- `PathMTUOrZero`.
unfoldable pub path_mtu_or_zero : Discovery → ℕ
unfolding reported
path_mtu_or_zero d = if d.pinned || is_converged d.state then reported d else 0

-- `UsablePathMTU`: the subtraction stops at 0, as its clamp says.
unfoldable pub usable_path_mtu : Discovery → ℕ
unfolding reported
usable_path_mtu d = reported d - d.junk_headroom

-- `NotifyRoam`.
unfoldable pub notify_roam : Discovery → Discovery
notify_roam d = record d { reprobe_pending = true }

-- The bookkeeping at the head of `decideLocked`.
unfoldable pub observe_state : Discovery → PathState → Discovery
observe_state d state = record d {
  reprobe_pending = d.reprobe_pending || (d.have_state && (not d.prev_up && is_up state));
  prev_up = is_up state;
  have_state = true;
}

-- The periodic refresh.
unfoldable pub refresh_due : Discovery → ℕ → Discovery
refresh_due d now = record d {
  reprobe_pending =
      d.reprobe_pending
      || (is_converged d.state && (ltb 0 d.refresh && leb d.refresh (now - d.last_converged)));
}

-- `decideLocked`: the new state, and whether to search now.
unfoldable pub decide_search : Discovery → PathState → ℕ → Discovery × Bool
unfolding observe_state refresh_due
decide_search d state now =
    let o = observe_state d state in
    if o.pinned
    then (o, false)
    else (let r = refresh_due o now in
        if is_up state && (not (is_converged r.state) || r.reprobe_pending)
        then (record r { reprobe_pending = false; state = searching }, true)
        else (r, false))

abbrev pub is_found : Option ℕ → Bool
is_found none = false
is_found (some _) = true

-- The end of `Tick`: `later` is the clock at the convergence.
unfoldable pub settle : Discovery → ℕ → Option ℕ → Discovery
settle d later none = d
settle d later (some pmtu) = record d {
  discovered = pmtu;
  state = converged;
  last_converged = later;
}

module _ {W : Type 0} (probe_pmtu : W → ℕ → W × Answer) where
  -- The loop of `confirmCandidate`: the attempts that are left, the consecutive answers and the
  -- rejections. An error is `none`.
  unfoldable pub confirm_loop : ℕ → ℕ → ℕ → ℕ → W → ℕ → ℕ → W × Option Bool
  confirm_loop zero need mid control w consecutive rejections = (w, some false)
  confirm_loop (suc n) need mid control w consecutive rejections =
      let (w₁, first) = probe_pmtu w mid in
      elim first [
        | fault ↦ (w₁, none)
        | echoed ↦ elim (leb need (consecutive + 1)) [
          | true ↦ (w₁, some true)
          | false ↦ confirm_loop n need mid control w₁ (consecutive + 1) rejections
        ]
        | silent ↦
            let (w₂, second) = probe_pmtu w₁ control in
            elim second [
              | fault ↦ (w₂, none)
              | silent ↦ confirm_loop n need mid control w₂ 0 rejections
              | echoed ↦ elim (leb pmtu_rejections (rejections + 1)) [
                | true ↦ (w₂, some false)
                | false ↦ confirm_loop n need mid control w₂ 0 (rejections + 1)
              ]
            ]
      ]

  unfoldable pub confirm_candidate : ℕ → ℕ → ℕ → W → W × Option Bool
  confirm_candidate need mid control w =
      confirm_loop (pmtu_attempts_per_confirmation * need) need mid control w 0 0

  -- The loop of `search`. Each turn halves the range, so its width in turns is enough.
  unfoldable pub search_loop : ℕ → ℕ → ℕ → ℕ → W → W × Option ℕ
  search_loop zero need lo hi w = (w, some lo)
  search_loop (suc n) need lo hi w = elim (ltb lo hi) [
    | false ↦ (w, some lo)
    | true ↦
        let mid = (lo + hi + 1) / 2 in
        let (w₁, verdict) = confirm_candidate need mid lo w in
        elim verdict [
          | none ↦ (w₁, none)
          | some good ↦ elim good [
            | true ↦ search_loop n need mid hi w₁
            | false ↦ search_loop n need lo (mid - 1) w₁
          ]
        ]
  ]

  unfoldable pub search : ℕ → ℕ → W → W × Option ℕ
  search need ceiling w = search_loop (ceiling - pmtu_floor) need pmtu_floor ceiling w

  -- `Tick`: the state, the world, and whether it returned without an error.
  unfoldable pub tick_discovery : Discovery → PathState → ℕ → ℕ → W → Discovery × W × Bool
  tick_discovery d state now later w =
      let (d₁, go) = decide_search d state now in
      elim go [
        | false ↦ (d₁, w, true)
        | true ↦
            let (w₁, found) = search d₁.confirmations d₁.ceiling w in
            (settle d₁ later found, w₁, is_found found)
      ]
