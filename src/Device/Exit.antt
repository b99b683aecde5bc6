-- ===== src/Device/Exit.antt =====
-- The exit selector of internal/device/exitselector.go. A peer's name and its key are numbers, and an
-- `IpcSet` is the key with the prefixes that are inserted. The engine is the vendored device: a
-- parameter. What the health seam, the round trips and the controllers answer are arguments. Logging
-- is left out, and the two polling loops, which only call the operations.
use fecalia.Base.{
  ℕ, ◌-◌, ◌<◌, ◌≡◌, Bool, true, false, ◌&&◌, ◌||◌, not, Option, none, some, List, [], ◌∷◌, map, ltb,
  leb, ◌==◌, if◌then◌else◌, length,
}
pub mod Closest
pub mod Invariant
pub mod Run
pub mod Start
pub mod Tests

-- `exitPeer`.
pub record ExitPeer : Type 0 where
  pub public_key : ℕ
  pub splits : List ℕ

abbrev pub contains : List ℕ → ℕ → Bool
contains [] s = false
contains (x ∷ l) s = x == s || contains l s

-- The engine: `IpcSet`, which may refuse, and the owner of each prefix. An accepted insert takes each
-- prefix from its owner.
pub record Engine (E : Type 0) : Type 0 where
  pub ipc_set : E → ℕ → List ℕ → E × Bool
  pub owner : E → ℕ → ℕ
  pub steals :
      (e : E) (key : ℕ) (splits : List ℕ) (s : ℕ)
      → (ipc_set e key splits).1 ≡ true
      → contains splits s ≡ true
      → owner (ipc_set e key splits).0 s ≡ key

-- The operator's target.
pub data Mode : Type 0 where
  auto : Mode
  fixed : ℕ → Mode

-- `exitSelector`. `ctrls` is nil or says which exits have a controller; `subs` is what each
-- controller's callback captured. The zero `lastSwitch` is none.
pub record Selector : Type 0 where
  pub active : ℕ
  pub mode : Mode
  pub last_switch : Option ℕ
  pub exits : ℕ → Option ExitPeer
  pub order : List ℕ
  pub has_rtt : Bool
  pub has_health : Bool
  pub ctrls : Option (ℕ → Bool)
  pub subs : ℕ → Option ℕ

abbrev pub auto_exit_cooldown : ℕ
auto_exit_cooldown = 300_000_000_000

abbrev pub find_exit : List (ℕ × ExitPeer) → ℕ → Option ExitPeer
find_exit [] n = none
find_exit ((m, p) ∷ l) n = if n == m then some p else find_exit l n

-- `newExitSelector`, from the exit-capable peers in the order of the configuration.
unfoldable pub new_exit_selector : List (ℕ × ExitPeer) → Option Selector
new_exit_selector [] = none
new_exit_selector ((_, _) ∷ []) = none
new_exit_selector ((n, p) ∷ (m, q) ∷ l) = some (record {
  active = n;
  mode = auto;
  last_switch = none;
  exits = find_exit ((n, p) ∷ (m, q) ∷ l);
  order = map (λ (x : ℕ × ExitPeer). x.0) ((n, p) ∷ (m, q) ∷ l);
  has_rtt = false;
  has_health = false;
  ctrls = none;
  subs = λ _. none;
})

-- Whether a name has a controller.
abbrev pub controlled : Option (ℕ → Bool) → ℕ → Bool
controlled none n = false
controlled (some c) n = c n

-- `SetOnExhausted` on the controller of a name, if it has one.
unfoldable pub subscribe : Selector → ℕ → Option ℕ → Selector
subscribe s name callback =
    if controlled s.ctrls name
    then (record s { subs = λ n. if n == name then callback else s.subs n })
    else s

-- `resubscribeLocked`.
unfoldable pub resubscribe : Selector → ℕ → ℕ → Selector
unfolding subscribe
resubscribe s from to = subscribe (subscribe s from none) to (some to)

-- `subscribeActiveLocked` behind the assignments of `enableAutoPromotion`.
unfoldable pub enable_auto_promotion : Selector → Option (ℕ → Bool) → Bool → Selector
unfolding subscribe
enable_auto_promotion s ctrls health =
    subscribe (record s { ctrls = ctrls; has_health = health }) s.active (some s.active)

-- The assignment of `enableRTTSelection`.
unfoldable pub enable_rtt_selection : Selector → Selector
enable_rtt_selection s = record s { has_rtt = true }

-- `firstHealthyStandbyLocked`: the empty name is none.
unfoldable pub first_healthy : (ℕ → Bool) → ℕ → List ℕ → Option ℕ
first_healthy healthy active [] = none
first_healthy healthy active (n ∷ l) =
    let rest = first_healthy healthy active l in
    if not (n == active) && healthy n then some n else rest

unfoldable pub first_healthy_standby : Selector → (ℕ → Bool) → Option ℕ
unfolding first_healthy
first_healthy_standby s healthy =
    if s.has_health then first_healthy healthy s.active s.order else none

-- A candidate of the loop of `evaluateAuto`: its positive round trip, if it is healthy.
abbrev pub positive : Option ℕ → Option ℕ
positive none = none
positive (some r) = if ltb 0 r then some r else none

unfoldable pub candidate : (ℕ → Bool) → (ℕ → Option ℕ) → ℕ → Option ℕ
candidate healthy rtt n = if healthy n then positive (rtt n) else none

abbrev pub closer : Option (ℕ × ℕ) → ℕ → Option ℕ → Option (ℕ × ℕ)
closer best n none = best
closer none n (some r) = some (n, r)
closer (some (b, t)) n (some r) = if ltb r t then some (n, r) else some (b, t)

unfoldable pub closest : (ℕ → Bool) → (ℕ → Option ℕ) → Option (ℕ × ℕ) → List ℕ → Option (ℕ × ℕ)
unfolding candidate
closest healthy rtt best [] = best
closest healthy rtt best (n ∷ l) = closest healthy rtt (closer best n (candidate healthy rtt n)) l

-- The cool-down of `evaluateAuto`.
abbrev pub cooling : Option ℕ → ℕ → Bool
cooling none now = false
cooling (some t) now = ltb (now - t) auto_exit_cooldown

abbrev pub is_auto : Mode → Bool
is_auto auto = true
is_auto (fixed _) = false

abbrev pub map_first : Option (ℕ × ℕ) → Option ℕ
map_first none = none
map_first (some (n, _)) = some n

-- What a switch returns.
pub data Switched : Type 0 where
  done unknown refused : Switched

module _ {E : Type 0} (k : Engine E) where
  -- `switchLocked` once the target is known not to be active.
  unfoldable pub repoint : E → Selector → ℕ → ℕ → E × Bool → E × Selector × Switched
  unfolding resubscribe
  repoint e s name now (e', true) =
      (e', resubscribe (record s { active = name; last_switch = some now }) s.active name, done)
  repoint e s name now (e', false) = (e', s, refused)

  unfoldable pub switch_to : E → Selector → ℕ → ℕ → Option ExitPeer → E × Selector × Switched
  unfolding repoint
  switch_to e s name now none = (e, s, unknown)
  switch_to e s name now (some p) =
      if name == s.active
      then (e, s, done)
      else repoint e s name now (k.ipc_set e p.public_key p.splits)

  -- `switchLocked`.
  unfoldable pub switch : E → Selector → ℕ → ℕ → E × Selector × Switched
  unfolding switch_to
  switch e s name now = switch_to e s name now (s.exits name)

  -- The assignment at the end of `setMode`.
  unfoldable pub keep_mode : ℕ → E × Selector × Switched → E × Selector × Switched
  keep_mode name (e, s, done) = (e, record s { mode = fixed name }, done)
  keep_mode name (e, s, unknown) = (e, s, unknown)
  keep_mode name (e, s, refused) = (e, s, refused)

  -- `SetMode`, which `Switch` calls.
  unfoldable pub set_mode : E → Selector → Mode → ℕ → E × Selector × Switched
  unfolding switch keep_mode
  set_mode e s auto now = elim s.mode [
    | auto ↦ (e, s, done)
    | fixed _ ↦ (e, record s { mode = auto; last_switch = none }, done)
  ]
  set_mode e s (fixed name) now = keep_mode name (switch e s name now)

  unfoldable pub promote : E → Selector → ℕ → Option ℕ → E × Selector
  unfolding switch
  promote e s now none = (e, s)
  promote e s now (some n) = let (e', s', _) = switch e s n now in (e', s')

  -- `evaluateAuto`. A switch to the active exit does nothing, as the source's last test says.
  unfoldable pub evaluate_auto : E → Selector → ℕ → (ℕ → Bool) → (ℕ → Option ℕ) → E × Selector
  unfolding promote closest
  evaluate_auto e s now healthy rtt =
      if is_auto s.mode && (s.has_rtt && (s.has_health && not (cooling s.last_switch now)))
      then promote e s now (map_first (closest healthy rtt none s.order))
      else (e, s)

  -- `onActiveExhausted`, of the name that the callback captured.
  unfoldable pub on_active_exhausted : E → Selector → ℕ → ℕ → (ℕ → Bool) → E × Selector
  unfolding promote first_healthy_standby
  on_active_exhausted e s name now healthy =
      if s.active == name then promote e s now (first_healthy_standby s healthy) else (e, s)

  -- `retryExhaustedPromotion`: `exhausted` is what the controllers answer.
  unfoldable pub retry_exhausted_promotion :
      E → Selector → ℕ → (ℕ → Bool) → (ℕ → Bool) → E × Selector
  unfolding promote first_healthy_standby
  retry_exhausted_promotion e s now exhausted healthy =
      if controlled s.ctrls s.active && exhausted s.active
      then promote e s now (first_healthy_standby s healthy)
      else (e, s)
