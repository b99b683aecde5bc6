-- ===== src/Device/Failover.antt =====
-- The fail-over between a peer's endpoints, `hubFailover` of internal/device/failover.go. An address
-- is a number; the pair of the active spec and address is none where the source has the spec -1, and
-- so is its position. What the paths report and the clock's answers, which do not go back, are
-- arguments. `SetPeerRemote`, the install on the engine and the handshake behind them are the results
-- of a step. The nested loops over the specs run over the flattened list.
use fecalia.Base.{
  ℕ, zero, suc, ◌+◌, ◌-◌, ◌%◌, Bool, true, false, not, ◌&&◌, ◌||◌, Option, none, some, List, [],
  ◌∷◌, ◌++◌, ltb, leb, ◌==◌, if◌then◌else◌, length, get_elem?,
}
use fecalia.Telemetry.Liveness.{PathState, down, up, is_up}
pub mod Index
pub mod Cycle
pub mod Quiet
pub mod History
pub mod Outage
pub mod Tests

-- `failoverSpec`.
pub record Spec : Type 0 where
  pub is_name : Bool
  pub addrs : List ℕ

pub record Failover : Type 0 where
  pub specs : List Spec
  pub settle : ℕ
  pub active : Option (ℕ × ℕ)
  pub idx : Option ℕ
  pub last_switch : ℕ
  pub exhausted_latched : Bool
  pub down_advances : ℕ
  pub down_since : Option ℕ

-- What a step does to the peer: `install`, or `SetPeerRemote`, each with a new handshake.
pub data Act : Type 0 where
  installs : ℕ → Act
  repoints : ℕ → Act

-- The flattened list, with the spec of each address.
abbrev pub owned : ℕ → List ℕ → List (ℕ × ℕ)
owned i [] = []
owned i (a ∷ l) = (i, a) ∷ owned i l

unfoldable pub flat_from : ℕ → List Spec → List (ℕ × ℕ)
flat_from i [] = []
flat_from i (s ∷ l) = owned i s.addrs ++ flat_from (i + 1) l

unfoldable pub flat : List Spec → List (ℕ × ℕ)
unfolding flat_from
flat specs = flat_from 0 specs

-- `flatLenLocked`.
abbrev pub flat_len : List Spec → ℕ
flat_len specs = length (flat specs)

abbrev pub any_name : List Spec → Bool
any_name [] = false
any_name (s ∷ l) = s.is_name || any_name l

-- `canFailoverLocked`.
abbrev pub can_failover : Failover → Bool
can_failover h = leb 2 (flat_len h.specs) || any_name h.specs

abbrev pub same_entry : ℕ × ℕ → ℕ × ℕ → Bool
same_entry (s, a) (t, b) = s == t && a == b

unfoldable pub position_from : ℕ → ℕ × ℕ → List (ℕ × ℕ) → Option ℕ
position_from n e [] = none
position_from n e (x ∷ l) =
    let rest = position_from (n + 1) e l in if same_entry x e then some n else rest

-- `flatIndexLocked`.
abbrev pub flat_index : List Spec → Option (ℕ × ℕ) → Option ℕ
flat_index specs none = none
flat_index specs (some e) = position_from 0 e (flat specs)

-- `entryAtLocked`.
abbrev pub entry_at : List Spec → ℕ → Option (ℕ × ℕ)
entry_at specs i = get_elem? (flat specs) i

-- `newHubFailoverFromSpecs`.
unfoldable pub new_hub_failover : List Spec → ℕ → ℕ → Failover
new_hub_failover specs settle now = record {
  specs = specs;
  settle = settle;
  active = entry_at specs 0;
  idx = flat_index specs (entry_at specs 0);
  last_switch = now;
  exhausted_latched = false;
  down_advances = 0;
  down_since = none;
}

unfoldable pub contains_addr : List ℕ → ℕ → Bool
contains_addr [] a = false
contains_addr (b ∷ l) a = b == a || contains_addr l a

-- The first resolution of a peer without an active entry.
abbrev pub adopt : Failover → ℕ → Option (ℕ × ℕ) → Failover × List Act
adopt h now none = (h, [])
adopt h now (some (i, a)) = (record h { active = some (i, a); last_switch = now }, installs a ∷ [])

-- A resolution of the active spec.
abbrev pub follow : Failover → ℕ → ℕ → ℕ → List ℕ → Failover × List Act
follow h now i a [] = (h, [])
follow h now i a (b ∷ l) =
    if contains_addr (b ∷ l) a
    then (h, [])
    else (record h { active = some (i, b); last_switch = now }, repoints b ∷ [])

unfoldable pub reconcile : Failover → ℕ → ℕ → List ℕ → Option (ℕ × ℕ) → Failover × List Act
reconcile h now i addrs none = adopt h now (entry_at h.specs 0)
reconcile h now i addrs (some (j, a)) = if i == j then follow h now i a addrs else (h, [])

abbrev pub with_addrs : List Spec → ℕ → List ℕ → List Spec
with_addrs [] i addrs = []
with_addrs (s ∷ l) zero addrs = (record s { addrs = addrs }) ∷ l
with_addrs (s ∷ l) (suc i) addrs = s ∷ with_addrs l i addrs

abbrev pub remap : Failover × List Act → Failover × List Act
remap (h, acts) = (record h { idx = flat_index h.specs h.active }, acts)

-- `updateResolution`.
unfoldable pub update_resolution : Failover → ℕ → ℕ → List ℕ → Failover × List Act
unfolding reconcile
update_resolution h now i addrs =
    if leb (length h.specs) i
    then (h, [])
    else remap (reconcile (record h { specs = with_addrs h.specs i addrs }) now i addrs h.active)

-- `allDownLocked`.
abbrev pub are_down : List PathState → Bool
are_down [] = true
are_down (s ∷ l) = not (is_up s) && are_down l

abbrev pub all_down : List PathState → Bool
all_down [] = false
all_down (s ∷ l) = are_down (s ∷ l)

-- `Exhausted`.
abbrev pub is_exhausted : Failover → List PathState → Bool
is_exhausted h health = h.exhausted_latched && all_down health

-- `raiseExhaustedLocked`.
abbrev pub raise_exhausted : Failover → Failover × Bool
raise_exhausted h = (record h { exhausted_latched = true }, not h.exhausted_latched)

abbrev pub onset : Option ℕ → ℕ → ℕ
onset none now = now
onset (some since) now = since

abbrev pub next_index : Option ℕ → ℕ → ℕ
next_index none total = 0
next_index (some i) total = (i + 1) % total

abbrev pub address : Option (ℕ × ℕ) → List Act
address none = []
address (some (_, a)) = repoints a ∷ []

-- The end of `checkLocked`: the next entry is selected, and a full round raises the exhaustion.
unfoldable pub select_next : Failover → ℕ → Failover × List Act × Bool
select_next h now =
    let total = flat_len h.specs in
    let next = next_index (flat_index h.specs h.active) total in
    let moved = record h {
      active = entry_at h.specs next;
      idx = some next;
      last_switch = now;
      down_advances = h.down_advances + 1;
    } in
    if leb total moved.down_advances
    then (let (raised, edge) = raise_exhausted (record moved { down_advances = 0 }) in
        (raised, address moved.active, edge))
    else (moved, address moved.active, false)

-- A peer with one endpoint: the exhaustion, once the outage has lasted.
unfoldable pub check_single : Failover → ℕ → ℕ → Failover × List Act × Bool
check_single h since now =
    if ltb (now - since) h.settle
    then (h, [], false)
    else (let (raised, edge) = raise_exhausted h in (raised, [], edge))

unfoldable pub check_down : Failover → ℕ → Failover × List Act × Bool
unfolding check_single select_next
check_down h now =
    let since = onset h.down_since now in
    let marked = record h { down_since = some since } in
    if ltb (flat_len h.specs) 2
    then check_single marked since now
    else (if ltb (now - h.last_switch) h.settle
        then (marked, [], false)
        else select_next marked now)

-- `checkLocked`: the state, what it does to the peer, and whether it raised the exhaustion.
unfoldable pub check_failover : Failover → List PathState → ℕ → Failover × List Act × Bool
unfolding check_down
check_failover h health now =
    if flat_len h.specs == 0
    then (h, [], false)
    else (if not (all_down health)
        then (
          record h { down_advances = 0; exhausted_latched = false; down_since = none },
          [],
          false,
        )
        else check_down h now)
