-- ===== src/Device/Resolution.antt =====
-- The re-resolution of endpoint names, internal/device/resolution.go, on top of Device/Failover. A
-- `netip.Addr` is a number of its family, an address with its port one number, a host a number. What
-- each lookup answers, and the clock's answers during a step, are arguments: a failed lookup is none,
-- a TTL that means nothing none; the lookups of one host within a step have one answer.
use fecalia.Base.{
  ℕ, zero, suc, ◌+◌, ◌*◌, ◌/◌, ◌%◌, ◌^◌, Bool, true, false, not, ◌&&◌, ◌||◌, Option, none, some,
  List, [], ◌∷◌, ◌++◌, ltb, ◌==◌, if◌then◌else◌,
}
use fecalia.Telemetry.Liveness.{PathState}
use fecalia.Device.Failover.{Spec, Failover, Act, update_resolution, all_down, contains_addr}
pub mod Order
pub mod Retention
pub mod Tests

pub data Addr : Type 0 where
  invalid : Addr
  ip4 : ℕ → Addr
  ip6 : ℕ → Addr

-- `Unmap`: an IPv6 address that maps an IPv4 one is that one.
abbrev pub unmap : Addr → Addr
unmap invalid = invalid
unmap (ip4 n) = ip4 n
unmap (ip6 n) = if n / 2 ^ 32 == 65535 then ip4 (n % 2 ^ 32) else ip6 n

abbrev pub is_valid : Addr → Bool
is_valid invalid = false
is_valid _ = true

abbrev pub is_ip4 : Addr → Bool
is_ip4 (ip4 _) = true
is_ip4 _ = false

-- `AddrPortFrom`, as one number.
abbrev pub addr_port : Addr → ℕ → ℕ
addr_port invalid port = port
addr_port (ip4 n) port = (3 * n + 1) * 2 ^ 16 + port
addr_port (ip6 n) port = (3 * n + 2) * 2 ^ 16 + port

pub record PathFamilies : Type 0 where
  pub v4 : Bool
  pub v6 : Bool

-- `allows`.
abbrev pub allows : PathFamilies → Addr → Bool
allows f a = if is_ip4 (unmap a) then f.v4 else f.v6

-- What the loop of `orderAddrPorts` keeps.
pub record Ordered : Type 0 where
  pub seen : List ℕ
  pub first : List ℕ
  pub last : List ℕ

-- One turn of the loop; `seen` holds the addresses with the port.
unfoldable pub take_addr : PathFamilies → ℕ → Ordered → Addr → Ordered
take_addr f port o a =
    if not (is_valid a) || not (allows f a)
    then o
    else (let ap = addr_port (unmap a) port in
        if contains_addr o.seen ap
        then o
        else (if is_ip4 (unmap a)
            then (record o { seen = ap ∷ o.seen; first = o.first ++ (ap ∷ []) })
            else (record o { seen = ap ∷ o.seen; last = o.last ++ (ap ∷ []) })))

unfoldable pub take_addrs : PathFamilies → ℕ → Ordered → List Addr → Ordered
unfolding take_addr
take_addrs f port o [] = o
take_addrs f port o (a ∷ l) = take_addrs f port (take_addr f port o a) l

-- `orderAddrPorts`.
unfoldable pub order_addr_ports : PathFamilies → ℕ → List Addr → List ℕ
unfolding take_addrs
order_addr_ports f port l =
    let o = take_addrs f port (record { seen = []; first = []; last = [] }) l in o.first ++ o.last

pub record NameTarget : Type 0 where
  pub spec_idx : ℕ
  pub host : ℕ
  pub port : ℕ

pub record Resolution : Type 0 where
  pub targets : List NameTarget
  pub families : PathFamilies
  pub poll_interval : ℕ
  pub next_poll_at : ℕ
  pub last_all_down : Bool

-- `newResolution`.
abbrev pub new_resolution : List NameTarget → PathFamilies → ℕ → ℕ → Resolution
new_resolution targets families poll_interval now = record {
  targets = targets;
  families = families;
  poll_interval = poll_interval;
  next_poll_at = now;
  last_all_down = false;
}

-- `clampPollDelay`.
abbrev pub clamp_poll_delay : ℕ → Option ℕ → ℕ
clamp_poll_delay interval none = interval
clamp_poll_delay interval (some ttl) = if ltb 0 ttl && ltb ttl interval then ttl else interval

-- The rest of `resolveTarget` behind the ordering of the addresses.
abbrev pub publish : Failover → ℕ → ℕ → List ℕ → Option ℕ → Failover × List Act × Option ℕ
publish h at i [] ttl = (h, [], none)
publish h at i (a ∷ l) ttl = let (h', acts) = update_resolution h at i (a ∷ l) in (h', acts, ttl)

-- `resolveTarget`: the fail-over, what it did, and the TTL.
unfoldable pub resolve_target :
    PathFamilies
    → Failover
    → ℕ
    → NameTarget
    → Option (List Addr × Option ℕ)
    → Failover × List Act × Option ℕ
unfolding order_addr_ports
resolve_target f h at t none = (h, [], none)
resolve_target f h at t (some (addrs, ttl)) =
    publish h at t.spec_idx (order_addr_ports f t.port addrs) ttl

abbrev pub lesser : ℕ → ℕ → ℕ
lesser d delay = if ltb d delay then d else delay

-- The loop of `pollAll`.
unfoldable pub poll_targets :
    PathFamilies
    → ℕ
    → (ℕ → Option (List Addr × Option ℕ))
    → ℕ
    → Failover
    → ℕ
    → List NameTarget
    → Failover × List Act × ℕ
unfolding resolve_target
poll_targets f interval lookup at h delay [] = (h, [], delay)
poll_targets f interval lookup at h delay (t ∷ l) =
    let (h', acts, ttl) = resolve_target f h at t (lookup t.host) in
    let (h'', more, least) =
      poll_targets f interval lookup at h' (lesser (clamp_poll_delay interval ttl) delay) l in
    (h'', acts ++ more, least)

-- `targetFor`.
abbrev pub target_for : List NameTarget → Option (ℕ × ℕ) → Option NameTarget
target_for l none = none
target_for [] (some e) = none
target_for (t ∷ l) (some (i, a)) = if t.spec_idx == i then some t else target_for l (some (i, a))

-- The part of `checkLivenessLoss` behind the edge.
unfoldable pub resolve_active :
    Resolution
    → Failover
    → (ℕ → Option (List Addr × Option ℕ))
    → ℕ
    → ℕ
    → Option NameTarget
    → Resolution × Failover × List Act
unfolding resolve_target
resolve_active r h lookup at later none = (r, h, [])
resolve_active r h lookup at later (some t) =
    let (h', acts, ttl) = resolve_target r.families h at t (lookup t.host) in
    (record r { next_poll_at = later + clamp_poll_delay r.poll_interval ttl }, h', acts)

-- `checkLivenessLoss`.
unfoldable pub check_liveness_loss :
    Resolution
    → Failover
    → List PathState
    → (ℕ → Option (List Addr × Option ℕ))
    → ℕ
    → ℕ
    → Resolution × Failover × List Act
unfolding resolve_active
check_liveness_loss r h health lookup at later =
    let down = all_down health in
    let marked = record r { last_all_down = down } in
    if down && not r.last_all_down
    then resolve_active marked h lookup at later (target_for r.targets h.active)
    else (marked, h, [])

-- The scheduled poll.
unfoldable pub poll_due :
    Resolution
    → Failover
    → (ℕ → Option (List Addr × Option ℕ))
    → ℕ
    → ℕ
    → ℕ
    → Resolution × Failover × List Act
unfolding poll_targets
poll_due r h lookup now at later =
    if ltb now r.next_poll_at
    then (r, h, [])
    else (let (h', acts, delay) =
          poll_targets r.families r.poll_interval lookup at h r.poll_interval r.targets in
        (record r { next_poll_at = later + delay }, h', acts))

-- `step`.
unfoldable pub step :
    Resolution
    → Failover
    → List PathState
    → (ℕ → Option (List Addr × Option ℕ))
    → ℕ
    → ℕ
    → ℕ
    → Resolution × Failover × List Act
unfolding check_liveness_loss poll_due
step r h health lookup now at later =
    let (r', h', acts) = check_liveness_loss r h health lookup at later in
    let (r'', h'', more) = poll_due r' h' lookup now at later in (r'', h'', acts ++ more)
