-- ===== src/Device/Resolution/Tests.antt =====
-- A name with mixed records, and a lookup that fails.
use fecalia.Base.{
  ℕ, ◌+◌, ◌*◌, ◌^◌, ◌≡◌, refl, true, Option, none, some, List, [], ◌∷◌, ◌==◌, if◌then◌else◌,
}
use fecalia.Device.Failover.{contains_addr}
use fecalia.Device.Failover.Tests.{peer, dark}
use fecalia.Device.Resolution.{
  Addr, ip4, ip6, PathFamilies, Resolution, take_addr, take_addrs, order_addr_ports, new_resolution,
  step,
}
use fecalia.Device.Resolution.Retention.{Retains, step-Retains}

abbrev both : PathFamilies
both = record { v4 = true; v6 = true }

-- IPv4 first, and the mapped address is the same as the plain one.
ordered :
    order_addr_ports both 9 (ip6 5 ∷ ip4 7 ∷ ip6 (65535 * 2 ^ 32 + 7) ∷ [])
    ≡ ((3 * 7 + 1) * 2 ^ 16 + 9) ∷ ((3 * 5 + 2) * 2 ^ 16 + 9) ∷ []
unfolding order_addr_ports take_addrs take_addr contains_addr
ordered = refl

abbrev resolver : Resolution
resolver = new_resolution (record { spec_idx = 1; host = 3; port = 9 } ∷ []) both 30 0

abbrev answers : ℕ → Option (List Addr × Option ℕ)
answers host = if host == 3 then some (ip4 7 ∷ ip4 7 ∷ [], some 12) else none

step-Retains_example : Retains peer.specs (step resolver peer dark answers 1 2 3).1.specs
step-Retains_example = step-Retains answers 2 3 resolver peer dark 1
