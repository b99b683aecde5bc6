-- ===== src/Bond.antt =====
-- The wire format of the bonding transport, internal/bond/wire.go, and the inner MTU that
-- internal/bind/mtu.go derives from its overhead.
use fecalia.Base.{
  ℕ, ◌+◌, ◌-◌, Bool, true, false, ◌||◌, Option, none, some, List, [], ◌∷◌, ◌++◌, ◌==◌,
  if◌then◌else◌, be, read_be,
}
use fecalia.Frame.{Control, control_overhead, ◌>>=◌}
pub mod Header
pub mod Ack
pub mod Hello
pub mod Queue
pub mod Codel
pub mod Receipts
pub mod Transport
pub mod Tests

abbrev pub data_type : ℕ
data_type = 161

abbrev pub version : ℕ
version = 1

abbrev pub header_bytes : ℕ
header_bytes = 19

abbrev pub data_field_bytes : ℕ
data_field_bytes = 16 + 8 + 8

abbrev pub overhead : ℕ
overhead = control_overhead + header_bytes + data_field_bytes

pub record Epoch : Type 0 where
  pub boot : ℕ
  pub generation : ℕ

pub record PacketHeader : Type 0 where
  pub epoch : Epoch
  pub lane : ℕ

unfoldable pub append_header : PacketHeader → List ℕ
append_header h = version ∷ (be 8 h.epoch.boot ++ (be 8 h.epoch.generation ++ be 2 h.lane))

-- The rest of `parseHeader` once the version is known: a zero epoch is refused.
unfoldable pub checked : PacketHeader → Option PacketHeader
checked h = if h.epoch.boot == 0 || h.epoch.generation == 0 then none else some h

-- `parseHeader`; a read behind the end is its length check.
unfoldable pub parse_header : List ℕ → Option PacketHeader
unfolding checked
parse_header b = do
  (v, b) ← read_be 1 0 b
  (boot, b) ← read_be 8 0 b
  (generation, b) ← read_be 8 0 b
  (lane, b) ← read_be 2 0 b
  if v == version
      then checked (record { epoch = record { boot = boot; generation = generation }; lane = lane })
      else none

unfoldable pub data_frame : Epoch → Epoch → ℕ → ℕ → ℕ → ℕ → List ℕ → Control
unfolding append_header
data_frame epoch destination lane attempt seq order payload = record {
  control_type = data_type;
  seq = attempt;
  payload =
      append_header (record { epoch = epoch; lane = lane })
      ++ (be 8 destination.boot
          ++ (be 8 destination.generation ++ (be 8 seq ++ (be 8 order ++ payload))));
}

abbrev pub ipv4_udp_overhead : ℕ
ipv4_udp_overhead = 20 + 8

abbrev pub ipv6_udp_overhead : ℕ
ipv6_udp_overhead = 40 + 8

abbrev pub wg_transport_overhead : ℕ
wg_transport_overhead = 16 + 16

-- `InnerMTU` and `InnerMTU6`. The source subtracts on `int`: below the overheads its result is
-- negative, here 0.
unfoldable pub inner_mtu : ℕ → ℕ
inner_mtu path_mtu = path_mtu - ipv4_udp_overhead - overhead - wg_transport_overhead

unfoldable pub inner_mtu6 : ℕ → ℕ
inner_mtu6 path_mtu = path_mtu - ipv6_udp_overhead - overhead - wg_transport_overhead
