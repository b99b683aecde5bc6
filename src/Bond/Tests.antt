-- ===== src/Bond/Tests.antt =====
-- A lane header and a data frame at concrete values.
use fecalia.Base.{
  ℕ, max, ◌+◌, ◌-◌, ◌*◌, ◌/◌, ◌≤◌, ◌≡◌, refl, true, List, [], ◌∷◌, ltb, if◌then◌else◌, arith,
  length, replicate, length-replicate,
}
use fecalia.Frame.{control, encode, seal, append_body, ok}
use fecalia.Frame.Tests.{toy, nonce}
use fecalia.Bond.{Epoch, PacketHeader, data_frame, inner_mtu6, ipv6_udp_overhead}
use fecalia.Bond.Header.{IsHeader, Pads, reckoned, inner_mtu-encode}

abbrev here : Epoch
here = record { boot = 77; generation = 2 }

abbrev there : Epoch
there = record { boot = 99; generation = 1 }

abbrev lane_header : PacketHeader
lane_header = record { epoch = here; lane = 3 }

lane_header-IsHeader : IsHeader lane_header
lane_header-IsHeader = record {
  boot = omega arith;
  generation = omega arith;
  lane = omega arith;
  boot_set = omega arith;
  generation_set = omega arith;
}

-- A device that pads to a multiple of 16, or to the link MTU.
abbrev padded : ℕ → ℕ → ℕ
padded m n = max n (if ltb m ((n + 15) / 16 * 16) then m else (n + 15) / 16 * 16)

abbrev pads : ℕ → List ℕ → List ℕ
pads m packet = replicate (padded m (length packet) + 32) 5

pads-Pads : Pads pads
pads-Pads = record {
  carries =
      λ m packet. rw (length-replicate {A = ℕ} (padded m (length packet) + 32) 5) (omega arith);
  within = λ m packet le.
      rw (length-replicate {A = ℕ} (padded m (length packet) + 32) 5)
        (bounded m (length packet) le);
}
  where
    bounded : (m n : ℕ) → n ≤ m → padded m n + 32 ≤ m + 32
    bounded m n le = ground arith

abbrev packet : List ℕ
packet = 4 ∷ 5 ∷ []

-- The link MTU of a path MTU of 1500 bytes over IPv6.
abbrev link : ℕ
link = 1319

abbrev sealed_packet : List ℕ
sealed_packet = pads link packet

abbrev wire : List ℕ
wire = seal toy nonce (append_body (control (data_frame here there 3 1 1 1 sealed_packet)))

wire_encodes : encode toy nonce (control (data_frame here there 3 1 1 1 sealed_packet)) ≡ ok wire
unfolding encode
wire_encodes = refl

inner_mtu-encode_example :
    (ipv6_udp_overhead + length wire ≤ 1500)
    × (1500 ≤ ipv6_udp_overhead + length wire + (inner_mtu6 1500 - 2))
unfolding inner_mtu6 reckoned
inner_mtu-encode_example =
    inner_mtu-encode true toy pads nonce packet here there 3 1 1 1 wire link 1500 pads-Pads refl
      (omega arith) (omega arith) (omega arith) wire_encodes
