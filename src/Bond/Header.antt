-- ===== src/Bond/Header.antt =====
-- The lane header is read back, and the inner MTU keeps a datagram within the path MTU.
use fecalia.Base.{
  ℕ, Bool, true, false, if◌then◌else◌, ◌+◌, ◌-◌, ◌^◌, ◌<◌, ◌≤◌, ◌≡◌, ap, ◌∙◌, ◌||◌, some, List, ◌∷◌,
  ◌++◌, append_assoc, ◌==◌, arith, if_false, be, length, length-append, length-be,
}
use fecalia.Frame.{control, Crypto, ok, encode, nonce_len}
use fecalia.Frame.Body.{read_u8, read_u16, read_u64}
use fecalia.Frame.Size.{behind_word, length-encode}
use fecalia.Bond.{
  Epoch, PacketHeader, version, ipv4_udp_overhead, ipv6_udp_overhead, wg_transport_overhead,
  overhead, append_header, parse_header, data_frame, inner_mtu, inner_mtu6,
}

pub record IsHeader (h : PacketHeader) : Type 0 where
  pub boot : h.epoch.boot < 2 ^ 64
  pub generation : h.epoch.generation < 2 ^ 64
  pub lane : h.lane < 2 ^ 16
  pub boot_set : 0 < h.epoch.boot
  pub generation_set : 0 < h.epoch.generation

-- A header whose fields fit their types and whose epoch is not zero is read back from the front of
-- the bytes that `appendHeader` makes of it, whatever follows.
pub parse_header-append_header :
    (h : PacketHeader) (rest : List ℕ)
    → IsHeader h
    → parse_header (append_header h ++ rest) ≡ some h
unfolding parse_header append_header
parse_header-append_header h rest v =
    ap (λ (xs : List ℕ). parse_header (version ∷ xs))
      (append_assoc (be 8 h.epoch.boot) (be 8 h.epoch.generation ++ be 2 h.lane) rest
        ∙ ap (λ (xs : List ℕ). be 8 h.epoch.boot ++ xs)
            (append_assoc (be 8 h.epoch.generation) (be 2 h.lane) rest))
    ∙ rw
        (
          read_u8 version,
          read_u64 h.epoch.boot v.boot,
          read_u64 h.epoch.generation v.generation,
          read_u16 h.lane v.lane,
        )
        (if_false (h.epoch.boot == 0 || h.epoch.generation == 0) _ _ (ground arith))

pub length-data_frame :
    (epoch destination : Epoch) (lane attempt seq order : ℕ) (payload : List ℕ)
    → length (data_frame epoch destination lane attempt seq order payload).payload
      ≡ 51 + length payload
unfolding data_frame append_header
length-data_frame epoch destination lane attempt seq order payload =
    rw
      (
        append_assoc (be 8 epoch.boot) (be 8 epoch.generation ++ be 2 lane) (
            be 8 destination.boot
            ++ (be 8 destination.generation ++ (be 8 seq ++ (be 8 order ++ payload)))),
        append_assoc (be 8 epoch.generation) (be 2 lane) (
            be 8 destination.boot
            ++ (be 8 destination.generation ++ (be 8 seq ++ (be 8 order ++ payload)))),
        behind_word epoch.boot,
        behind_word epoch.generation,
        length-append (be 2 lane) (
            be 8 destination.boot
            ++ (be 8 destination.generation ++ (be 8 seq ++ (be 8 order ++ payload)))),
        length-be 2 lane,
        behind_word destination.boot,
        behind_word destination.generation,
        behind_word seq,
        behind_word order,
      )
      (omega arith)

-- The inner WireGuard device, whose `seal m packet` is the transport message of a packet under the link
-- MTU `m`: its own bytes around the packet, whose padding stops at the link MTU. Its options for
-- further random padding are off.
pub record Pads (seal : ℕ → List ℕ → List ℕ) : Type 0 where
  pub carries :
      (m : ℕ) (packet : List ℕ) → length packet + wg_transport_overhead ≤ length (seal m packet)
  pub within :
      (m : ℕ) (packet : List ℕ)
      → length packet ≤ m
      → length (seal m packet) ≤ m + wg_transport_overhead

-- The overhead of a family, and what is reckoned for it.
abbrev pub udp_overhead : Bool → ℕ
udp_overhead v6 = if v6 then ipv6_udp_overhead else ipv4_udp_overhead

unfoldable pub reckoned : Bool → ℕ → ℕ
unfolding inner_mtu inner_mtu6
reckoned v6 path_mtu = if v6 then inner_mtu6 path_mtu else inner_mtu path_mtu

-- The link MTU is at most what `InnerMTU` reckons of the path MTU, or `InnerMTU6` over IPv6. A packet
-- within the link MTU that is not empty, sealed by an inner device that pads at most to the link MTU,
-- carried in a data frame and sealed by `Encode`, is not fragmented; and of the path MTU it leaves at
-- most what the packet leaves of the reckoned inner MTU.
pub inner_mtu-encode :
    (v6 : Bool) (k : Crypto) (seal : ℕ → List ℕ → List ℕ) (nonce packet : List ℕ)
    (epoch destination : Epoch) (lane attempt seq order : ℕ) (raw : List ℕ) (m path_mtu : ℕ)
    → Pads seal
    → length nonce ≡ nonce_len
    → 0 < length packet
    → length packet ≤ m
    → m ≤ reckoned v6 path_mtu
    → encode k nonce (control (data_frame epoch destination lane attempt seq order (seal m packet)))
      ≡ ok raw
    → (udp_overhead v6 + length raw ≤ path_mtu)
      × (path_mtu ≤ udp_overhead v6 + length raw + (reckoned v6 path_mtu - length packet))
unfolding inner_mtu inner_mtu6 reckoned
inner_mtu-encode v6 k seal nonce packet epoch destination lane attempt seq order raw m path_mtu pads
      h pos inside link e =
    let whole =
      length-encode k nonce
        (control (data_frame epoch destination lane attempt seq order (seal m packet))) raw h e in
    let frame = length-data_frame epoch destination lane attempt seq order (seal m packet) in
    family v6 (length packet) m path_mtu (length (seal m packet)) (length raw) pos inside link
      (pads.carries m packet) (pads.within m packet inside) (omega (arith, whole, frame))
  where
    family :
        (v6 : Bool) (n m path size raw : ℕ)
        → 0 < n
        → n ≤ m
        → m ≤ reckoned v6 path
        → n + wg_transport_overhead ≤ size
        → size ≤ m + wg_transport_overhead
        → raw ≡ overhead + size
        → (udp_overhead v6 + raw ≤ path) × (path ≤ udp_overhead v6 + raw + (reckoned v6 path - n))
    family true n m path size raw pos inside link least most e = (omega arith, omega arith)
    family false n m path size raw pos inside link least most e = (omega arith, omega arith)
