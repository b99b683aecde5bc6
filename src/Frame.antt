-- ===== src/Frame.antt =====
-- internal/frame/frame.go, the outer frame codec. The ciphers are packages that the repository does
-- not hold: they are the fields of `Crypto`, with what their documentation says of them. A byte is
-- a number, an `int64` its bit pattern, and the `reader` the bytes from its cursor on.
use fecalia.Base.{
  ℕ, zero, suc, ◌+◌, ◌-◌, ◌*◌, ◌/◌, ◌%◌, ◌≤◌, ◌<◌, ◌≡◌, Bool, true, false, ◌||◌, Option, none, some,
  List, [], ◌∷◌, ◌++◌, ltb, leb, ◌==◌, if◌then◌else◌, length, take, drop, replicate, be, read_be,
}
pub mod Body
pub mod Envelope
pub mod Size
pub mod Tests

abbrev pub nonce_len : ℕ
nonce_len = 24

abbrev pub tag_len : ℕ
tag_len = 16

abbrev pub control_overhead : ℕ
control_overhead = nonce_len + 1 + 1 + 8 + tag_len

abbrev pub probe_fixed_body : ℕ
probe_fixed_body = 1 + 1 + 8 + 8 + 1 + 8 + 8

abbrev pub probe_base_on_wire : ℕ
probe_base_on_wire = nonce_len + probe_fixed_body + 2 + tag_len

abbrev pub max_padded_probe_on_wire : ℕ
max_padded_probe_on_wire = 9000

-- `Kind`: KindProbe is 3, KindControl is 4.
pub data Kind : Type 0 where
  probe_kind control_kind : Kind

abbrev pub kind_byte : Kind → ℕ
kind_byte probe_kind = 3
kind_byte control_kind = 4

-- `Kind.valid`, with the kind of a valid byte.
unfoldable pub valid_kind : ℕ → Option Kind
valid_kind k = if k == 3 then some probe_kind else (if k == 4 then some control_kind else none)

pub record Probe : Type 0 where
  pub path_id : ℕ
  pub probe_seq : ℕ
  pub timestamp_nanos : ℕ
  pub is_echo : Bool
  pub session_id : ℕ
  pub challenge : ℕ
  pub padded : Bool
  pub pad_len : ℕ
  pub payload : List ℕ

pub record Control : Type 0 where
  pub control_type : ℕ
  pub seq : ℕ
  pub payload : List ℕ

pub data Frame : Type 0 where
  probe : Probe → Frame
  control : Control → Frame

pub data Error : Type 0 where
  malformed auth : Error

pub data Result (A : Type 0) : Type 0 where
  ok : A → Result A
  err : Error → Result A

unfoldable pub probe_on_wire_size : ℕ → ℕ
probe_on_wire_size pad_len = probe_base_on_wire + pad_len

-- `uint16(onWire - ProbeBaseOnWire)`.
unfoldable pub pad_len_for_on_wire : ℕ → Result ℕ
pad_len_for_on_wire on_wire =
    if ltb on_wire probe_base_on_wire
    then err malformed
    else (if ltb max_padded_probe_on_wire on_wire
        then err malformed
        else ok ((on_wire - probe_base_on_wire) % 65536))

-- `Probe.validate`.
unfoldable pub validate : Probe → Result (Unit {0})
unfolding probe_on_wire_size
validate p =
    if p.padded
    then (if ltb 0 (length p.payload)
        then err malformed
        else (if ltb max_padded_probe_on_wire (probe_on_wire_size p.pad_len)
            then err malformed
            else ok tt))
    else ok tt

-- The flags byte: bit 0 for an echo, bit 1 for padding.
unfoldable pub flags : Probe → ℕ
flags p = (if p.is_echo then 1 else 0) + (if p.padded then 2 else 0)

-- `Probe.appendBody` and `Control.appendBody`, without the kind byte.
unfoldable pub probe_body : Probe → List ℕ
unfolding flags
probe_body p =
    p.path_id
    ∷ (be 8 p.probe_seq
        ++ (be 8 p.timestamp_nanos
            ++ (flags p
                ∷ (be 8 p.session_id
                    ++ (be 8 p.challenge
                        ++ (if p.padded
                            then be 2 p.pad_len ++ replicate p.pad_len 0
                            else p.payload))))))

unfoldable pub control_body : Control → List ℕ
control_body c = c.control_type ∷ (be 8 c.seq ++ c.payload)

unfoldable pub append_body : Frame → List ℕ
unfolding probe_body control_body
append_body (probe p) = kind_byte probe_kind ∷ probe_body p
append_body (control c) = kind_byte control_kind ∷ control_body c

-- A failed read is `ErrMalformed`.
infixl 5 ◌>>=◌
abbrev pub ◌>>=◌ : {A B : Type 0} → Option A → (A → Option B) → Option B
none >>= f = none
some a >>= f = f a

-- The tail of a probe: the pad bytes, which are counted and dropped, or the payload.
unfoldable pub probe_tail : Probe → Bool → List ℕ → Option Frame
probe_tail p true b = do
  (pad_len, pad) ← read_be 2 0 b
  if length pad == pad_len
      then some (probe (record p { padded = true; pad_len = pad_len }))
      else none
probe_tail p false b = some (probe (record p { payload = b }))

-- `decodeBody`, on the bytes after the kind byte.
unfoldable pub decode_body : Kind → List ℕ → Option Frame
unfolding probe_tail
decode_body probe_kind b = do
  (path_id, b) ← read_be 1 0 b
  (probe_seq, b) ← read_be 8 0 b
  (timestamp_nanos, b) ← read_be 8 0 b
  (flags, b) ← read_be 1 0 b
  (session_id, b) ← read_be 8 0 b
  (challenge, b) ← read_be 8 0 b
  probe_tail
      (record {
        path_id = path_id;
        probe_seq = probe_seq;
        timestamp_nanos = timestamp_nanos;
        is_echo = flags % 2 == 1;
        session_id = session_id;
        challenge = challenge;
        padded = false;
        pad_len = 0;
        payload = [];
      })
      (flags / 2 % 2 == 1) b
decode_body control_kind b = do
  (control_type, b) ← read_be 1 0 b
  (seq, b) ← read_be 8 0 b
  some (control (record { control_type = control_type; seq = seq; payload = b }))

-- What the packages of the ciphers promise: XORing a key stream from one of its positions on, twice,
-- gives the bytes back, in one piece or in two; a tag has the length of a truncated HMAC-SHA256.
pub record Crypto : Type 0 where
  pub xor_key_stream : List ℕ → ℕ → List ℕ → List ℕ
  pub tag : List ℕ → List ℕ → List ℕ
  pub xor_cons :
      (nonce : List ℕ) (at x : ℕ) (xs : List ℕ)
      → xor_key_stream nonce at (x ∷ xs)
        ≡ xor_key_stream nonce at (x ∷ []) ++ xor_key_stream nonce (at + 1) xs
  pub xor_twice :
      (nonce : List ℕ) (at : ℕ) (xs : List ℕ)
      → xor_key_stream nonce at (xor_key_stream nonce at xs) ≡ xs
  pub xor_length :
      (nonce : List ℕ) (at : ℕ) (xs : List ℕ) → length (xor_key_stream nonce at xs) ≡ length xs
  pub tag_length : (nonce obf : List ℕ) → length (tag nonce obf) ≡ tag_len

-- `hmac.Equal`.
unfoldable pub equal_bytes : List ℕ → List ℕ → Bool
equal_bytes [] [] = true
equal_bytes [] (_ ∷ _) = false
equal_bytes (_ ∷ _) [] = false
equal_bytes (x ∷ xs) (y ∷ ys) = let rest = equal_bytes xs ys in if x == y then rest else false

abbrev pub from_option : {A : Type 0} → Option A → Result A
from_option none = err malformed
from_option (some a) = ok a

module _ (k : Crypto) where
  open k use {xor_key_stream, tag}

  -- `Codec.Encode` after `validate`: `nonce` is what the random source delivered.
  unfoldable pub seal : List ℕ → List ℕ → List ℕ
  seal nonce body = let obf = xor_key_stream nonce 0 body in nonce ++ (obf ++ tag nonce obf)

  unfoldable pub encode : List ℕ → Frame → Result (List ℕ)
  unfolding seal
  encode nonce (probe p) = elim (validate p) [
    | err e ↦ err e
    | ok _ ↦ ok (seal nonce (append_body (probe p)))
  ]
  encode nonce (control c) = ok (seal nonce (append_body (control c)))

  -- The body once its tag is verified: byte 0 has its own XOR, the rest goes on in the key stream.
  unfoldable pub open_body : List ℕ → Kind → List ℕ → Result Frame
  open_body nonce kind [] = err malformed
  open_body nonce kind (_ ∷ obf) = from_option (decode_body kind (xor_key_stream nonce 1 obf))

  unfoldable pub check_tag : List ℕ → List ℕ → Kind → Result Frame
  unfolding open_body
  check_tag nonce rest kind =
      if ltb (length rest) (tag_len + 1)
      then err malformed
      else (let obf = take (length rest - tag_len) rest in
          if equal_bytes (drop (length rest - tag_len) rest) (tag nonce obf)
          then open_body nonce kind obf
          else err auth)

  -- The kind byte is recovered first, from the first byte behind the nonce.
  unfoldable pub first_kind : List ℕ → List ℕ → Option Kind
  first_kind nonce rest = elim (xor_key_stream nonce 0 (take 1 rest)) [
    | [] ↦ none
    | x ∷ _ ↦ valid_kind x
  ]

  -- `Codec.Decode`.
  unfoldable pub decode : List ℕ → Result Frame
  unfolding first_kind check_tag
  decode raw =
      if ltb (length raw) (nonce_len + 1)
      then err malformed
      else (elim (first_kind (take nonce_len raw) (drop nonce_len raw)) [
        | none ↦ err malformed
        | some kind ↦ check_tag (take nonce_len raw) (drop nonce_len raw) kind
      ])
