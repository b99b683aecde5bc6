-- ===== src/Frame/Tests.antt =====
-- The codec under a concrete cipher, and its theorems at concrete frames.
use fecalia.Base.{
  ℕ, ◌+◌, ◌-◌, ◌%◌, ◌≡◌, refl, true, false, List, [], ◌∷◌, ◌++◌, map, arith, if◌then◌else◌, ◌==◌,
  length, length-map, replicate, be, read_be,
}
use fecalia.Frame.{
  pad_len_for_on_wire, Crypto, Probe, Frame, probe, control, ok, encode, decode, validate,
  append_body, seal, probe_on_wire_size, check_tag, open_body, first_kind, equal_bytes, decode_body,
  valid_kind, control_body,
}
use fecalia.Frame.Body.{IsProbe}
use fecalia.Frame.Size.{Sized, length-encode, pad_len_for_on_wire_lem, wire_size}
use fecalia.Frame.Envelope.{is_probe, Encoded, Authentic, decode-encode, decode-Authentic}

-- XOR with 1.
abbrev pub flip : ℕ → ℕ
flip x = if x % 2 == 0 then x + 1 else x - 1

flip-flip : (x : ℕ) → flip (flip x) ≡ x
flip-flip x = ground arith

pub map-flip_twice : (xs : List ℕ) → map flip (map flip xs) ≡ xs
map-flip_twice [] = refl
map-flip_twice (x ∷ xs) = λ i. flip-flip x i ∷ map-flip_twice xs i

-- A key stream of ones, and a tag of the first byte.
abbrev pub toy_tag : List ℕ → List ℕ
toy_tag [] = replicate 16 0
toy_tag (x ∷ _) = replicate 16 x

pub length-toy_tag : (obf : List ℕ) → length (toy_tag obf) ≡ 16
length-toy_tag [] = refl
length-toy_tag (x ∷ _) = refl

abbrev pub toy : Crypto
toy = record {
  xor_key_stream = λ _ _ xs. map flip xs;
  tag = λ _ obf. toy_tag obf;
  xor_cons = λ _ _ _ _. refl;
  xor_twice = λ _ _ xs. map-flip_twice xs;
  xor_length = λ _ _ xs. length-map xs flip;
  tag_length = λ _ obf. length-toy_tag obf;
}

abbrev pub nonce : List ℕ
nonce = replicate 24 7

-- A padded probe of 79 bytes on the wire.
abbrev padded_probe : Probe
padded_probe = record {
  path_id = 1;
  probe_seq = 258;
  timestamp_nanos = 1000;
  is_echo = false;
  session_id = 77;
  challenge = 99;
  padded = true;
  pad_len = 2;
  payload = [];
}

padded_probe-IsProbe : IsProbe padded_probe
unfolding validate probe_on_wire_size
padded_probe-IsProbe = record {
  path_id = omega arith;
  probe_seq = omega arith;
  timestamp_nanos = omega arith;
  session_id = omega arith;
  challenge = omega arith;
  pad_len = omega arith;
  unpadded = λ e. cc e;
  valid = refl;
}

decode-encode_example : Encoded toy nonce (probe padded_probe)
decode-encode_example =
    decode-encode toy nonce refl (probe padded_probe) (is_probe padded_probe-IsProbe)

-- A control frame without a payload.
abbrev hello : Frame
hello = control (record { control_type = 5; seq = 258; payload = 42 ∷ [] })

abbrev hello_wire : List ℕ
hello_wire = nonce ++ ((5 ∷ 4 ∷ 1 ∷ 1 ∷ 1 ∷ 1 ∷ 1 ∷ 1 ∷ 0 ∷ 3 ∷ 43 ∷ []) ++ replicate 16 5)

hello_encodes : encode toy nonce hello ≡ ok hello_wire
unfolding encode append_body control_body seal be
hello_encodes = refl

hello_decodes : decode toy hello_wire ≡ ok hello
unfolding decode check_tag open_body first_kind equal_bytes decode_body valid_kind read_be
hello_decodes = refl

decode-Authentic_example : Authentic toy hello_wire
decode-Authentic_example = decode-Authentic toy hello_wire hello hello_decodes

length-encode_example : length hello_wire ≡ wire_size hello
length-encode_example = length-encode toy nonce hello hello_wire refl hello_encodes

pad_len_for_on_wire_lem_example : Sized 1500 (pad_len_for_on_wire 1500)
pad_len_for_on_wire_lem_example = pad_len_for_on_wire_lem 1500
