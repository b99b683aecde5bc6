-- ===== src/Frame/Body.antt =====
-- The plaintext body of a frame: `decodeBody` after `appendBody`.
use fecalia.Base.{
  ℕ, ◌/◌, ◌%◌, ◌^◌, ◌<◌, ◌≡◌, refl, sym, ap, ◌∙◌, Bool, true, false, some, List, [], ◌∷◌, ◌++◌,
  arith, ltb, lt→ltb, ==_iff, length, length-replicate, replicate, be, read_be, read_be-be,
  if◌then◌else◌, ◌==◌, if_true,
}
use fecalia.Frame.{
  probe_kind, control_kind, Probe, Control, probe, control, probe_body, control_body, decode_body,
  probe_tail, flags, validate, Result, err, malformed, ok,
}

pub read_u8 : (x : ℕ) (rest : List ℕ) → read_be 1 0 (x ∷ rest) ≡ some (x, rest)
unfolding read_be
read_u8 x rest = ap (λ (n : ℕ). some (n, rest)) (omega arith)

pub read_u16 :
    (v : ℕ) → v < 2 ^ 16 → (rest : List ℕ) → read_be 2 0 (be 2 v ++ rest) ≡ some (v, rest)
read_u16 v h rest = read_be-be 2 0 v rest h ∙ ap (λ (n : ℕ). some (n, rest)) (omega arith)

pub read_u64 :
    (v : ℕ) → v < 2 ^ 64 → (rest : List ℕ) → read_be 8 0 (be 8 v ++ rest) ≡ some (v, rest)
read_u64 v h rest = read_be-be 8 0 v rest h ∙ ap (λ (n : ℕ). some (n, rest)) (omega arith)

-- The fields fit their types, and a probe is padded or carries a payload, as `validate` wants.
pub record IsProbe (p : Probe) : Type 0 where
  pub path_id : p.path_id < 2 ^ 8
  pub probe_seq : p.probe_seq < 2 ^ 64
  pub timestamp_nanos : p.timestamp_nanos < 2 ^ 64
  pub session_id : p.session_id < 2 ^ 64
  pub challenge : p.challenge < 2 ^ 64
  pub pad_len : p.pad_len < 2 ^ 16
  pub unpadded : p.padded ≡ false → p.pad_len ≡ 0
  pub valid : validate p ≡ ok tt

pub record IsControl (c : Control) : Type 0 where
  pub control_type : c.control_type < 2 ^ 8
  pub seq : c.seq < 2 ^ 64

-- The two flags are read back from their byte.
flags_bits : (p : Probe) → ((flags p % 2 == 1) ≡ p.is_echo) × ((flags p / 2 % 2 == 1) ≡ p.padded)
unfolding flags
flags_bits p = ground arith

pub control_roundtrip :
    (c : Control) → IsControl c → decode_body control_kind (control_body c) ≡ some (control c)
unfolding decode_body control_body
control_roundtrip c v = rw (read_u8 c.control_type, read_u64 c.seq v.seq)

-- A probe whose tail has not been read yet.
abbrev headed : Probe → Probe
headed p = record p { padded = false; pad_len = 0; payload = [] }

nil_of_test :
    (xs : List ℕ) (r : Result (Unit {0}))
    → (if ltb 0 (length xs) then err malformed else r) ≡ ok tt
    → xs ≡ []
nil_of_test [] r h = refl
nil_of_test (x ∷ xs) r h = cc (
    sym (
      if_true (ltb 0 (length (x ∷ xs))) (err malformed) r
        (lt→ltb 0 (length (x ∷ xs)) (omega arith)))
    ∙ h)

payload_empty : (p : Probe) → IsProbe p → p.padded ≡ true → p.payload ≡ []
unfolding validate
payload_empty p v e = nil_of_test p.payload _ (sym (if_true p.padded _ _ e) ∙ v.valid)

pair_eq : {A B : Type 0} {a a' : A} {b b' : B} → a ≡ a' → b ≡ b' → ◌≡◌ {A = A × B} (a, b) (a', b')
pair_eq p q = λ i. (p i, q i)

tail_lem :
    (p : Probe)
    → IsProbe p
    → (b : Bool) → p.padded ≡ b
    → probe_tail (headed p) b (if b then be 2 p.pad_len ++ replicate p.pad_len 0 else p.payload)
      ≡ some (probe p)
unfolding probe_tail
tail_lem p v true e =
    rw (read_u16 p.pad_len v.pad_len (replicate p.pad_len 0), length-replicate {A = ℕ} p.pad_len 0)
      (if_true (p.pad_len == p.pad_len) _ _ ((==_iff p.pad_len p.pad_len).1 refl)
        ∙ ap (λ (b : Bool × List ℕ). some (probe (record p { padded = b.0; payload = b.1 })))
            (pair_eq (sym e) (sym (payload_empty p v e))))
tail_lem p v false e =
    ap (λ (b : Bool × ℕ). some (probe (record p { padded = b.0; pad_len = b.1 })))
      (pair_eq (sym e) (sym (v.unpadded e)))

pub probe_roundtrip :
    (p : Probe) → IsProbe p → decode_body probe_kind (probe_body p) ≡ some (probe p)
unfolding decode_body probe_body
probe_roundtrip p v =
    rw
      (
        read_u8 p.path_id,
        read_u64 p.probe_seq v.probe_seq,
        read_u64 p.timestamp_nanos v.timestamp_nanos,
        read_u8 (flags p),
        read_u64 p.session_id v.session_id,
        read_u64 p.challenge v.challenge,
        (flags_bits p).0,
        (flags_bits p).1,
      )
      (tail_lem p v p.padded refl)
