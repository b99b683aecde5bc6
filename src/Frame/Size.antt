-- ===== src/Frame/Size.antt =====
-- The sizes on the wire: `ControlOverhead`, `ProbeOnWireSize`, `PadLenForOnWire`.
use fecalia.Base.{
  ℕ, ◌+◌, ◌<◌, ◌≡◌, ◌⊎◌, inl, inr, refl, sym, ap, ◌∙◌, Bool, true, false, List, ◌++◌, arith, ltb,
  Bool-cases, length, length-append, length-replicate, length-be, replicate, be, if◌then◌else◌,
  if_true, if_false, le→ltb_false, lt→ltb, dec_lt,
}
use mathlib.Core.Path.{subst}
use fecalia.Frame.{
  Probe, Control, Frame, probe, control, Result, ok, err, Crypto, nonce_len, tag_len,
  control_overhead, probe_fixed_body, probe_base_on_wire, max_padded_probe_on_wire,
  probe_on_wire_size, pad_len_for_on_wire, validate, probe_body, control_body, append_body, seal,
  encode,
}

-- The size that the constants promise.
abbrev pub wire_size : Frame → ℕ
wire_size (probe p) =
    if p.padded
    then probe_on_wire_size p.pad_len
    else nonce_len + probe_fixed_body + length p.payload + tag_len
wire_size (control c) = control_overhead + length c.payload

pub behind_word : (v : ℕ) (xs : List ℕ) → length (be 8 v ++ xs) ≡ 8 + length xs
behind_word v xs = length-append (be 8 v) xs ∙ ap (λ n. n + length xs) (length-be 8 v)

length-control_body : (c : Control) → length (control_body c) ≡ 9 + length c.payload
unfolding control_body
length-control_body c = omega (arith, length-append (be 8 c.seq) c.payload, length-be 8 c.seq)

length-tail :
    (b : Bool) (n : ℕ) (payload : List ℕ)
    → length (if b then be 2 n ++ replicate n 0 else payload)
      ≡ (if b then 2 + n else length payload)
length-tail true n payload =
    length-append (be 2 n) (replicate n 0)
    ∙ omega (arith, length-be 2 n, length-replicate {A = ℕ} n 0)
length-tail false n payload = refl

length-probe_body :
    (p : Probe)
    → length (probe_body p) ≡ 34 + (if p.padded then 2 + p.pad_len else length p.payload)
unfolding probe_body
length-probe_body p =
    rw
      (
        behind_word p.probe_seq,
        behind_word p.timestamp_nanos,
        behind_word p.session_id,
        behind_word p.challenge,
        length-tail p.padded p.pad_len p.payload,
      )
      (omega arith)

module _ (k : Crypto) where
  length-seal :
      (nonce body : List ℕ) → length (seal k nonce body) ≡ length nonce + (length body + 16)
  unfolding seal
  length-seal nonce body =
      let obf = k.xor_key_stream nonce 0 body in
      omega (
        arith,
        length-append nonce (obf ++ k.tag nonce obf),
        length-append obf (k.tag nonce obf),
        k.xor_length nonce 0 body,
        k.tag_length nonce obf,
      )

  length-sealed :
      (nonce : List ℕ)
      → length nonce ≡ nonce_len
      → (f : Frame) → length (seal k nonce (append_body f)) ≡ wire_size f
  unfolding append_body probe_on_wire_size
  length-sealed nonce h (control c) =
      omega (arith, length-seal nonce (append_body (control c)), length-control_body c)
  length-sealed nonce h (probe p) = elim (Bool-cases p.padded) [
    | inl e ↦
        length-seal nonce (append_body (probe p))
        ∙ omega (arith, length-probe_body p, if_true p.padded (2 + p.pad_len) (length p.payload) e)
        ∙ sym (if_true p.padded _ _ e)
    | inr e ↦
        length-seal nonce (append_body (probe p))
        ∙ omega (arith, length-probe_body p, if_false p.padded (2 + p.pad_len) (length p.payload) e)
        ∙ sym (if_false p.padded _ _ e)
  ]

  ok-injective : {A : Type 0} (x y : A) → ok x ≡ ok y → x ≡ y
  ok-injective x y e = cc e

  -- A datagram that `Encode` makes has the size that the constants promise: `ControlOverhead` and the
  -- payload for a control frame, `ProbeOnWireSize` of its pad for a padded probe.
  pub length-encode :
      (nonce : List ℕ) (f : Frame) (raw : List ℕ)
      → length nonce ≡ nonce_len
      → encode k nonce f ≡ ok raw
      → length raw ≡ wire_size f
  unfolding encode
  length-encode nonce (control c) raw h e =
      ap length (sym (ok-injective _ _ e)) ∙ length-sealed nonce h (control c)
  length-encode nonce (probe p) raw h e =
      ap length (sym (sealed (validate p) e)) ∙ length-sealed nonce h (probe p)
    where
      sealed :
          (r : Result (Unit {0}))
          → (elim r as (λ _. Result (List ℕ)) [
            | err x ↦ err x
            | ok _ ↦ ok (seal k nonce (append_body (probe p)))
          ])
            ≡ ok raw
          → seal k nonce (append_body (probe p)) ≡ raw
      sealed (err x) e = cc e
      sealed (ok _) e = ok-injective _ _ e

-- What `PadLenForOnWire` answers.
abbrev pub Sized : ℕ → Result ℕ → Type 0
Sized n (ok pad_len) = (probe_on_wire_size pad_len ≡ n) × (pad_len < 65536)
Sized n (err _) = (n < probe_base_on_wire) ⊎ (max_padded_probe_on_wire < n)

-- The pad for a size gives exactly that size and fits its field, and only sizes below that of an
-- empty padded probe or above the maximum are refused.
pub pad_len_for_on_wire_lem : (n : ℕ) → Sized n (pad_len_for_on_wire n)
unfolding pad_len_for_on_wire probe_on_wire_size
pad_len_for_on_wire_lem n = elim (dec_lt n probe_base_on_wire) [
  | yes low ↦
      subst (Sized n)
        (sym (if_true (ltb n probe_base_on_wire) _ _ (lt→ltb n probe_base_on_wire low))) (inl low)
  | no fits ↦
      subst (Sized n)
        (sym (
          if_false (ltb n probe_base_on_wire) _ _
            (le→ltb_false n probe_base_on_wire (omega arith))))
        (elim (dec_lt max_padded_probe_on_wire n) [
          | yes high ↦
              subst (Sized n)
                (sym (
                  if_true (ltb max_padded_probe_on_wire n) _ _
                    (lt→ltb max_padded_probe_on_wire n high)))
                (inr high)
          | no small ↦
              subst (Sized n)
                (sym (
                  if_false (ltb max_padded_probe_on_wire n) _ _
                    (le→ltb_false max_padded_probe_on_wire n (omega arith))))
                (omega arith, omega arith)
        ])
]
