-- ===== src/Frame/Envelope.antt =====
-- The sealed datagram: `Codec.Decode` after `Codec.Encode`, and what an accepted datagram shows.
use fecalia.Base.{
  ltb_false→le, ℕ, ◌+◌, ◌-◌, ◌≤◌, ◌≡◌, ◌≢◌, inl, inr, refl, sym, ap, ◌∙◌, true, false, Option, some,
  none, List, [], ◌∷◌, ◌++◌, arith, ltb, Bool-cases, ==_iff, length, length-take, take-append-drop,
  take, drop, length-append, take-append, drop-append, ◌==◌, if_true, if_false, le→ltb_false,
}
use fecalia.Frame.{
  Kind, probe_kind, control_kind, kind_byte, valid_kind, Probe, Control, Frame, probe, control,
  Crypto, nonce_len, probe_body, control_body, append_body, decode_body, Result, Error, ok, err,
  malformed, equal_bytes, seal, encode, open_body, check_tag, first_kind, decode, from_option,
}
use fecalia.Frame.Body.{IsProbe, IsControl, control_roundtrip, probe_roundtrip}

equal_bytes_refl : (xs : List ℕ) → equal_bytes xs xs ≡ true
unfolding equal_bytes
equal_bytes_refl [] = refl
equal_bytes_refl (x ∷ xs) = if_true (x == x) _ _ ((==_iff x x).1 refl) ∙ equal_bytes_refl xs

equal_bytes→eq : (xs ys : List ℕ) → equal_bytes xs ys ≡ true → xs ≡ ys
unfolding equal_bytes
equal_bytes→eq [] [] h = refl
equal_bytes→eq [] (y ∷ ys) h = cc h
equal_bytes→eq (x ∷ xs) [] h = cc h
equal_bytes→eq (x ∷ xs) (y ∷ ys) h = elim (Bool-cases (x == y)) [
  | inl e ↦ λ i.
      (==_iff x y).0 e i
      ∷ equal_bytes→eq xs ys (sym (if_true (x == y) (equal_bytes xs ys) false e) ∙ h) i
  | inr e ↦ cc (sym (if_false (x == y) (equal_bytes xs ys) false e) ∙ h)
]

err≢ok : {A : Type 0} {e : Error} {a : A} → err e ≢ ok a
err≢ok h = cc h

singleton : (xs : List ℕ) → length xs ≡ 1 → (x : ℕ) × (xs ≡ x ∷ [])
singleton [] h = absurd (omega arith)
singleton (x ∷ []) h = (x, refl)
singleton (x ∷ y ∷ ys) h = absurd (omega arith)

valid_kind-kind_byte : (kind : Kind) → valid_kind (kind_byte kind) ≡ some kind
unfolding valid_kind
valid_kind-kind_byte probe_kind = refl
valid_kind-kind_byte control_kind = refl

-- What `Encode` needs of a frame: fields that fit their types, and a probe that `validate` takes.
pub data IsFrame : Frame → Type 0 where
  is_probe : {p : Probe} → IsProbe p → IsFrame (probe p)
  is_control : {c : Control} → IsControl c → IsFrame (control c)

module _ (k : Crypto) where
  open k use {xor_key_stream, tag}

  check_tag_lem :
      (nonce obf : List ℕ) (kind : Kind)
      → 1 ≤ length obf
      → check_tag k nonce (obf ++ tag nonce obf) kind ≡ open_body k nonce kind obf
  unfolding check_tag
  check_tag_lem nonce obf kind h =
      let t = tag nonce obf in
      let total : length (obf ++ t) ≡ length obf + 16 =
        length-append obf t ∙ ap (λ (n : ℕ). length obf + n) (k.tag_length nonce obf) in
      let cut : length (obf ++ t) - 16 ≡ length obf = omega (arith, total) in
      if_false (ltb (length (obf ++ t)) 17) _ _
        (le→ltb_false (length (obf ++ t)) 17 (omega (arith, total)))
      ∙ rw (cut, take-append obf t, drop-append obf t, equal_bytes_refl t)

  -- The parts of a datagram: the nonce, and the rest.
  decode_parts :
      (nonce rest : List ℕ)
      → length nonce ≡ nonce_len
      → 1 ≤ length rest
      → decode k (nonce ++ rest) ≡ elim (first_kind k nonce rest) [
        | none ↦ err malformed
        | some kind ↦ check_tag k nonce rest kind
      ]
  unfolding decode
  decode_parts nonce rest h h₁ =
      let before : take 24 (nonce ++ rest) ≡ nonce =
        ap (λ (n : ℕ). take n (nonce ++ rest)) (sym h) ∙ take-append nonce rest in
      let behind : drop 24 (nonce ++ rest) ≡ rest =
        ap (λ (n : ℕ). drop n (nonce ++ rest)) (sym h) ∙ drop-append nonce rest in
      if_false (ltb (length (nonce ++ rest)) 25) _ _
        (le→ltb_false (length (nonce ++ rest)) 25 (omega (arith, length-append nonce rest)))
      ∙ ap
          (λ (d : List ℕ × List ℕ). elim (first_kind k d.0 d.1) as (λ _. Result Frame) [
            | none ↦ err malformed
            | some kind ↦ check_tag k d.0 d.1 kind
          ])
          (λ i. (before i, behind i))

  -- The obfuscated body is one byte and a rest that continues the key stream.
  record Split (nonce : List ℕ) (b : ℕ) (rest : List ℕ) : Type 0 where
    first : ℕ
    whole : xor_key_stream nonce 0 (b ∷ rest) ≡ first ∷ xor_key_stream nonce 1 rest
    back : xor_key_stream nonce 0 (first ∷ []) ≡ b ∷ []

  split_lem : (nonce : List ℕ) (b : ℕ) (rest : List ℕ) → Split nonce b rest
  split_lem nonce b rest =
      let (o, e) = singleton (xor_key_stream nonce 0 (b ∷ [])) (k.xor_length nonce 0 (b ∷ [])) in
      record {
        first = o;
        whole =
            k.xor_cons nonce 0 b rest ∙ ap (λ (xs : List ℕ). xs ++ xor_key_stream nonce 1 rest) e;
        back = ap (xor_key_stream nonce 0) (sym e) ∙ k.xor_twice nonce 0 (b ∷ []);
      }

  decode-seal :
      (nonce : List ℕ)
      → length nonce ≡ nonce_len
      → (kind : Kind) (rest : List ℕ)
      → decode k (seal k nonce (kind_byte kind ∷ rest)) ≡ from_option (decode_body kind rest)
  unfolding seal first_kind open_body
  decode-seal nonce h kind rest =
      let s = split_lem nonce (kind_byte kind) rest in
      let obf = s.first ∷ xor_key_stream nonce 1 rest in
      ap (λ (xs : List ℕ). decode k (nonce ++ (xs ++ tag nonce xs))) s.whole
      ∙ decode_parts nonce (obf ++ tag nonce obf) h (omega arith)
      ∙ rw (
        s.back,
        valid_kind-kind_byte kind,
        check_tag_lem nonce obf kind (omega arith),
        k.xor_twice nonce 1 rest,
      )

  -- The datagram that `Encode` makes of a frame.
  pub record Encoded (nonce : List ℕ) (f : Frame) : Type 0 where
    raw : List ℕ
    encoded : encode k nonce f ≡ ok raw
    decoded : decode k raw ≡ ok f

  -- Each frame that `Encode` is meant for is encoded, under any nonce of the cipher's length, and the
  -- datagram decodes to the frame.
  pub decode-encode :
      (nonce : List ℕ) → length nonce ≡ nonce_len → (f : Frame) → IsFrame f → Encoded nonce f
  unfolding encode append_body
  decode-encode nonce h (probe p) (is_probe v) = record {
    raw = seal k nonce (append_body (probe p));
    encoded = rw (encode, v.valid);
    decoded = decode-seal nonce h probe_kind (probe_body p) ∙ ap from_option (probe_roundtrip p v);
  }
  decode-encode nonce h (control c) (is_control v) = record {
    raw = seal k nonce (append_body (control c));
    encoded = refl;
    decoded =
        decode-seal nonce h control_kind (control_body c) ∙ ap from_option (control_roundtrip c v);
  }

  -- An accepted datagram: a nonce, an obfuscated body of at least a byte, and the tag of the two.
  pub record Authentic (raw : List ℕ) : Type 0 where
    nonce : List ℕ
    obf : List ℕ
    nonce_length : length nonce ≡ nonce_len
    obf_length : 1 ≤ length obf
    parts : raw ≡ nonce ++ (obf ++ tag nonce obf)

  check_tag-ok :
      (nonce rest : List ℕ) (kind : Kind) (f : Frame)
      → check_tag k nonce rest kind ≡ ok f
      → (obf : List ℕ) × (1 ≤ length obf) × (rest ≡ obf ++ tag nonce obf)
  unfolding check_tag
  check_tag-ok nonce rest kind f h =
      let n = length rest - 16 in
      elim (Bool-cases (ltb (length rest) 17)) [
        | inl e ↦ absurd (err≢ok (sym (if_true (ltb (length rest) 17) _ _ e) ∙ h))
        | inr e ↦ elim (Bool-cases (equal_bytes (drop n rest) (tag nonce (take n rest)))) [
          | inl e₁ ↦ (
            take n rest,
            omega (arith, length-take n rest, ltb_false→le (length rest) 17 e),
            sym (take-append-drop n rest)
                ∙ ap (λ (xs : List ℕ). take n rest ++ xs)
                    (equal_bytes→eq (drop n rest) (tag nonce (take n rest)) e₁),
          )
          | inr e₁ ↦ absurd (
              err≢ok (
                sym (if_false (equal_bytes (drop n rest) (tag nonce (take n rest))) _ _ e₁)
                ∙ sym (if_false (ltb (length rest) 17) _ _ e)
                ∙ h))
        ]
      ]

  kind_found :
      (nonce rest : List ℕ) (f : Frame) (o : Option Kind)
      → (elim o [ none ↦ err malformed | some kind ↦ check_tag k nonce rest kind ]) ≡ ok f
      → (kind : Kind) × (check_tag k nonce rest kind ≡ ok f)
  kind_found nonce rest f none h = absurd (err≢ok h)
  kind_found nonce rest f (some kind) h = (kind, h)

  -- `Decode` accepts only a datagram whose tag is the one that the key gives to its nonce and body.
  pub decode-Authentic : (raw : List ℕ) (f : Frame) → decode k raw ≡ ok f → Authentic raw
  unfolding decode
  decode-Authentic raw f h = elim (Bool-cases (ltb (length raw) 25)) [
    | inl e ↦ absurd (err≢ok (sym (if_true (ltb (length raw) 25) _ _ e) ∙ h))
    | inr e ↦
        let (kind, h₁) =
          kind_found (take 24 raw) (drop 24 raw) f _
            (sym (if_false (ltb (length raw) 25) _ _ e) ∙ h) in
        let (obf, at_least, parts) = check_tag-ok (take 24 raw) (drop 24 raw) kind f h₁ in
        record {
          nonce = take 24 raw;
          obf = obf;
          nonce_length = omega (arith, length-take 24 raw, ltb_false→le (length raw) 25 e);
          obf_length = at_least;
          parts = sym (take-append-drop 24 raw) ∙ ap (λ (xs : List ℕ). take 24 raw ++ xs) parts;
        }
  ]
