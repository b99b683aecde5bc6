-- ===== src/Bond/Transport/Words.antt =====
-- The words of the payload of a data frame, as the receiver reads them.
use fecalia.Base.{
  ℕ, zero, suc, ◌+◌, ◌^◌, ◌<◌, ◌≡◌, ap, ◌∙◌, Option, none, some, List, [], ◌∷◌, ◌++◌, arith, length,
  length-be, drop, be, read_be,
}
use fecalia.Frame.Body.{read_u64}
use fecalia.Bond.{PacketHeader, header_bytes, append_header}
use fecalia.Bond.Ack.Roundtrip.{length-append_header}
use fecalia.Bond.Transport.Receive.{word, seq_of, order_of}

drop-past : (xs ys : List ℕ) (m k : ℕ) → m ≡ length xs + k → drop m (xs ++ ys) ≡ drop k ys
drop-past [] ys m k e = ap (λ n. drop n ys) (e ∙ omega arith)
drop-past (x ∷ xs) ys zero k e = absurd (omega (arith, e))
drop-past (x ∷ xs) ys (suc m) k e = drop-past xs ys m k (omega (arith, e))

abbrev word_or : Option (ℕ × List ℕ) → ℕ
word_or o = elim o [ none ↦ 0 | some (v, _) ↦ v ]

-- The words behind the header of a data frame, and what follows them.
module _ (h : PacketHeader) (a b c d : ℕ) (payload : List ℕ) where
  abbrev whole : List ℕ
  whole = append_header h ++ (be 8 a ++ (be 8 b ++ (be 8 c ++ (be 8 d ++ payload))))

  behind :
      (k : ℕ)
      → drop (header_bytes + k) whole
        ≡ drop k (be 8 a ++ (be 8 b ++ (be 8 c ++ (be 8 d ++ payload))))
  behind k =
      drop-past (append_header h) _ (header_bytes + k) k (omega (arith, length-append_header h))

  pub first_word : a < 2 ^ 64 → word whole header_bytes ≡ a
  first_word lt =
      ap (λ (l : List ℕ). word_or (read_be 8 0 l)) (behind 0) ∙ ap word_or (read_u64 a lt _)

  second_tail : drop (header_bytes + 8) whole ≡ be 8 b ++ (be 8 c ++ (be 8 d ++ payload))
  second_tail = behind 8 ∙ drop-past (be 8 a) _ 8 0 (omega (arith, length-be 8 a))

  pub second_word : b < 2 ^ 64 → word whole (header_bytes + 8) ≡ b
  second_word lt =
      ap (λ (l : List ℕ). word_or (read_be 8 0 l)) second_tail ∙ ap word_or (read_u64 b lt _)

  third_tail : drop (header_bytes + 16) whole ≡ be 8 c ++ (be 8 d ++ payload)
  third_tail =
      behind 16
      ∙ drop-past (be 8 a) _ 16 8 (omega (arith, length-be 8 a))
      ∙ drop-past (be 8 b) _ 8 0 (omega (arith, length-be 8 b))

  pub third_word : c < 2 ^ 64 → seq_of whole ≡ c
  third_word lt =
      ap (λ (l : List ℕ). word_or (read_be 8 0 l)) third_tail ∙ ap word_or (read_u64 c lt _)

  fourth_tail : drop (header_bytes + 24) whole ≡ be 8 d ++ payload
  fourth_tail =
      behind 24
      ∙ drop-past (be 8 a) _ 24 16 (omega (arith, length-be 8 a))
      ∙ drop-past (be 8 b) _ 16 8 (omega (arith, length-be 8 b))
      ∙ drop-past (be 8 c) _ 8 0 (omega (arith, length-be 8 c))

  pub fourth_word : d < 2 ^ 64 → order_of whole ≡ d
  fourth_word lt =
      ap (λ (l : List ℕ). word_or (read_be 8 0 l)) fourth_tail ∙ ap word_or (read_u64 d lt _)

  pub last_tail : drop (header_bytes + 32) whole ≡ payload
  last_tail =
      behind 32
      ∙ drop-past (be 8 a) _ 32 24 (omega (arith, length-be 8 a))
      ∙ drop-past (be 8 b) _ 24 16 (omega (arith, length-be 8 b))
      ∙ drop-past (be 8 c) _ 16 8 (omega (arith, length-be 8 c))
      ∙ drop-past (be 8 d) _ 8 0 (omega (arith, length-be 8 d))
