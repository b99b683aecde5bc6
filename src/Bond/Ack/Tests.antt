-- ===== src/Bond/Ack/Tests.antt =====
-- An acknowledgement at concrete values.
use fecalia.Base.{◌≡◌, refl, true, false, some, [], ◌∷◌, arith}
use fecalia.Bond.{Epoch}
use fecalia.Bond.Ack.{Acknowledgement, received, ack_frame, parse_ack}
use fecalia.Bond.Ack.Roundtrip.{IsAck, parse_ack-ack_frame}

abbrev here : Epoch
here = record { boot = 77; generation = 2 }

abbrev sample : Acknowledgement
sample = record {
  observed = here;
  high = 9;
  mask = 5;
  bytes = 4000;
  elapsed = 1000;
  delay = 10;
  received_high = 70;
  received_mask = 5 ∷ 1 ∷ 0 ∷ 0 ∷ [];
}

sample-IsAck : IsAck sample
sample-IsAck = record {
  words = (
    omega arith,
    (
      omega arith,
      (
        omega arith,
        (
          omega arith,
          (
            omega arith,
            (
              omega arith,
              (
                omega arith,
                (omega arith, (omega arith, (omega arith, (omega arith, (omega arith, tt))))),
              ),
            ),
          ),
        ),
      ),
    ),
  );
  size = refl;
  elapsed = omega arith;
  delay = omega arith;
}

-- The receipts 70, 68 and 6 are reported, the others are not.
receipts :
    (received sample 70 ≡ true)
    × (received sample 68 ≡ true)
    × (received sample 6 ≡ true)
    × (received sample 69 ≡ false)
    × (received sample 71 ≡ false)
unfolding received
receipts = (refl, refl, refl, refl, refl)

parse_ack-ack_frame_example : parse_ack (ack_frame here 3 8 sample).payload ≡ some sample
parse_ack-ack_frame_example = parse_ack-ack_frame here 3 8 sample sample-IsAck
