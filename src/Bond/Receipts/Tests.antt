-- ===== src/Bond/Receipts/Tests.antt =====
-- A receipt window at concrete numbers.
use fecalia.Base.{ℕ, ◌+◌, ◌<◌, ◌≡◌, ◌↔◌, true, false, List, [], ◌∷◌, arith}
use fecalia.Bond.Receipts.{max_packets, mark, bitmap}
use fecalia.Bond.Receipts.Observed.{marked, highest, after, mark-new}
use fecalia.Bond.Receipts.Report.{bitmap_lem}

-- 5, 70 and 6 came.
abbrev came : List ℕ
came = 6 ∷ 70 ∷ 5 ∷ []

mark-new_example :
    (mark (after came) 7).1 ≡ true
    ↔ (marked 7 came ≡ false) × (highest (7 ∷ came) < 7 + max_packets)
mark-new_example = mark-new 7 came

bitmap_lem_example : bitmap (after came) 70 1 0 ≡ true
bitmap_lem_example =
    bitmap_lem came 70 64 (omega arith) (omega arith) (omega arith) (omega arith) (omega arith)
