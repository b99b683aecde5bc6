-- ===== src/Reseq/Guard.antt =====
-- The discontinuity guard of internal/reseq/reseq.go: the run of suspect sequences.
use fecalia.Base.{
  ℕ, ◌-◌, Bool, true, false, ◌||◌, not, List, [], ◌∷◌, ◌++◌, ltb, leb, ◌==◌, if◌then◌else◌, length,
}
pub mod Corroborate

abbrev pub resync_factor : ℕ
resync_factor = 4

abbrev pub resync_corroborate : ℕ
resync_corroborate = 3

pub record Guard : Type 0 where
  pub resync_seqs : List ℕ
  pub resync_lo : ℕ
  pub resync_hi : ℕ

-- `resyncReset`.
abbrev pub idle_guard : Guard
idle_guard = record { resync_seqs = []; resync_lo = 0; resync_hi = 0 }

unfoldable pub run_contains : List ℕ → ℕ → Bool
run_contains [] seq = false
run_contains (s ∷ l) seq = s == seq || run_contains l seq

abbrev pub lower : Guard → ℕ → ℕ
lower g seq = if ltb seq g.resync_lo then seq else g.resync_lo

abbrev pub upper : Guard → ℕ → ℕ
upper g seq = if ltb g.resync_hi seq then seq else g.resync_hi

-- `hi-lo >= r.window`; here `lo ≤ seq ≤ hi`, so that the difference is exact.
unfoldable pub span_exceeds : Guard → ℕ → ℕ → Bool
span_exceeds g window seq = leb window (upper g seq - lower g seq)

-- `tryResync` without its call of `resync`: the run with the suspect sequence, and whether it
-- corroborates a discontinuity.
unfoldable pub collect : Guard → ℕ → ℕ → Guard × Bool
unfolding span_exceeds run_contains
collect g window seq =
    if length g.resync_seqs == 0 || span_exceeds g window seq
    then (record { resync_seqs = seq ∷ []; resync_lo = seq; resync_hi = seq }, false)
    else (if run_contains g.resync_seqs seq
        then (g, false)
        else (let seqs = g.resync_seqs ++ (seq ∷ []) in
            (
              record { resync_seqs = seqs; resync_lo = lower g seq; resync_hi = upper g seq },
              not (ltb (length seqs) resync_corroborate),
            )))
