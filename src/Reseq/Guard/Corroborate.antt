-- ===== src/Reseq/Guard/Corroborate.antt =====
-- What it takes to corroborate a discontinuity: three distinct suspect sequences of one window. Junk
-- does not, a restarted peer does.
use fecalia.Base.{ℕ, ◌+◌, ◌-◌, ◌≤◌, ◌<◌, ◌≡◌, ◌≢◌, refl, Bool, true, false, List, [], ◌∷◌, arith}
use fecalia.Reseq.Guard.{Guard, collect}

-- The run holds at most two distinct sequences, within its span of less than a window.
abbrev pub Run : ℕ → List ℕ → ℕ → ℕ → Type 0
Run window [] lo hi = Unit
Run window (a ∷ []) lo hi = (lo ≡ a) × (hi ≡ a)
Run window (a ∷ b ∷ []) lo hi =
    (a ≢ b) × (lo ≤ a) × (a ≤ hi) × (lo ≤ b) × (b ≤ hi) × (hi - lo < window)
Run window (a ∷ b ∷ c ∷ l) lo hi = ⊥

abbrev pub IsRun : ℕ → Guard → Type 0
IsRun window g = Run window g.resync_seqs g.resync_lo g.resync_hi

-- Less than a window apart.
abbrev pub Near : ℕ → ℕ → ℕ → Type 0
Near window a b = (a < b + window) × (b < a + window)

-- What corroborates with `seq`: two other sequences of the run, all three distinct and near.
abbrev pub Corroborated : ℕ → ℕ → List ℕ → Type 0
Corroborated window seq [] = ⊥
Corroborated window seq (a ∷ []) = ⊥
Corroborated window seq (a ∷ b ∷ []) =
    (a ≢ b) × (a ≢ seq) × (b ≢ seq) × Near window a b × Near window a seq × Near window b seq
Corroborated window seq (a ∷ b ∷ c ∷ l) = ⊥

-- What a step of the guard may make of a run.
abbrev pub Collected : ℕ → ℕ → List ℕ → Guard × Bool → Type 0
Collected window seq seqs (g, true) = Corroborated window seq seqs
Collected window seq seqs (g, false) = IsRun window g

collect-Run :
    (window seq : ℕ) (seqs : List ℕ) (lo hi : ℕ)
    → 0 < window
    → Run window seqs lo hi
    → Collected window seq seqs
        (collect (record { resync_seqs = seqs; resync_lo = lo; resync_hi = hi }) window seq)
unfolding collect
collect-Run window seq [] lo hi pos h = (refl, refl)
collect-Run window seq (a ∷ []) lo hi pos h = ground arith
collect-Run window seq (a ∷ b ∷ []) lo hi pos h = ground arith
collect-Run window seq (a ∷ b ∷ c ∷ l) lo hi pos h = absurd h

-- A suspect sequence corroborates a discontinuity only with two others, all three distinct and within
-- a window of one another; otherwise the guard goes on with a run of at most two.
pub collect_lem :
    (window seq : ℕ) (g : Guard)
    → 0 < window
    → IsRun window g
    → Collected window seq g.resync_seqs (collect g window seq)
collect_lem window seq g pos h = collect-Run window seq g.resync_seqs g.resync_lo g.resync_hi pos h
