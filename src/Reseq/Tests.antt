-- ===== src/Reseq/Tests.antt =====
-- Runs of the resequencer, and its theorems at concrete states.
use fecalia.Base.{ℕ, ◌-◌, ◌≤◌, ◌≡◌, refl, true, some, List, [], ◌∷◌, arith, get_or}
use fecalia.Reseq.Buffer.{
  advance_loop, advance_to, discard, drain, drain_loop, place, present, release_head,
  smallest_buffered, take_ready, zero_slot,
}
use fecalia.Reseq.Buffer.Window.{occupied_at}
use fecalia.Reseq.Buffer.Reference.{advance_to-eq-loop}
use fecalia.Reseq.Buffer.Smallest.{smallest_buffered_lem}
use fecalia.Reseq.Hold.{
  Unelapsed, armed_deadline, compact, end_hold, oldest_buffered_observation, oldest_from,
  start_hold,
}
use fecalia.Reseq.Guard.{Guard, collect}
use fecalia.Reseq.Guard.Corroborate.{IsRun, Collected, collect_lem}
use fecalia.Reseq.Machine.{Resequencer, new, expire, expire_loop, observe, pop, rebaseline_at}
use fecalia.Reseq.Machine.Invariant.{IsValid}
use fecalia.Reseq.Machine.Expire.{Passed, expire_lem}
use fecalia.Reseq.Machine.Outcome.{Outcome, observe_lem}
use fecalia.Reseq.Machine.Methods.{Popped, new-IsValid, pop_lem, rebaseline_at-IsValid}
use fecalia.Reseq.Machine.Trace.{Call, receive, ask, run, InOrder, Steady, run_lem}

-- What the runs below compute with.
computing : Unit {0}
unfolding run observe pop new take_ready expire_loop drain drain_loop place release_head end_hold
    oldest_buffered_observation oldest_from start_hold compact smallest_buffered
computing = tt

-- The peer sends its sequence as the payload.
abbrev Stream : ℕ → List ℕ → Type 0
Stream seq payload = payload ≡ seq ∷ []

abbrev fresh : Resequencer
fresh = new 4 1000

fresh-IsValid : IsValid Stream fresh
fresh-IsValid = new-IsValid Stream 4 1000 (omega arith) (omega arith)

-- 10, then 12 ahead of its turn, then 11; 15 waits for a gap that is given up.
abbrev calls : List Call
calls =
    receive 10 (10 ∷ []) 7 0
    ∷ receive 12 (12 ∷ []) 7 10
    ∷ ask 11
    ∷ receive 11 (11 ∷ []) 7 20
    ∷ ask 30
    ∷ receive 15 (15 ∷ []) 7 40
    ∷ ask 2000
    ∷ ask 2000
    ∷ []

run_returns : (run fresh calls).1 ≡ (10 ∷ []) ∷ (11 ∷ []) ∷ (12 ∷ []) ∷ (15 ∷ []) ∷ []
unfolding computing
run_returns = refl

-- 10, then 12 ahead of its turn, then an item.
abbrev few : List Call
few = receive 10 (10 ∷ []) 7 0 ∷ receive 12 (12 ∷ []) 7 10 ∷ ask 11 ∷ []

few-Steady : Steady Stream fresh few
unfolding computing
few-Steady = ((refl, omega arith), refl, ((refl, omega arith), refl, (tt, refl, tt)))

run_lem_example :
    IsValid Stream (run fresh few).0 × InOrder Stream fresh (run fresh few).0 (run fresh few).1
run_lem_example = run_lem Stream fresh few fresh-IsValid few-Steady

-- 10 was released, 12 is buffered, and 11 is missing.
abbrev two : List Call
two = receive 10 (10 ∷ []) 7 0 ∷ receive 12 (12 ∷ []) 7 10 ∷ []

two-Steady : Steady Stream fresh two
unfolding computing
two-Steady = ((refl, omega arith), refl, ((refl, omega arith), refl, tt))

abbrev gapped : Resequencer
gapped = (run fresh two).0

gapped-IsValid : IsValid Stream gapped
gapped-IsValid = (run_lem Stream fresh two fresh-IsValid two-Steady).0

observe_lem_example :
    IsValid Stream (observe gapped 11 (11 ∷ []) 7 20).0
    × Outcome Stream gapped 11 (observe gapped 11 (11 ∷ []) 7 20).0
unfolding computing
observe_lem_example = observe_lem 11 (11 ∷ []) 7 20 gapped-IsValid refl (omega arith)

pop_lem_example :
    Popped Stream gapped (pop gapped 2000)
    × Unelapsed 2000 (armed_deadline (pop gapped 2000).0.hold)
pop_lem_example = pop_lem 2000 gapped-IsValid

expire_lem_example :
    Passed Stream gapped (expire gapped 2000)
    × IsValid Stream (expire gapped 2000)
    × Unelapsed 2000 (armed_deadline (expire gapped 2000).hold)
expire_lem_example = expire_lem 2000 gapped-IsValid

rebaseline_at-IsValid_example :
    IsValid Stream (rebaseline_at gapped 100 20)
    × ((rebaseline_at gapped 100 20).buffer ≡ discard gapped.buffer 100)
    × ((rebaseline_at gapped 100 20).started ≡ true)
unfolding computing
rebaseline_at-IsValid_example =
    rebaseline_at-IsValid gapped-IsValid 100 20 (omega arith) (omega arith)

advance_to-eq-loop_example :
    advance_to gapped.buffer 20 ≡ advance_loop (20 - gapped.buffer.next) gapped.buffer
unfolding computing
advance_to-eq-loop_example =
    advance_to-eq-loop Stream 20 gapped-IsValid.sound.buffer gapped-IsValid.sound.carries
      (omega arith) (omega arith)

smallest_buffered_lem_example :
    (m : ℕ) × (smallest_buffered gapped.buffer ≡ some m)
    × (present gapped.buffer m ≡ true)
    × ((i : ℕ)
        → occupied_at gapped.buffer.ring i ≡ true
        → m ≤ (get_or gapped.buffer.ring i zero_slot).seq)
unfolding computing
smallest_buffered_lem_example = smallest_buffered_lem gapped-IsValid.sound.buffer (omega arith)

-- Two sequences ahead of the window, and a third one near them.
abbrev suspects : Guard
suspects = record { resync_seqs = 100 ∷ 103 ∷ []; resync_lo = 100; resync_hi = 103 }

suspects-IsRun : IsRun 4 suspects
suspects-IsRun = ground arith

collect_lem_example : Collected 4 102 suspects.resync_seqs (collect suspects 4 102)
collect_lem_example = collect_lem 4 102 suspects (omega arith) suspects-IsRun
