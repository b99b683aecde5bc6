-- ===== src/Reseq.antt =====
-- internal/reseq/reseq.go, the receive resequencer. `Buffer` is the ring of buffered frames with the
-- release loops, `Hold` the head-of-line timeout, `Guard` the discontinuity guard, and `Machine` the
-- resequencer with its exported methods; their children hold the proofs.
pub mod Buffer
pub mod Hold
pub mod Guard
pub mod Machine
pub mod Tests
