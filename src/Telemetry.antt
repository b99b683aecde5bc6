-- ===== src/Telemetry.antt =====
-- internal/telemetry: the replay filters of probes and control frames, and the liveness of a path.
pub mod Replay
pub mod Reflector
pub mod Liveness
pub mod Pmtu
pub mod Loss
pub mod Tests
