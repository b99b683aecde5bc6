-- ===== src/Device.antt =====
-- internal/device: the selection of the exit, and the runtime MTU of the tunnel link.
pub mod Exit
pub mod Failover
pub mod Resolution
pub mod Resize
