-- ===== src/Commands.antt =====
-- cmd: what the processes do when they start, and how their parts run together.
pub mod Transport
pub mod Manager
pub mod Leading
pub mod Standby
pub mod ControlPlane
