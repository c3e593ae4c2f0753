-- ===== src/Tests.antt =====
-- Runs of the theorems at concrete inputs.
pub mod Texts
pub mod Rooms
pub mod Servers
pub mod Rounds
pub mod Starting
pub mod Reached
