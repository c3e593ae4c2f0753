-- ===== src/Safe.antt =====
-- The server's invariant (Server/Inv.antt) through the commands and the steps of the poll loop.
pub mod Session
pub mod Rooms
pub mod PartAll
pub mod Join
pub mod ModeCommand
pub mod Lines
pub mod Step
pub mod Receive
pub mod Loop
pub mod Serve
pub mod Cleanup
pub mod Closed
pub mod Names
pub mod Sources
pub mod Turns
pub mod Overdue
pub mod Idle
pub mod Quiet
pub mod Renaming
pub mod Trust
pub mod Broadcasts
pub mod ModeLines
pub mod Reach
pub mod End
pub mod Populated
