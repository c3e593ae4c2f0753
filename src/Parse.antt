-- ===== src/Parse.antt =====
-- parse/: from a line to a message, and from a message to its command.
pub mod Message
pub mod RoundTrip
pub mod Bounds
pub mod Clean
