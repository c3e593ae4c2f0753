-- ===== src/Handlers.antt =====
-- The handlers of channel/Channel.cpp. `ch` is the channel's own address, `this`.
pub mod Member
pub mod Talk
pub mod Modes
pub mod Access
pub mod Topic
pub mod Privmsg
pub mod Refusals
