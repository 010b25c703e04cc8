-- ===== src/Irc2User.antt =====
-- The protocol of a registered user: home/kineircd/src/mod_irc2user.
pub mod Spaced
pub mod Messaging
pub mod Commands
pub mod Support
pub mod Presence
pub mod Names
pub mod Who
pub mod UserHost
pub mod Handlers
pub mod Languages
pub mod Services
pub mod Help
pub mod Dispatch
pub mod Events
pub mod Scheme
pub mod Welcome
pub mod ServiceList
