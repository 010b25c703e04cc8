-- ===== src/Registrar.antt =====
-- The registrar, home/kineircd/src/mod_irc2registrar: it collects what a new connection says of
-- itself, and hands the connection over to the protocol that fits.
pub mod State
pub mod Commands
pub mod Message
pub mod Session
pub mod Switch
pub mod History
pub mod Probe
pub mod Replies
