-- ===== src/Irc2.antt =====
-- The IRC-2 protocol library: home/kineircd/src/lib_irc2 and
-- home/kineircd/include/kineircd/libirc2.
pub mod Tokens
pub mod Input
pub mod Output
pub mod Replies
