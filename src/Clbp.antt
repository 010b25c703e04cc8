-- ===== src/Clbp.antt =====
-- The command line based protocol: home/kineircd/src/lib_clbp and
-- home/kineircd/include/kineircd/libclbp.
pub mod Input
pub mod Output
