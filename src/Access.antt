-- ===== src/Access.antt =====
-- crates/mega-evm/src/access: which volatile data a transaction has read.
pub mod Volatile
pub mod Tracker
