-- ===== src/Limit.antt =====
-- crates/mega-evm/src/limit: the four resource limits of a transaction.
pub mod Check
pub mod Entry
pub mod Frame
pub mod Events
pub mod CallFrame
pub mod DataSize
pub mod KvUpdate
pub mod StateGrowth
pub mod ComputeGas
pub mod RuntimeLimits
pub mod Revm
pub mod Additional
