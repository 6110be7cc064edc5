-- ===== src/Block.antt =====
-- crates/mega-evm/src/block: hardforks, and the resources of a block.
pub mod Hardfork
pub mod Limits
pub mod Limiter
pub mod Executor
