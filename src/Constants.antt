-- ===== src/Constants.antt =====
-- crates/mega-evm/src/constants.rs: one child for each of its modules.
pub mod MiniRex
pub mod Rex
pub mod Rex2
pub mod Rex3
