-- ===== src/Evm/Instructions.antt =====
-- crates/mega-evm/src/evm/instructions.rs: the opcodes' handlers, in layers round revm's own
-- instructions, and the table of handlers of each EVM version.
pub mod Machine
pub mod Compute
pub mod Storage
pub mod Limited
pub mod Forward
pub mod Volatile
pub mod Table
