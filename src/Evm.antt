-- ===== src/Evm.antt =====
-- crates/mega-evm/src/evm: the context of a transaction and the steps of its handler that are
-- this program's own.
pub mod SystemTx
pub mod Context
pub mod Handler
pub mod Frames
pub mod Execution
pub mod Instructions
pub mod Inspect
pub mod HaltReason
pub mod State
