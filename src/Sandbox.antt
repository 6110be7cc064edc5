-- ===== src/Sandbox.antt =====
-- crates/mega-evm/src/sandbox: the deployment of contracts by transactions without a key.
pub mod Error
pub mod State
pub mod Execution
