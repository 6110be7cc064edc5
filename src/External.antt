-- ===== src/External.antt =====
-- crates/mega-evm/src/external: the prices that depend on the state's external environment.
pub mod Gas
