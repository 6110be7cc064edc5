-- ===== src/System.antt =====
-- crates/mega-evm/src/system: the contracts that the EVM itself answers for.
pub mod Intercept
