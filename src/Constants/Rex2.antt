-- ===== src/Constants/Rex2.antt =====
-- crates/mega-evm/src/constants.rs, `rex2`.
use mega_evm.Prelude.{ℕ}

abbrev pub keyless_deploy_overhead_gas : ℕ
keyless_deploy_overhead_gas = 100_000
