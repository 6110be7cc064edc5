-- ===== src/Constants/Rex3.antt =====
-- crates/mega-evm/src/constants.rs, `rex3`.
use mega_evm.Prelude.{ℕ}

abbrev pub oracle_access_compute_gas : ℕ
oracle_access_compute_gas = 20_000_000
