-- ===== src/Constants/Rex.antt =====
-- crates/mega-evm/src/constants.rs, `rex`.
use mega_evm.Prelude.{ℕ, ◌+◌, ◌*◌}

abbrev pub tx_intrinsic_storage_gas : ℕ
tx_intrinsic_storage_gas = 39_000

abbrev pub sstore_set_storage_gas_base : ℕ
sstore_set_storage_gas_base = 20_000

abbrev pub new_account_storage_gas_base : ℕ
new_account_storage_gas_base = 25_000

abbrev pub contract_creation_storage_gas_base : ℕ
contract_creation_storage_gas_base = 32_000

abbrev pub tx_compute_gas_limit : ℕ
tx_compute_gas_limit = 200_000_000

abbrev pub tx_data_limit : ℕ
tx_data_limit = 12 * 1024 * 1024 + 512 * 1024

abbrev pub tx_kv_update_limit : ℕ
tx_kv_update_limit = 500_000

abbrev pub tx_state_growth_limit : ℕ
tx_state_growth_limit = 1000

abbrev pub block_state_growth_limit : ℕ
block_state_growth_limit = 1000
