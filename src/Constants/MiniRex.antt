-- ===== src/Constants/MiniRex.antt =====
-- crates/mega-evm/src/constants.rs, `mini_rex`.
use mega_evm.Prelude.{ℕ, ◌+◌, ◌*◌, ◌/◌}

abbrev pub tx_compute_gas_limit : ℕ
tx_compute_gas_limit = 1_000_000_000

abbrev pub sstore_set_storage_gas : ℕ
sstore_set_storage_gas = 2_000_000

abbrev pub new_account_storage_gas : ℕ
new_account_storage_gas = 2_000_000

abbrev pub codedeposit_storage_gas : ℕ
codedeposit_storage_gas = 10_000

abbrev pub block_data_limit : ℕ
block_data_limit = 12 * 1024 * 1024 + 512 * 1024

abbrev pub tx_data_limit : ℕ
tx_data_limit = block_data_limit * 25 / 100

abbrev pub block_kv_update_limit : ℕ
block_kv_update_limit = 500_000

abbrev pub tx_kv_update_limit : ℕ
tx_kv_update_limit = block_kv_update_limit * 25 / 100

abbrev pub block_env_access_compute_gas : ℕ
block_env_access_compute_gas = 20_000_000

abbrev pub oracle_access_compute_gas : ℕ
oracle_access_compute_gas = 1_000_000
