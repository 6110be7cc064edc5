-- ===== src/Block/Limits.antt =====
-- crates/mega-evm/src/block/limit.rs: `BlockLimits`, the configured limits.
pub mod Runtime
use mega_evm.Prelude.{ℕ, u64_max}
use mega_evm.Limit.RuntimeLimits.{EvmTxRuntimeLimits, from_spec}
use mega_evm.Constants.MiniRex
use mega_evm.Constants.Rex
use mega_evm.Block.Hardfork.{MegaHardfork, spec_id}

pub record BlockLimits : Type 0 where
  pub tx_gas_limit : ℕ
  pub block_gas_limit : ℕ
  pub tx_encode_size_limit : ℕ
  pub block_txs_encode_size_limit : ℕ
  pub tx_da_size_limit : ℕ
  pub block_da_size_limit : ℕ
  pub tx_data_limit : ℕ
  pub block_txs_data_limit : ℕ
  pub tx_kv_update_limit : ℕ
  pub block_kv_update_limit : ℕ
  pub tx_compute_gas_limit : ℕ
  pub block_compute_gas_limit : ℕ
  pub tx_state_growth_limit : ℕ
  pub block_state_growth_limit : ℕ
  pub block_env_access_compute_gas_limit : ℕ
  pub oracle_access_compute_gas_limit : ℕ

unfoldable pub no_limits : BlockLimits
no_limits = record {
  tx_gas_limit = u64_max;
  block_gas_limit = u64_max;
  tx_encode_size_limit = u64_max;
  block_txs_encode_size_limit = u64_max;
  tx_da_size_limit = u64_max;
  block_da_size_limit = u64_max;
  tx_data_limit = u64_max;
  block_txs_data_limit = u64_max;
  tx_kv_update_limit = u64_max;
  block_kv_update_limit = u64_max;
  tx_compute_gas_limit = u64_max;
  block_compute_gas_limit = u64_max;
  tx_state_growth_limit = u64_max;
  block_state_growth_limit = u64_max;
  block_env_access_compute_gas_limit = u64_max;
  oracle_access_compute_gas_limit = u64_max;
}

unfoldable pub with_tx_runtime_limits : EvmTxRuntimeLimits → BlockLimits → BlockLimits
with_tx_runtime_limits limits b = record b {
  tx_data_limit = limits.tx_data_size_limit;
  tx_kv_update_limit = limits.tx_kv_updates_limit;
  tx_compute_gas_limit = limits.tx_compute_gas_limit;
  tx_state_growth_limit = limits.tx_state_growth_limit;
  block_env_access_compute_gas_limit = limits.block_env_access_compute_gas_limit;
  oracle_access_compute_gas_limit = limits.oracle_access_compute_gas_limit;
}

unfoldable pub with_block_gas_limit : ℕ → BlockLimits → BlockLimits
with_block_gas_limit limit b = record b { block_gas_limit = limit }

unfoldable pub to_evm_tx_runtime_limits : BlockLimits → EvmTxRuntimeLimits
to_evm_tx_runtime_limits b = record {
  tx_data_size_limit = b.tx_data_limit;
  tx_kv_updates_limit = b.tx_kv_update_limit;
  tx_compute_gas_limit = b.tx_compute_gas_limit;
  tx_state_growth_limit = b.tx_state_growth_limit;
  block_env_access_compute_gas_limit = b.block_env_access_compute_gas_limit;
  oracle_access_compute_gas_limit = b.oracle_access_compute_gas_limit;
}

-- The limits of a block that a hardfork sets over those of its transactions.
with_block_limits : MegaHardfork → BlockLimits → BlockLimits
with_block_limits MegaHardfork.mini_rex1 limits = limits
with_block_limits MegaHardfork.mini_rex limits = record limits {
  block_txs_data_limit = MiniRex.block_data_limit;
  block_kv_update_limit = MiniRex.block_kv_update_limit;
}
with_block_limits MegaHardfork.mini_rex2 limits = record limits {
  block_txs_data_limit = MiniRex.block_data_limit;
  block_kv_update_limit = MiniRex.block_kv_update_limit;
}
with_block_limits _ limits = record limits {
  block_txs_data_limit = MiniRex.block_data_limit;
  block_kv_update_limit = MiniRex.block_kv_update_limit;
  block_state_growth_limit = Rex.block_state_growth_limit;
}

unfoldable pub from_hardfork_and_block_gas_limit : MegaHardfork → ℕ → BlockLimits
unfolding no_limits with_tx_runtime_limits with_block_gas_limit with_block_limits
from_hardfork_and_block_gas_limit hardfork block_gas_limit = with_block_limits hardfork (
    with_block_gas_limit block_gas_limit
      (with_tx_runtime_limits (from_spec (spec_id hardfork)) no_limits))
