-- ===== src/Limit/RuntimeLimits.antt =====
-- crates/mega-evm/src/evm/limit.rs: the limits of a transaction under each version of the EVM.
use mega_evm.Prelude.{ℕ, u64_max}
use mega_evm.Spec.{MegaSpecId}
use mega_evm.Constants.MiniRex
use mega_evm.Constants.Rex
use mega_evm.Constants.Rex3

pub record EvmTxRuntimeLimits : Type 0 where
  pub tx_data_size_limit : ℕ
  pub tx_kv_updates_limit : ℕ
  pub tx_compute_gas_limit : ℕ
  pub tx_state_growth_limit : ℕ
  pub block_env_access_compute_gas_limit : ℕ
  pub oracle_access_compute_gas_limit : ℕ

unfoldable pub no_limits : EvmTxRuntimeLimits
no_limits = record {
  tx_data_size_limit = u64_max;
  tx_kv_updates_limit = u64_max;
  tx_compute_gas_limit = u64_max;
  tx_state_growth_limit = u64_max;
  block_env_access_compute_gas_limit = u64_max;
  oracle_access_compute_gas_limit = u64_max;
}

unfoldable pub equivalence : EvmTxRuntimeLimits
unfolding no_limits
equivalence = no_limits

unfoldable pub mini_rex : EvmTxRuntimeLimits
unfolding equivalence
mini_rex = record equivalence {
  tx_data_size_limit = MiniRex.tx_data_limit;
  tx_kv_updates_limit = MiniRex.tx_kv_update_limit;
  tx_compute_gas_limit = MiniRex.tx_compute_gas_limit;
  block_env_access_compute_gas_limit = MiniRex.block_env_access_compute_gas;
  oracle_access_compute_gas_limit = MiniRex.oracle_access_compute_gas;
}

unfoldable pub rex : EvmTxRuntimeLimits
rex = record {
  tx_data_size_limit = Rex.tx_data_limit;
  tx_kv_updates_limit = Rex.tx_kv_update_limit;
  tx_compute_gas_limit = Rex.tx_compute_gas_limit;
  tx_state_growth_limit = Rex.tx_state_growth_limit;
  block_env_access_compute_gas_limit = MiniRex.block_env_access_compute_gas;
  oracle_access_compute_gas_limit = MiniRex.oracle_access_compute_gas;
}

unfoldable pub rex3 : EvmTxRuntimeLimits
unfolding rex
rex3 = record rex { oracle_access_compute_gas_limit = Rex3.oracle_access_compute_gas }

unfoldable pub rex4 : EvmTxRuntimeLimits
unfolding rex3
rex4 = rex3

unfoldable pub from_spec : MegaSpecId → EvmTxRuntimeLimits
unfolding equivalence mini_rex rex rex3 rex4
from_spec MegaSpecId.equivalence = equivalence
from_spec MegaSpecId.mini_rex = mini_rex
from_spec MegaSpecId.rex = rex
from_spec MegaSpecId.rex1 = rex
from_spec MegaSpecId.rex2 = rex
from_spec MegaSpecId.rex3 = rex3
from_spec MegaSpecId.rex4 = rex4
