-- ===== src/Block/Limits/Runtime.antt =====
-- The limits of a transaction in those of a block, crates/mega-evm/src/block/limit.rs.
use mega_evm.Prelude.{ℕ, ◌≡◌, refl}
use mega_evm.Limit.RuntimeLimits.{from_spec}
use mega_evm.Block.Hardfork.{MegaHardfork, spec_id}
use mega_evm.Block.Limits.{from_hardfork_and_block_gas_limit, to_evm_tx_runtime_limits}

-- The limits that a block hands to a transaction are those of the EVM version of its hardfork, for
-- every hardfork, and the block's gas limit is the one that was given.
pub to_evm_tx_runtime_limits-from_hardfork :
    (hardfork : MegaHardfork) (block_gas_limit : ℕ)
    → let limits = from_hardfork_and_block_gas_limit hardfork block_gas_limit in
      (to_evm_tx_runtime_limits limits ≡ from_spec (spec_id hardfork))
      × (limits.block_gas_limit ≡ block_gas_limit)
unfolding to_evm_tx_runtime_limits from_hardfork_and_block_gas_limit
to_evm_tx_runtime_limits-from_hardfork MegaHardfork.mini_rex1 block_gas_limit = (refl, refl)
to_evm_tx_runtime_limits-from_hardfork MegaHardfork.mini_rex block_gas_limit = (refl, refl)
to_evm_tx_runtime_limits-from_hardfork MegaHardfork.mini_rex2 block_gas_limit = (refl, refl)
to_evm_tx_runtime_limits-from_hardfork _ block_gas_limit = (refl, refl)
