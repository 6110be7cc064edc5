-- ===== src/Limit/Additional/Renewal.antt =====
-- What `reset` of crates/mega-evm/src/limit/limit.rs forgets.
use mega_evm.Prelude.{◌≡◌, true}
use mega_evm.Spec.{MegaSpecId, is_enabled}
use mega_evm.Limit.RuntimeLimits.{EvmTxRuntimeLimits}
use mega_evm.Limit.Frame
use mega_evm.Limit.StateGrowth
use mega_evm.Limit.DataSize
use mega_evm.Limit.KvUpdate
use mega_evm.Limit.ComputeGas
use mega_evm.Limit.Additional.{AdditionalLimit, new, reset}

-- The limits and the version that the trackers were made with, whatever they have recorded since.
pub record IsFor (spec : MegaSpecId) (limits : EvmTxRuntimeLimits) (a : AdditionalLimit)
    : Type 0 where
  pub same_limits : a.limits ≡ limits
  pub growth_spec : a.state_growth.spec ≡ spec
  pub growth_limit : a.state_growth.frame_tracker.tx_entry.limit ≡ limits.tx_state_growth_limit
  pub data_rex4 : a.data_size.rex4_enabled ≡ is_enabled spec MegaSpecId.rex4
  pub data_limit : a.data_size.frame_tracker.tx_entry.limit ≡ limits.tx_data_size_limit
  pub kv_rex4 : a.kv_update.rex4_enabled ≡ is_enabled spec MegaSpecId.rex4
  pub kv_limit : a.kv_update.frame_tracker.tx_entry.limit ≡ limits.tx_kv_updates_limit
  pub gas_rex1 : a.compute_gas.rex1_enabled ≡ is_enabled spec MegaSpecId.rex1
  pub gas_rex4 : a.compute_gas.rex4_enabled ≡ is_enabled spec MegaSpecId.rex4
  pub gas_limit : a.compute_gas.frame_tracker.tx_entry.limit ≡ limits.tx_compute_gas_limit

-- From Rex1 on, `reset` gives the state that `new` does, whatever was recorded, exceeded, rescued
-- or detained since: nothing of a transaction reaches the next.
pub reset-new :
    (spec : MegaSpecId) (limits : EvmTxRuntimeLimits) (a : AdditionalLimit)
    → is_enabled spec MegaSpecId.rex1 ≡ true
    → IsFor spec limits a
    → reset a ≡ new spec limits
unfolding reset new StateGrowth.reset StateGrowth.new DataSize.reset DataSize.new KvUpdate.reset
    KvUpdate.new ComputeGas.reset ComputeGas.new Frame.reset Frame.new
reset-new spec limits a rex1 i = rw (
  reset, new, i.same_limits, i.growth_spec, i.growth_limit, i.data_rex4, i.data_limit, i.kv_rex4,
  i.kv_limit, i.gas_rex1, rex1, i.gas_rex4, i.gas_limit,
)
