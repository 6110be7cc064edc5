-- ===== src/Limit/Additional.antt =====
-- crates/mega-evm/src/limit/limit.rs: `AdditionalLimit`, which runs the four trackers through the
-- life of a transaction. `none` is a panic in a tracker.
pub mod Frames
pub mod Returns
pub mod Order
pub mod Renewal
pub mod Propagation
pub mod Exceeded
pub mod Rescue
pub mod Depth
use mega_evm.Prelude.{
  ℕ, Bool, true, false, not, ◌&&◌, if◌then◌else◌, Option, none, some, ◌>>=◌, add64,
}
use mega_evm.Spec.{MegaSpecId}
use mega_evm.Limit.Check.{LimitKind, LimitCheck, exceeded_limit, is_frame_local}
use mega_evm.Limit.Events.{TxData, SStoreResult}
use mega_evm.Limit.RuntimeLimits.{EvmTxRuntimeLimits}
use mega_evm.Limit.StateGrowth.{StateGrowthTracker}
use mega_evm.Limit.StateGrowth
use mega_evm.Limit.DataSize.{DataSizeTracker}
use mega_evm.Limit.DataSize
use mega_evm.Limit.KvUpdate.{KvUpdateTracker}
use mega_evm.Limit.KvUpdate
use mega_evm.Limit.ComputeGas.{ComputeGasTracker}
use mega_evm.Limit.ComputeGas

pub record AdditionalLimit : Type 0 where
  pub has_exceeded_limit : LimitCheck
  pub rescued_gas : ℕ
  pub limits : EvmTxRuntimeLimits
  pub state_growth : StateGrowthTracker
  pub data_size : DataSizeTracker
  pub kv_update : KvUpdateTracker
  pub compute_gas : ComputeGasTracker

pub record LimitUsage : Type 0 where
  pub data_size : ℕ
  pub kv_updates : ℕ
  pub compute_gas : ℕ
  pub state_growth : ℕ

pub new : MegaSpecId → EvmTxRuntimeLimits → AdditionalLimit
new spec limits = record {
  has_exceeded_limit = LimitCheck.within_limit;
  rescued_gas = 0;
  limits = limits;
  state_growth = StateGrowth.new spec limits.tx_state_growth_limit;
  data_size = DataSize.new spec limits.tx_data_size_limit;
  kv_update = KvUpdate.new spec limits.tx_kv_updates_limit;
  compute_gas = ComputeGas.new spec limits.tx_compute_gas_limit;
}

pub reset : AdditionalLimit → AdditionalLimit
reset a = record a {
  has_exceeded_limit = LimitCheck.within_limit;
  rescued_gas = 0;
  state_growth = StateGrowth.reset a.state_growth;
  data_size = DataSize.reset a.data_size;
  kv_update = KvUpdate.reset a.kv_update;
  compute_gas = ComputeGas.reset a.compute_gas;
}

pub get_usage : AdditionalLimit → Option LimitUsage
get_usage a = do
  data_size ← DataSize.tx_usage a.data_size
  kv_updates ← KvUpdate.tx_usage a.kv_update
  compute_gas ← ComputeGas.tx_usage a.compute_gas
  state_growth ← StateGrowth.tx_usage a.state_growth
  some (record {
    data_size = data_size;
    kv_updates = kv_updates;
    compute_gas = compute_gas;
    state_growth = state_growth;
  })

unfoldable pub push_empty_frame : AdditionalLimit → Option AdditionalLimit
push_empty_frame a = do
  state_growth ← StateGrowth.push_empty_frame a.state_growth
  data_size ← DataSize.push_empty_frame a.data_size
  kv_update ← KvUpdate.push_empty_frame a.kv_update
  compute_gas ← ComputeGas.push_empty_frame a.compute_gas
  some (record a {
    state_growth = state_growth;
    data_size = data_size;
    kv_update = kv_update;
    compute_gas = compute_gas;
  })

pub set_compute_gas_limit : ℕ → AdditionalLimit → Option AdditionalLimit
set_compute_gas_limit new_limit a = do
  compute_gas ← ComputeGas.set_detained_limit new_limit a.compute_gas
  some (record a { compute_gas = compute_gas })

-- Keeps a check that found an exceeded limit, and else goes on to the next one.
or_else :
    AdditionalLimit
    → Option LimitCheck
    → Option (LimitCheck × AdditionalLimit)
    → Option (LimitCheck × AdditionalLimit)
or_else a check rest = do
  found ← check
  (if exceeded_limit found then some (found, record a { has_exceeded_limit = found }) else rest)

-- Each check runs only if none before it has found an exceeded limit.
unfoldable pub check_limit : AdditionalLimit → Option (LimitCheck × AdditionalLimit)
unfolding or_else
check_limit a =
    if exceeded_limit a.has_exceeded_limit
    then some (a.has_exceeded_limit, a)
    else or_else a (DataSize.check_limit a.data_size) (
        or_else a (KvUpdate.check_limit a.kv_update) (
          or_else a (ComputeGas.check_limit a.compute_gas)
            (or_else a (StateGrowth.check_limit a.state_growth) (some (a.has_exceeded_limit, a)))))

-- `!self.check_limit().exceeded_limit()`, with the state after the check.
still_within : AdditionalLimit → Option (Bool × AdditionalLimit)
unfolding check_limit
still_within a = do (check, a') ← check_limit a; some (not (exceeded_limit check), a')

unfoldable pub record_compute_gas : ℕ → AdditionalLimit → Option (Bool × AdditionalLimit)
unfolding still_within
record_compute_gas gas a =
    still_within (record a { compute_gas = ComputeGas.record_gas_used gas a.compute_gas })

pub before_tx_start : TxData → AdditionalLimit → Option (Bool × AdditionalLimit)
unfolding still_within
before_tx_start tx a = still_within (record a {
  data_size = DataSize.before_tx_start tx a.data_size;
  kv_update = KvUpdate.before_tx_start tx a.kv_update;
})

pub on_sstore : SStoreResult → AdditionalLimit → Option (Bool × AdditionalLimit)
unfolding still_within
on_sstore r a = still_within (record a {
  state_growth = StateGrowth.after_sstore r a.state_growth;
  data_size = DataSize.after_sstore r a.data_size;
  kv_update = KvUpdate.after_sstore r a.kv_update;
})

pub on_log : ℕ → ℕ → AdditionalLimit → Option (Bool × AdditionalLimit)
unfolding still_within
on_log num_topics data_size a =
    still_within (record a { data_size = DataSize.after_log num_topics data_size a.data_size })
