-- ===== src/Block/Limiter.antt =====
-- crates/mega-evm/src/block/limit.rs: `BlockLimiter`, what a block has used and which transactions
-- it still takes.
pub mod Admission
pub mod Reached
use mega_evm.Prelude.{ℕ, ◌-◌, Bool, true, false, ◌||◌, not, if◌then◌else◌, ltb, leb, add64, sub64}
use mega_evm.Block.Limits.{BlockLimits}

pub record BlockLimiter : Type 0 where
  pub limits : BlockLimits
  pub block_gas_used : ℕ
  pub block_tx_size_used : ℕ
  pub block_da_size_used : ℕ
  pub block_data_used : ℕ
  pub block_kv_updates_used : ℕ
  pub block_compute_gas_used : ℕ
  pub block_state_growth_used : ℕ

-- The errors of `pre_execution_check`: those of the transaction (`MegaTxLimitExceededError`), the
-- block's gas, and those of the block (`MegaBlockLimitExceededError`), with the values they carry.
pub data LimitError : Type 0 where
  transaction_gas_limit transaction_encode_size_limit data_availability_size_limit :
      ℕ → ℕ → LimitError
  transaction_gas_limit_more_than_available_block_gas : ℕ → ℕ → LimitError
  block_encode_size_limit block_data_availability_size_limit : ℕ → ℕ → ℕ → LimitError
  block_transaction_data_limit block_kv_update_limit : ℕ → ℕ → LimitError
  block_compute_gas_limit block_state_growth_limit : ℕ → ℕ → LimitError

pub data Verdict : Type 0 where
  accepted : Verdict
  -- the hash of the transaction, if the error names it, is that of the call
  rejected : LimitError → Verdict

unfoldable pub new : BlockLimits → BlockLimiter
new limits = record {
  limits = limits;
  block_gas_used = 0;
  block_tx_size_used = 0;
  block_da_size_used = 0;
  block_data_used = 0;
  block_kv_updates_used = 0;
  block_compute_gas_used = 0;
  block_state_growth_used = 0;
}

-- `if condition { return Err(error) }`, and what follows it.
abbrev reject_if : Bool → LimitError → Verdict → Verdict
reject_if true error rest = rejected error
reject_if false error rest = rest

-- The checks on what earlier transactions have used.
check_used : BlockLimiter → Verdict
check_used b =
    reject_if (leb b.limits.block_txs_data_limit b.block_data_used)
      (block_transaction_data_limit b.block_data_used b.limits.block_txs_data_limit)
      (reject_if (leb b.limits.block_kv_update_limit b.block_kv_updates_used)
        (block_kv_update_limit b.block_kv_updates_used b.limits.block_kv_update_limit)
        (reject_if (leb b.limits.block_compute_gas_limit b.block_compute_gas_used)
          (block_compute_gas_limit b.block_compute_gas_used b.limits.block_compute_gas_limit)
          (reject_if (leb b.limits.block_state_growth_limit b.block_state_growth_used)
            (block_state_growth_limit b.block_state_growth_used b.limits.block_state_growth_limit)
            accepted)))

-- The checks on the data availability size, from which deposits are exempt.
check_da_size : ℕ → Bool → BlockLimiter → Verdict
unfolding check_used
check_da_size da_size is_deposit b =
    if is_deposit
    then check_used b
    else reject_if (ltb b.limits.tx_da_size_limit da_size)
        (data_availability_size_limit da_size b.limits.tx_da_size_limit)
        (reject_if (ltb b.limits.block_da_size_limit (add64 da_size b.block_da_size_used))
          (block_data_availability_size_limit b.block_da_size_used da_size
            b.limits.block_da_size_limit)
          (check_used b))

pub pre_execution_check : ℕ → ℕ → ℕ → Bool → BlockLimiter → Verdict
unfolding check_da_size
pre_execution_check gas_limit tx_size da_size is_deposit b =
    reject_if (ltb b.limits.tx_gas_limit gas_limit)
      (transaction_gas_limit gas_limit b.limits.tx_gas_limit)
      (reject_if (ltb b.limits.block_gas_limit (add64 b.block_gas_used gas_limit))
        (transaction_gas_limit_more_than_available_block_gas gas_limit
          (sub64 b.limits.block_gas_limit b.block_gas_used))
        (reject_if (ltb b.limits.tx_encode_size_limit tx_size)
          (transaction_encode_size_limit tx_size b.limits.tx_encode_size_limit)
          (reject_if (ltb b.limits.block_txs_encode_size_limit (add64 tx_size b.block_tx_size_used))
            (block_encode_size_limit b.block_tx_size_used tx_size
              b.limits.block_txs_encode_size_limit)
            (check_da_size da_size is_deposit b))))

-- What an executed transaction has used.
pub record TxUsage : Type 0 where
  pub gas_used : ℕ
  pub tx_size : ℕ
  pub da_size : ℕ
  pub tx_data : ℕ
  pub kv_updates : ℕ
  pub compute_gas_used : ℕ
  pub state_growth_used : ℕ
  pub is_deposit : Bool

unfoldable pub post_execution_update_raw : TxUsage → BlockLimiter → BlockLimiter
post_execution_update_raw u b = record b {
  block_gas_used = add64 b.block_gas_used u.gas_used;
  block_tx_size_used = add64 b.block_tx_size_used u.tx_size;
  block_da_size_used =
      if u.is_deposit then b.block_da_size_used else add64 b.block_da_size_used u.da_size;
  block_data_used = add64 b.block_data_used u.tx_data;
  block_kv_updates_used = add64 b.block_kv_updates_used u.kv_updates;
  block_compute_gas_used = add64 b.block_compute_gas_used u.compute_gas_used;
  block_state_growth_used = add64 b.block_state_growth_used u.state_growth_used;
}

unfoldable pub is_block_limit_reached : BlockLimiter → Bool
is_block_limit_reached b =
    leb b.limits.block_gas_limit b.block_gas_used
    || leb b.limits.block_txs_encode_size_limit b.block_tx_size_used
    || leb b.limits.block_da_size_limit b.block_da_size_used
    || leb b.limits.block_txs_data_limit b.block_data_used
    || leb b.limits.block_kv_update_limit b.block_kv_updates_used
    || leb b.limits.block_compute_gas_limit b.block_compute_gas_used
    || leb b.limits.block_state_growth_limit b.block_state_growth_used
