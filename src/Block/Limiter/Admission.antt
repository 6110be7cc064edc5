-- ===== src/Block/Limiter/Admission.antt =====
-- Which transactions `pre_execution_check` of crates/mega-evm/src/block/limit.rs takes.
use mega_evm.Prelude.{ℕ, ◌+◌, ◌≤◌, ◌<◌, ◌≡◌, refl, ◌↔◌, Bool, true, false, u64_mod, arith}
use mega_evm.Block.Limiter.{
  BlockLimiter, LimitError, Verdict, accepted, check_da_size, check_used, reject_if,
  pre_execution_check,
}

-- The sums that the checks compare do not wrap.
pub record NoWrap (gas_limit tx_size da_size : ℕ) (b : BlockLimiter) : Type 0 where
  pub gas_fits : b.block_gas_used + gas_limit < u64_mod
  pub size_fits : tx_size + b.block_tx_size_used < u64_mod
  pub da_fits : da_size + b.block_da_size_used < u64_mod

-- What a transaction must meet.
pub record Admissible (gas_limit tx_size da_size : ℕ) (is_deposit : Bool) (b : BlockLimiter)
    : Type 0 where
  pub tx_gas : gas_limit ≤ b.limits.tx_gas_limit
  pub block_gas : b.block_gas_used + gas_limit ≤ b.limits.block_gas_limit
  pub encode_size : tx_size ≤ b.limits.tx_encode_size_limit
  pub block_encode_size : tx_size + b.block_tx_size_used ≤ b.limits.block_txs_encode_size_limit
  pub da_size_ok : is_deposit ≡ false → da_size ≤ b.limits.tx_da_size_limit
  pub block_da_size_ok :
      is_deposit ≡ false → da_size + b.block_da_size_used ≤ b.limits.block_da_size_limit
  pub data_left : b.block_data_used < b.limits.block_txs_data_limit
  pub kv_left : b.block_kv_updates_used < b.limits.block_kv_update_limit
  pub compute_gas_left : b.block_compute_gas_used < b.limits.block_compute_gas_limit
  pub state_growth_left : b.block_state_growth_used < b.limits.block_state_growth_limit

reject_if_accepted :
    (c : Bool) (e : LimitError) (rest : Verdict)
    → (reject_if c e rest ≡ accepted) ↔ ((c ≡ false) × (rest ≡ accepted))
reject_if_accepted true e rest = (λ h. cc, λ h. cc)
reject_if_accepted false e rest = (λ h. (refl, h), λ h. h.1)

check_used_accepted :
    (b : BlockLimiter)
    → (check_used b ≡ accepted) ↔ (
        (b.block_data_used < b.limits.block_txs_data_limit)
        × (b.block_kv_updates_used < b.limits.block_kv_update_limit)
        × (b.block_compute_gas_used < b.limits.block_compute_gas_limit)
        × (b.block_state_growth_used < b.limits.block_state_growth_limit))
unfolding check_used
check_used_accepted b = ground arith

check_da_size_accepted :
    (da_size : ℕ) (is_deposit : Bool) (b : BlockLimiter)
    → da_size + b.block_da_size_used < u64_mod
    → (check_da_size da_size is_deposit b ≡ accepted) ↔ (
        (is_deposit ≡ false → da_size ≤ b.limits.tx_da_size_limit)
        × (is_deposit ≡ false → da_size + b.block_da_size_used ≤ b.limits.block_da_size_limit)
        × (check_used b ≡ accepted))
unfolding check_da_size
check_da_size_accepted da_size true b fits = ground arith
check_da_size_accepted da_size false b fits = ground arith

-- While the sums it compares fit in 64 bits, `pre_execution_check` accepts a transaction exactly
-- when each of its own sizes is within the transaction's limit, the gas and the encoded size fit
-- in what the block has left, the data availability size does so too unless the transaction is a
-- deposit, and the block has some of each of the four other resources left.
pub pre_execution_check-Admissible :
    (gas_limit tx_size da_size : ℕ) (is_deposit : Bool) (b : BlockLimiter)
    → NoWrap gas_limit tx_size da_size b
    → (pre_execution_check gas_limit tx_size da_size is_deposit b ≡ accepted)
      ↔ Admissible gas_limit tx_size da_size is_deposit b
unfolding pre_execution_check
pre_execution_check-Admissible gas_limit tx_size da_size is_deposit b w =
    let da = check_da_size_accepted da_size is_deposit b w.da_fits in
    let used = check_used_accepted b in ground arith
