-- ===== src/Block/Limiter/Reached.antt =====
-- `is_block_limit_reached` of crates/mega-evm/src/block/limit.rs against what is still taken.
use mega_evm.Prelude.{ℕ, ◌<◌, ◌≡◌, ◌≢◌, true, false, arith}
use mega_evm.Block.Limiter.{BlockLimiter, accepted, pre_execution_check, is_block_limit_reached}
use mega_evm.Block.Limiter.Admission.{NoWrap, Admissible, pre_execution_check-Admissible}

not_reached :
    (gas_limit tx_size da_size : ℕ) (b : BlockLimiter)
    → 0 < gas_limit
    → 0 < tx_size
    → 0 < da_size
    → Admissible gas_limit tx_size da_size false b
    → is_block_limit_reached b ≡ false
unfolding is_block_limit_reached
not_reached gas_limit tx_size da_size b g s d a = ground arith

-- Once a limit of the block is reached, no transaction is accepted that is not a deposit and whose
-- gas limit, encoded size and data availability size are positive, while the compared sums fit in
-- 64 bits.
pub pre_execution_check-reached :
    (gas_limit tx_size da_size : ℕ) (b : BlockLimiter)
    → NoWrap gas_limit tx_size da_size b
    → is_block_limit_reached b ≡ true
    → 0 < gas_limit
    → 0 < tx_size
    → 0 < da_size
    → pre_execution_check gas_limit tx_size da_size false b ≢ accepted
pre_execution_check-reached gas_limit tx_size da_size b w reached g s d taken =
    let a = (pre_execution_check-Admissible gas_limit tx_size da_size false b w).0 taken in
    let open_still = not_reached gas_limit tx_size da_size b g s d a in cc
