-- ===== src/Tests/Block.antt =====
-- A small block, and the selection of hardforks by timestamp.
use mega_evm.Prelude.{◌≢◌, true, refl, ℕ, ◌≡◌, ◌↔◌, Bool, false, List, [], ◌∷◌, arith, leb}
use mega_evm.Limit.RuntimeLimits.{from_spec}
use mega_evm.Block.Hardfork.{MegaHardfork, spec_id, hardfork, chain_spec_id}
use mega_evm.Block.Hardfork.Selection.{spec_of, chain_spec_id-hardfork}
use mega_evm.Block.Limits.{BlockLimits, from_hardfork_and_block_gas_limit, to_evm_tx_runtime_limits}
use mega_evm.Block.Limits.Runtime.{to_evm_tx_runtime_limits-from_hardfork}
use mega_evm.Block.Limiter.{BlockLimiter, accepted, pre_execution_check, is_block_limit_reached}
use mega_evm.Block.Limiter.Admission.{NoWrap, Admissible, pre_execution_check-Admissible}
use mega_evm.Block.Limiter.Reached.{pre_execution_check-reached}
use mega_evm.Block.Executor.{Outcome, commit_all}
use mega_evm.Block.Executor.Bounds.{
  IsPlausible, LeavesRoom, IsBounded, IsCharged, accepted_of, commit_all-IsBounded,
}

abbrev small_limits : BlockLimits
small_limits = record {
  tx_gas_limit = 50_000;
  block_gas_limit = 100_000;
  tx_encode_size_limit = 400;
  block_txs_encode_size_limit = 1000;
  tx_da_size_limit = 300;
  block_da_size_limit = 500;
  tx_data_limit = 2000;
  block_txs_data_limit = 3000;
  tx_kv_update_limit = 20;
  block_kv_update_limit = 30;
  tx_compute_gas_limit = 40_000;
  block_compute_gas_limit = 60_000;
  tx_state_growth_limit = 5;
  block_state_growth_limit = 8;
  block_env_access_compute_gas_limit = 20_000;
  oracle_access_compute_gas_limit = 20_000;
}

abbrev empty_block : BlockLimiter
empty_block = record {
  limits = small_limits;
  block_gas_used = 0;
  block_tx_size_used = 0;
  block_da_size_used = 0;
  block_data_used = 0;
  block_kv_updates_used = 0;
  block_compute_gas_used = 0;
  block_state_growth_used = 0;
}

abbrev a_transfer : Outcome
a_transfer = record {
  gas_limit = 45_000;
  usage = record {
    gas_used = 30_000;
    tx_size = 120;
    da_size = 100;
    tx_data = 310;
    kv_updates = 2;
    compute_gas_used = 21_000;
    state_growth_used = 1;
    is_deposit = false;
  };
}

-- It is taken, and then taken again, and rejected the third time, since 45,000 more gas is too much.
abbrev three_transfers : List Outcome
three_transfers = a_transfer ∷ a_transfer ∷ a_transfer ∷ []

a_transfer-IsPlausible : IsPlausible 50_000 a_transfer
a_transfer-IsPlausible = omega arith

small_limits-LeavesRoom : LeavesRoom 50_000 empty_block.limits
small_limits-LeavesRoom = omega arith

empty_block-IsBounded : IsBounded 50_000 empty_block
empty_block-IsBounded = omega arith

commit_all-IsBounded_example :
    ((commit_all three_transfers empty_block).limits ≡ empty_block.limits)
    × IsBounded 50_000 (commit_all three_transfers empty_block)
    × IsCharged
        (accepted_of three_transfers empty_block)
        empty_block
        (commit_all three_transfers empty_block)
commit_all-IsBounded_example =
    commit_all-IsBounded 50_000 three_transfers empty_block
      (a_transfer-IsPlausible, (a_transfer-IsPlausible, (a_transfer-IsPlausible, tt)))
      small_limits-LeavesRoom empty_block-IsBounded

empty_block-NoWrap : NoWrap 45_000 120 100 empty_block
empty_block-NoWrap = omega arith

pre_execution_check-Admissible_example :
    (pre_execution_check 45_000 120 100 false empty_block ≡ accepted)
    ↔ Admissible 45_000 120 100 false empty_block
pre_execution_check-Admissible_example =
    pre_execution_check-Admissible 45_000 120 100 false empty_block empty_block-NoWrap

-- MiniRex from 10 on, its first patch from 20 on, and Rex from 30 on.
abbrev activations : MegaHardfork → ℕ → Bool
activations MegaHardfork.mini_rex timestamp = leb 10 timestamp
activations MegaHardfork.mini_rex1 timestamp = leb 20 timestamp
activations MegaHardfork.rex timestamp = leb 30 timestamp
activations _ timestamp = false

chain_spec_id-hardfork_example : chain_spec_id activations 25 ≡ spec_of (hardfork activations 25)
chain_spec_id-hardfork_example = chain_spec_id-hardfork activations 25

to_evm_tx_runtime_limits-from_hardfork_example :
    let limits = from_hardfork_and_block_gas_limit MegaHardfork.rex3 30_000_000 in
    (to_evm_tx_runtime_limits limits ≡ from_spec (spec_id MegaHardfork.rex3))
    × (limits.block_gas_limit ≡ 30_000_000)
to_evm_tx_runtime_limits-from_hardfork_example =
    to_evm_tx_runtime_limits-from_hardfork MegaHardfork.rex3 30_000_000

-- A block whose key-value updates have reached their limit of 30.
abbrev full_block : BlockLimiter
full_block = record empty_block { block_gas_used = 1000; block_kv_updates_used = 31 }

full_block-NoWrap : NoWrap 45_000 120 100 full_block
full_block-NoWrap = omega arith

full_block_reached : is_block_limit_reached full_block ≡ true
unfolding is_block_limit_reached
full_block_reached = refl

pre_execution_check-reached_example : pre_execution_check 45_000 120 100 false full_block ≢ accepted
pre_execution_check-reached_example =
    pre_execution_check-reached 45_000 120 100 full_block full_block-NoWrap full_block_reached
      (omega arith) (omega arith) (omega arith)
