-- ===== src/Block/Executor.antt =====
-- crates/mega-evm/src/block/executor.rs: how the block executor uses the limiter. A transaction is
-- checked before it runs, and checked again when its outcome is committed.
pub mod Bounds
use mega_evm.Prelude.{ℕ, Bool, List, [], ◌∷◌}
use mega_evm.Block.Limiter.{
  BlockLimiter, TxUsage, Verdict, accepted, rejected, pre_execution_check,
  post_execution_update_raw,
}

-- What the limiter reads of a `BlockMegaTransactionOutcome`.
pub record Outcome : Type 0 where
  pub gas_limit : ℕ
  pub usage : TxUsage
  pub open usage use *

-- The check that `run_transaction` makes before execution.
pub run_check : Outcome → BlockLimiter → Verdict
run_check o b = pre_execution_check o.gas_limit o.tx_size o.da_size o.is_deposit b

-- The limiter's part of `commit_transaction_outcome`: a rejected outcome changes nothing.
unfoldable pub commit_transaction_outcome : Outcome → BlockLimiter → BlockLimiter × Verdict
commit_transaction_outcome o b =
    elim (pre_execution_check o.gas_limit o.tx_size o.da_size o.is_deposit b) [
      | accepted ↦ (post_execution_update_raw o.usage b, accepted)
      | rejected error ↦ (b, rejected error)
    ]

-- A block: outcomes are committed in turn, and those that are rejected are left out.
unfoldable pub commit_all : List Outcome → BlockLimiter → BlockLimiter
commit_all [] b = b
commit_all (o ∷ os) b = commit_all os (commit_transaction_outcome o b).0
