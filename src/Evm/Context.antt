-- ===== src/Evm/Context.antt =====
-- crates/mega-evm/src/evm/context.rs and host.rs: `MegaContext`, what is reset with each block and
-- each transaction, and the storage gas that it answers.
use mega_evm.Prelude.{ℕ, Bool, true, false, ◌==◌, if◌then◌else◌, Option, none, some, ◌>>=◌}
use mega_evm.Spec.{MegaSpecId, is_enabled}
use mega_evm.Limit.Events.{Address, DbResult}
use mega_evm.Limit.Additional as Limits
use mega_evm.Limit.Additional.{AdditionalLimit}
use mega_evm.Access.Tracker as Tracker
use mega_evm.Access.Tracker.{VolatileDataAccessTracker}
use mega_evm.External.Gas as Gas
use mega_evm.External.Gas.{DynamicGasCost}
use mega_evm.Evm.SystemTx.{MegaTransaction, TxKind}

-- `MegaContext`, less what revm owns; of that it has the block's beneficiary and number, the
-- transaction, and the error that was stashed.
pub record MegaContext {ℓ} (E : Type ℓ) : Type ℓ where
  pub spec : MegaSpecId
  pub tx : MegaTransaction
  pub beneficiary : Address
  pub block_number : ℕ
  pub additional_limit : AdditionalLimit
  pub dynamic_storage_gas_cost : DynamicGasCost E
  pub volatile_data_tracker : VolatileDataAccessTracker
  pub error : Option E

module _ {ℓ} {E : Type ℓ} where
  pub reset_volatile_data_access : MegaContext E → MegaContext E
  reset_volatile_data_access c = record c {
    volatile_data_tracker = Tracker.reset c.volatile_data_tracker;
  }

  mark_beneficiary : MegaContext E → MegaContext E
  mark_beneficiary c = record c {
    volatile_data_tracker = Tracker.mark_beneficiary_balance_accessed c.volatile_data_tracker;
  }

  pub check_and_mark_beneficiary_balance_access : Address → MegaContext E → MegaContext E × Bool
  unfolding mark_beneficiary
  check_and_mark_beneficiary_balance_access address c =
      if c.beneficiary == address then (mark_beneficiary c, true) else (c, false)

  pub check_tx_beneficiary_access : MegaContext E → MegaContext E
  unfolding mark_beneficiary
  check_tx_beneficiary_access c =
      let c' = if c.tx.caller == c.beneficiary then mark_beneficiary c else c in
      elim c.tx.kind [
        | TxKind.create _ ↦ c'
        | TxKind.call recipient ↦ if recipient == c.beneficiary then mark_beneficiary c' else c'
      ]

  pub on_new_block : MegaContext E → MegaContext E
  on_new_block c =
      if is_enabled c.spec MegaSpecId.mini_rex
      then record c {
        dynamic_storage_gas_cost = Gas.on_new_block c.block_number c.dynamic_storage_gas_cost;
      }
      else c

  pub on_new_tx : MegaContext E → Option (MegaContext E)
  unfolding reset_volatile_data_access check_tx_beneficiary_access
  on_new_tx c =
      let c' = check_tx_beneficiary_access (reset_volatile_data_access c) in
      if is_enabled c.spec MegaSpecId.mini_rex
      then (do
        (_, limit) ← Limits.before_tx_start c.tx.tx_data (Limits.reset c'.additional_limit)
        some (record c' { additional_limit = limit }))
      else some c'

  -- `result.map_err(|e| …).ok()`: an error is stashed in the context.
  abbrev pub answer : DynamicGasCost E × DbResult E ℕ → MegaContext E → MegaContext E × Option ℕ
  answer (cost, DbResult.ok gas) c = (record c { dynamic_storage_gas_cost = cost }, some gas)
  answer (cost, DbResult.err e) c =
      (record c { dynamic_storage_gas_cost = cost; error = some e }, none)

  unfoldable pub sstore_set_storage_gas : Address → ℕ → MegaContext E → MegaContext E × Option ℕ
  sstore_set_storage_gas address key c =
      answer (Gas.sstore_set_gas address key c.dynamic_storage_gas_cost) c

  unfoldable pub new_account_storage_gas : Address → MegaContext E → MegaContext E × Option ℕ
  new_account_storage_gas address c =
      answer (Gas.new_account_gas address c.dynamic_storage_gas_cost) c

  unfoldable pub create_contract_storage_gas : Address → MegaContext E → MegaContext E × Option ℕ
  create_contract_storage_gas address c =
      answer (Gas.create_contract_gas address c.dynamic_storage_gas_cost) c

  unfoldable pub volatile_access_disabled : ℕ → MegaContext E → Bool
  volatile_access_disabled current_depth c =
      Tracker.volatile_access_disabled current_depth c.volatile_data_tracker
