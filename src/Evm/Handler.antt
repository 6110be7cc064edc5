-- ===== src/Evm/Handler.antt =====
-- crates/mega-evm/src/evm/execution.rs: the handler's steps before and after execution. What revm
-- computes (its validation, the frames, its gas accounting) is an argument.
pub mod AccountPrice
pub mod Intrinsic
use mega_evm.Prelude.{
  ℕ, ◌*◌, Bool, true, false, not, ltb, if◌then◌else◌, Option, none, some, ◌>>=◌, add64, mul64,
  sub64,
}
use mega_evm.Spec.{MegaSpecId, is_enabled}
use mega_evm.Constants.Rex
use mega_evm.Limit.Events.{Address, DbResult}
use mega_evm.Limit.Additional.{record_compute_gas}
use mega_evm.Evm.SystemTx.{
  MegaTransaction, TxKind, sent_from_mega_system_address, is_mega_system_transaction,
  mega_system_transaction_source_hash,
}
use mega_evm.Evm.Context.{
  MegaContext, on_new_tx, new_account_storage_gas, create_contract_storage_gas,
}

-- `STANDARD_TOKEN_COST` and `TOTAL_COST_FLOOR_PER_TOKEN` of revm.
pub record TokenCosts : Type 0 where
  pub standard_token_cost : ℕ
  pub total_cost_floor_per_token : ℕ

-- `InitialAndFloorGas`.
pub record InitialAndFloorGas : Type 0 where
  pub initial_gas : ℕ
  pub floor_gas : ℕ

-- The errors of `before_run` and `validate`; `invalid` has those of revm's validation.
pub data HandlerError {ℓ} (E : Type ℓ) : Type ℓ where
  invalid : E → HandlerError E
  database : E → HandlerError E
  call_gas_cost_more_than_gas_limit : ℕ → ℕ → HandlerError E
  failed_to_get_storage_gas : Address → HandlerError E
  callee_not_in_whitelist : HandlerError E

-- The gas of the calldata and, from REX on, of every transaction, on top of revm's.
abbrev pub with_calldata_gas : TokenCosts → MegaSpecId → ℕ → InitialAndFloorGas → InitialAndFloorGas
with_calldata_gas costs spec tokens gas =
    let initial = add64 gas.initial_gas (mul64 (costs.standard_token_cost * 10) tokens) in
    record {
      initial_gas =
          if is_enabled spec MegaSpecId.rex
          then add64 initial Rex.tx_intrinsic_storage_gas
          else initial;
      floor_gas = add64 gas.floor_gas (mul64 (costs.total_cost_floor_per_token * 10) tokens);
    }

module _ {ℓ} {E : Type ℓ} where
  -- `before_run`: a transaction of the sequencer becomes a deposit without a gas price.
  pub before_run : MegaContext E → Option (DbResult (HandlerError E) (MegaContext E))
  before_run c =
      let run = λ (c' : MegaContext E). (do c'' ← on_new_tx c'; some (DbResult.ok c'')) in
      if is_enabled c.spec MegaSpecId.mini_rex
      then (if sent_from_mega_system_address c.tx
          then (if not (is_mega_system_transaction c.tx)
              then some (DbResult.err HandlerError.callee_not_in_whitelist)
              else run (record c {
                tx = record c.tx {
                  source_hash = mega_system_transaction_source_hash;
                  gas_price = 0;
                };
              }))
          else run c)
      else run c

  -- `ctx.db_mut().basic(address)?.is_none_or(|acc| acc.is_empty())` is `is_empty address`. The
  -- first component is the context, which a price question may change.
  abbrev pub priced_account :
      Address
      → MegaContext E × Option ℕ
      → MegaContext E × DbResult (HandlerError E) (Address × Option ℕ)
  priced_account address (c, gas) = (c, DbResult.ok (address, gas))

  abbrev pub called_storage_gas :
      Address
      → DbResult E Bool
      → MegaContext E
      → MegaContext E × DbResult (HandlerError E) (Address × Option ℕ)
  called_storage_gas address (DbResult.err e) c = (c, DbResult.err (HandlerError.database e))
  called_storage_gas address (DbResult.ok true) c =
      priced_account address (new_account_storage_gas address c)
  called_storage_gas address (DbResult.ok false) c = priced_account address (c, some 0)

  abbrev pub account_storage_gas :
      (Address → DbResult E Bool)
      → Bool
      → TxKind
      → MegaContext E
      → MegaContext E × DbResult (HandlerError E) (Address × Option ℕ)
  account_storage_gas is_empty transfers_value (TxKind.create created_address) c =
      priced_account created_address (
        if is_enabled c.spec MegaSpecId.rex
        then create_contract_storage_gas created_address c
        else new_account_storage_gas created_address c)
  account_storage_gas is_empty transfers_value (TxKind.call address) c =
      if transfers_value
      then called_storage_gas address (is_empty address) c
      else priced_account address (c, some 0)

  -- The storage gas is added to the initial gas, or its lack is an error.
  abbrev pub add_storage_gas :
      InitialAndFloorGas
      → DbResult (HandlerError E) (Address × Option ℕ)
      → DbResult (HandlerError E) InitialAndFloorGas
  add_storage_gas gas (DbResult.err e) = DbResult.err e
  add_storage_gas gas (DbResult.ok (address, none)) =
      DbResult.err (HandlerError.failed_to_get_storage_gas address)
  add_storage_gas gas (DbResult.ok (address, some storage_gas)) =
      DbResult.ok (record gas { initial_gas = add64 gas.initial_gas storage_gas })

  -- `if initial_gas > gas_limit { return Err(…) }`, and the gas of the account.
  abbrev pub charge_account :
      (Address → DbResult E Bool)
      → InitialAndFloorGas
      → MegaContext E
      → MegaContext E × DbResult (HandlerError E) InitialAndFloorGas
  charge_account is_empty total c =
      if ltb c.tx.gas_limit total.initial_gas
      then (
        c,
        DbResult.err
            (HandlerError.call_gas_cost_more_than_gas_limit c.tx.gas_limit total.initial_gas),
      )
      else (let (c', storage_gas) = account_storage_gas is_empty c.tx.transfers_value c.tx.kind c in
          (c', add_storage_gas total storage_gas))

  -- `validate`, where `validated` is the answer of `validate_env` and `validate_initial_tx_gas`.
  unfoldable pub validate :
      TokenCosts
      → (Address → DbResult E Bool)
      → DbResult E InitialAndFloorGas
      → MegaContext E
      → Option (MegaContext E × DbResult (HandlerError E) InitialAndFloorGas)
  validate costs is_empty (DbResult.err e) c = some (c, DbResult.err (HandlerError.invalid e))
  validate costs is_empty (DbResult.ok gas) c =
      if is_enabled c.spec MegaSpecId.mini_rex
      then (do
        (_, limit) ← record_compute_gas gas.initial_gas c.additional_limit
        some (
            charge_account is_empty (with_calldata_gas costs c.spec c.tx.tokens_in_calldata gas)
              (record c { additional_limit = limit })))
      else some (c, DbResult.ok gas)

  -- `before_execution` and the gas of the first frame in `execution`: `none` is the out-of-gas
  -- result that ends the transaction.
  pub first_frame_gas : InitialAndFloorGas → MegaContext E → Option ℕ
  first_frame_gas gas c =
      if ltb c.tx.gas_limit gas.initial_gas
      then none
      else some (sub64 c.tx.gas_limit gas.initial_gas)
