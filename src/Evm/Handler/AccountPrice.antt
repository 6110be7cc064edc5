-- ===== src/Evm/Handler/AccountPrice.antt =====
-- The price of the account that a transaction creates, crates/mega-evm/src/evm/execution.rs.
use mega_evm.Prelude.{
  ℕ, ◌≡◌, refl, ap, ◌∙◌, Bool, true, false, if◌then◌else◌, add64, inl, inr, Bool-cases,
}
use mega_evm.Spec.{MegaSpecId, is_enabled}
use mega_evm.Limit.Events.{Address, DbResult}
use mega_evm.External.Gas.{SaltEnv, DynamicGasCost}
use mega_evm.External.Gas.Cache.{IsCoherent}
use mega_evm.External.Gas.Prices.{Query, stateless, ask, ask-Answered}
use mega_evm.Evm.SystemTx.{TxKind}
use mega_evm.Evm.Context.{MegaContext, new_account_storage_gas, create_contract_storage_gas, answer}
use mega_evm.Evm.Handler.{
  InitialAndFloorGas, HandlerError, account_storage_gas, called_storage_gas, add_storage_gas,
}

module _ {ℓ} {E : Type ℓ} where
  -- A price for an address that cannot be had is an error that names the address.
  abbrev pub priced_at : Address → DbResult E ℕ → DbResult (HandlerError E) ℕ
  priced_at address (DbResult.ok gas) = DbResult.ok gas
  priced_at address (DbResult.err e) = DbResult.err (HandlerError.failed_to_get_storage_gas address)

  abbrev pub called_price :
      MegaSpecId → SaltEnv E → Address → DbResult E Bool → DbResult (HandlerError E) ℕ
  called_price spec env address (DbResult.err e) = DbResult.err (HandlerError.database e)
  called_price spec env address (DbResult.ok true) =
      priced_at address (stateless spec env (Query.account address))
  called_price spec env address (DbResult.ok false) = DbResult.ok 0

  -- The price of the account that a transaction creates, from the environment: of a contract from
  -- REX on and of an account before, and for a call only if it sends value to an empty account.
  abbrev pub account_price :
      (Address → DbResult E Bool)
      → MegaSpecId
      → SaltEnv E
      → Bool
      → TxKind
      → DbResult (HandlerError E) ℕ
  account_price is_empty spec env transfers_value (TxKind.create address) = priced_at address (
      stateless spec env
        (if is_enabled spec MegaSpecId.rex then Query.contract address else Query.account address))
  account_price is_empty spec env transfers_value (TxKind.call address) =
      if transfers_value then called_price spec env address (is_empty address) else DbResult.ok 0

  abbrev pub add_price :
      InitialAndFloorGas
      → DbResult (HandlerError E) ℕ
      → DbResult (HandlerError E) InitialAndFloorGas
  add_price gas (DbResult.err e) = DbResult.err e
  add_price gas (DbResult.ok price) =
      DbResult.ok (record gas { initial_gas = add64 gas.initial_gas price })

  answered :
      (gas : InitialAndFloorGas) (address : Address) (cost : DynamicGasCost E) (r : DbResult E ℕ)
      (c : MegaContext E)
      → (add_storage_gas gas (DbResult.ok (address, (answer (cost, r) c).1))
          ≡ add_price gas (priced_at address r))
        × ((answer (cost, r) c).0.additional_limit ≡ c.additional_limit)
  answered gas address cost (DbResult.ok g) c = (refl, refl)
  answered gas address cost (DbResult.err e) c = (refl, refl)

  new_account_lem :
      (gas : InitialAndFloorGas) (address : Address) (c : MegaContext E)
      → IsCoherent c.dynamic_storage_gas_cost.salt_env
          c.dynamic_storage_gas_cost.bucket_cost_multipliers
      → c.dynamic_storage_gas_cost.spec ≡ c.spec
      → let (c', r) = new_account_storage_gas address c in
        (add_storage_gas gas (DbResult.ok (address, r))
          ≡ add_price gas (
              priced_at address
                (stateless c.spec c.dynamic_storage_gas_cost.salt_env (Query.account address))))
        × (c'.additional_limit ≡ c.additional_limit)
  unfolding new_account_storage_gas
  new_account_lem gas address c coherent same =
      let asked = ask-Answered (Query.account address) c.dynamic_storage_gas_cost coherent in
      let (cost, r) = ask (Query.account address) c.dynamic_storage_gas_cost in
      let (a, b) = answered gas address cost r c in
      (
        a
            ∙ ap (λ x. add_price gas (priced_at address x)) asked.answer
            ∙ ap
                (λ s. add_price gas (
                  priced_at address
                    (stateless s c.dynamic_storage_gas_cost.salt_env (Query.account address))))
                same,
        b,
      )

  contract_lem :
      (gas : InitialAndFloorGas) (address : Address) (c : MegaContext E)
      → IsCoherent c.dynamic_storage_gas_cost.salt_env
          c.dynamic_storage_gas_cost.bucket_cost_multipliers
      → c.dynamic_storage_gas_cost.spec ≡ c.spec
      → let (c', r) = create_contract_storage_gas address c in
        (add_storage_gas gas (DbResult.ok (address, r))
          ≡ add_price gas (
              priced_at address
                (stateless c.spec c.dynamic_storage_gas_cost.salt_env (Query.contract address))))
        × (c'.additional_limit ≡ c.additional_limit)
  unfolding create_contract_storage_gas
  contract_lem gas address c coherent same =
      let asked = ask-Answered (Query.contract address) c.dynamic_storage_gas_cost coherent in
      let (cost, r) = ask (Query.contract address) c.dynamic_storage_gas_cost in
      let (a, b) = answered gas address cost r c in
      (
        a
            ∙ ap (λ x. add_price gas (priced_at address x)) asked.answer
            ∙ ap
                (λ s. add_price gas (
                  priced_at address
                    (stateless s c.dynamic_storage_gas_cost.salt_env (Query.contract address))))
                same,
        b,
      )

  called_lem :
      (gas : InitialAndFloorGas) (address : Address) (empty : DbResult E Bool) (c : MegaContext E)
      → IsCoherent c.dynamic_storage_gas_cost.salt_env
          c.dynamic_storage_gas_cost.bucket_cost_multipliers
      → c.dynamic_storage_gas_cost.spec ≡ c.spec
      → let (c', r) = called_storage_gas address empty c in
        (add_storage_gas gas r
          ≡ add_price gas (called_price c.spec c.dynamic_storage_gas_cost.salt_env address empty))
        × (c'.additional_limit ≡ c.additional_limit)
  called_lem gas address (DbResult.err e) c coherent same = (refl, refl)
  called_lem gas address (DbResult.ok true) c coherent same =
      new_account_lem gas address c coherent same
  called_lem gas address (DbResult.ok false) c coherent same = (refl, refl)

  pub account_lem :
      (gas : InitialAndFloorGas) (is_empty : Address → DbResult E Bool) (transfers_value : Bool)
      (kind : TxKind) (c : MegaContext E)
      → IsCoherent c.dynamic_storage_gas_cost.salt_env
          c.dynamic_storage_gas_cost.bucket_cost_multipliers
      → c.dynamic_storage_gas_cost.spec ≡ c.spec
      → let (c', r) = account_storage_gas is_empty transfers_value kind c in
        (add_storage_gas gas r
          ≡ add_price gas (
              account_price is_empty c.spec c.dynamic_storage_gas_cost.salt_env transfers_value
                kind))
        × (c'.additional_limit ≡ c.additional_limit)
  account_lem gas is_empty transfers_value (TxKind.create address) c coherent same =
      elim (Bool-cases (is_enabled c.spec MegaSpecId.rex)) [
        | inl rex ↦ rw rex (contract_lem gas address c coherent same)
        | inr before ↦ rw before (new_account_lem gas address c coherent same)
      ]
  account_lem gas is_empty true (TxKind.call address) c coherent same =
      called_lem gas address (is_empty address) c coherent same
  account_lem gas is_empty false (TxKind.call address) c coherent same = (refl, refl)
