-- ===== src/Evm/Handler/Intrinsic.antt =====
-- The gas that a transaction pays before it runs, crates/mega-evm/src/evm/execution.rs.
use mega_evm.Prelude.{
  ℕ, ◌+◌, ◌*◌, ◌%◌, ◌<◌, ◌≡◌, refl, ap, ◌∙◌, Bool, true, ltb, if◌then◌else◌, some, arith, u64_mod,
  add64, inl, inr, Bool-cases,
}
use mega_evm.Spec.{MegaSpecId, is_enabled}
use mega_evm.Limit.Events.{Address, DbResult}
use mega_evm.Limit.Additional.{AdditionalLimit, record_compute_gas}
use mega_evm.External.Gas.Cache.{IsCoherent}
use mega_evm.Evm.Context.{MegaContext}
use mega_evm.Evm.Handler.{
  TokenCosts, InitialAndFloorGas, HandlerError, with_calldata_gas, charge_account, validate,
}
use mega_evm.Evm.Handler.AccountPrice.{account_price, add_price, account_lem}

-- What a transaction pays before its account gas, without wrap-around.
abbrev pub intrinsic_gas : TokenCosts → MegaSpecId → ℕ → ℕ → ℕ
intrinsic_gas costs spec tokens initial =
    initial
    + costs.standard_token_cost * 10 * tokens
    + (if is_enabled spec MegaSpecId.rex then 39_000 else 0)

abbrev pub floor_gas_of : TokenCosts → ℕ → ℕ → ℕ
floor_gas_of costs tokens floor = floor + costs.total_cost_floor_per_token * 10 * tokens

-- The sums at 64 bits are the plain ones.
calldata_sum : (a b : ℕ) → a + b < u64_mod → add64 a (b % u64_mod) ≡ a + b
calldata_sum a b h = omega arith

with_calldata_gas_lem :
    (costs : TokenCosts) (spec : MegaSpecId) (tokens : ℕ) (gas : InitialAndFloorGas)
    → intrinsic_gas costs spec tokens gas.initial_gas < u64_mod
    → floor_gas_of costs tokens gas.floor_gas < u64_mod
    → with_calldata_gas costs spec tokens gas ≡ record {
      initial_gas = intrinsic_gas costs spec tokens gas.initial_gas;
      floor_gas = floor_gas_of costs tokens gas.floor_gas;
    }
with_calldata_gas_lem costs spec tokens gas hi hf =
    let a = calldata_sum gas.initial_gas (costs.standard_token_cost * 10 * tokens) (omega arith) in
    let b = calldata_sum gas.floor_gas (costs.total_cost_floor_per_token * 10 * tokens) hf in
    rw (a, b)
      (ap (λ n. record { initial_gas = n; floor_gas = floor_gas_of costs tokens gas.floor_gas })
        (ground arith))

module _ {ℓ} {E : Type ℓ} where
  charge_account_lem :
      (is_empty : Address → DbResult E Bool) (total : InitialAndFloorGas) (c : MegaContext E)
      → IsCoherent c.dynamic_storage_gas_cost.salt_env
          c.dynamic_storage_gas_cost.bucket_cost_multipliers
      → c.dynamic_storage_gas_cost.spec ≡ c.spec
      → let (c', r) = charge_account is_empty total c in
        (r ≡ (
          if ltb c.tx.gas_limit total.initial_gas
          then DbResult.err
              (HandlerError.call_gas_cost_more_than_gas_limit c.tx.gas_limit total.initial_gas)
          else add_price total (
              account_price is_empty c.spec c.dynamic_storage_gas_cost.salt_env c.tx.transfers_value
                c.tx.kind)))
        × (c'.additional_limit ≡ c.additional_limit)
  charge_account_lem is_empty total c coherent same =
      elim (Bool-cases (ltb c.tx.gas_limit total.initial_gas)) [
        | inl over ↦ rw over (refl, refl)
        | inr fits ↦
            rw fits (account_lem total is_empty c.tx.transfers_value c.tx.kind c coherent same)
      ]

  validate_charge :
      (costs : TokenCosts) (is_empty : Address → DbResult E Bool) (gas : InitialAndFloorGas)
      (c : MegaContext E) (within : Bool) (limit : AdditionalLimit)
      → is_enabled c.spec MegaSpecId.mini_rex ≡ true
      → record_compute_gas gas.initial_gas c.additional_limit ≡ some (within, limit)
      → validate costs is_empty (DbResult.ok gas) c
        ≡ some (
            charge_account is_empty
              (with_calldata_gas costs c.spec c.tx.tokens_in_calldata gas)
              (record c { additional_limit = limit }))
  unfolding validate
  validate_charge costs is_empty gas c within limit enabled recorded = rw (enabled, recorded)

  -- What `validate` answers from MiniRex on.
  abbrev pub validated :
      TokenCosts
      → (Address → DbResult E Bool)
      → InitialAndFloorGas
      → MegaContext E
      → DbResult (HandlerError E) InitialAndFloorGas
  validated costs is_empty gas c =
      let intrinsic = intrinsic_gas costs c.spec c.tx.tokens_in_calldata gas.initial_gas in
      if ltb c.tx.gas_limit intrinsic
      then DbResult.err (HandlerError.call_gas_cost_more_than_gas_limit c.tx.gas_limit intrinsic)
      else add_price
          (record {
            initial_gas = intrinsic;
            floor_gas = floor_gas_of costs c.tx.tokens_in_calldata gas.floor_gas;
          })
          (account_price is_empty c.spec c.dynamic_storage_gas_cost.salt_env c.tx.transfers_value
            c.tx.kind)

  -- From MiniRex on, once revm's own validation gives its gas, its compute gas is recorded without
  -- a panic, the sums fit in 64 bits and the cache of prices is coherent: `validate` returns. It
  -- records as compute gas just the gas that revm computed, and no storage gas. It adds 10 times
  -- the token costs for each token of the calldata and, from REX on, 39,000; it rejects the
  -- transaction if its gas limit is below that sum; and it then adds the price of the account or
  -- contract that the transaction creates, at the capacity of its bucket.
  pub validate-validated :
      (costs : TokenCosts) (is_empty : Address → DbResult E Bool) (gas : InitialAndFloorGas)
      (c : MegaContext E) (within : Bool) (limit : AdditionalLimit)
      → is_enabled c.spec MegaSpecId.mini_rex ≡ true
      → record_compute_gas gas.initial_gas c.additional_limit ≡ some (within, limit)
      → IsCoherent c.dynamic_storage_gas_cost.salt_env
          c.dynamic_storage_gas_cost.bucket_cost_multipliers
      → c.dynamic_storage_gas_cost.spec ≡ c.spec
      → intrinsic_gas costs c.spec c.tx.tokens_in_calldata gas.initial_gas < u64_mod
      → floor_gas_of costs c.tx.tokens_in_calldata gas.floor_gas < u64_mod
      → (c' : MegaContext E) × (validate costs is_empty (DbResult.ok gas) c
          ≡ some (c', validated costs is_empty gas c))
        × (c'.additional_limit ≡ limit)
  validate-validated costs is_empty gas c within limit enabled recorded coherent same hi hf =
      let tokens = c.tx.tokens_in_calldata in
      let total = with_calldata_gas_lem costs c.spec tokens gas hi hf in
      let c1 : MegaContext E = record c { additional_limit = limit } in
      let t : InitialAndFloorGas = record {
        initial_gas = intrinsic_gas costs c.spec tokens gas.initial_gas;
        floor_gas = floor_gas_of costs tokens gas.floor_gas;
      } in
      let (answer', kept) = charge_account_lem is_empty t c1 coherent same in
      (
        (charge_account is_empty t c1).0,
        validate_charge costs is_empty gas c within limit enabled recorded
            ∙ ap (λ x. some (charge_account is_empty x c1)) total
            ∙ ap (λ r. some ((charge_account is_empty t c1).0, r)) answer',
        kept,
      )
