-- ===== src/External/Gas/Prices.antt =====
-- The cache of crates/mega-evm/src/external/gas.rs is transparent: prices are those of the
-- environment's capacities.
use mega_evm.Prelude.{
  ℕ, suc, ◌-◌, ◌*◌, ◌/◌, ◌≤◌, ◌<◌, ◌≡◌, refl, ◌∙◌, ap, true, List, [], ◌∷◌, map, u64_mod, arith,
  mul64, sub64,
}
use mega_evm.Spec.{MegaSpecId, is_enabled}
use mega_evm.Constants.MiniRex
use mega_evm.Constants.Rex
use mega_evm.Limit.Events.{Address, DbResult}
use mega_evm.External.Gas.{
  SaltEnv, DynamicGasCost, new, reset, on_new_block, priced, price_bucket, price_loaded,
  sstore_set_gas, new_account_gas, create_contract_gas, min_bucket_size,
}
use mega_evm.External.Gas.Cache.{multiplier_of, IsCoherent, nil-IsCoherent, load-Loaded}

-- The three questions the instructions ask.
pub data Query : Type 0 where
  sstore : Address → ℕ → Query
  account : Address → Query
  contract : Address → Query

module _ {ℓ} {E : Type ℓ} where
  -- The price of a bucket by its capacity, without a cache.
  abbrev pub price_of : MegaSpecId → ℕ → ℕ → DbResult E ℕ → DbResult E ℕ
  price_of spec base flat (DbResult.err e) = DbResult.err e
  price_of spec base flat (DbResult.ok capacity) =
      DbResult.ok (priced spec base flat (capacity / min_bucket_size))

  abbrev pub stateless : MegaSpecId → SaltEnv E → Query → DbResult E ℕ
  stateless spec env (Query.sstore address key) =
      price_of spec Rex.sstore_set_storage_gas_base MiniRex.sstore_set_storage_gas
        (env.get_bucket_capacity (env.bucket_id_for_slot address key))
  stateless spec env (Query.account address) =
      price_of spec Rex.new_account_storage_gas_base MiniRex.new_account_storage_gas
        (env.get_bucket_capacity (env.bucket_id_for_account address))
  stateless spec env (Query.contract address) =
      price_of spec Rex.contract_creation_storage_gas_base MiniRex.new_account_storage_gas
        (env.get_bucket_capacity (env.bucket_id_for_account address))

  abbrev pub ask : Query → DynamicGasCost E → DynamicGasCost E × DbResult E ℕ
  ask (Query.sstore address key) d = sstore_set_gas address key d
  ask (Query.account address) d = new_account_gas address d
  ask (Query.contract address) d = create_contract_gas address d

  abbrev pub ask_all : List Query → DynamicGasCost E → List (DbResult E ℕ)
  ask_all [] d = []
  ask_all (q ∷ qs) d = let (d', answer) = ask q d in answer ∷ ask_all qs d'

  -- A question is answered as without the cache, which stays coherent.
  pub record Answered (d : DynamicGasCost E) (expected : DbResult E ℕ)
      (result : DynamicGasCost E × DbResult E ℕ) : Type ℓ where
    pub answer : result.1 ≡ expected
    pub same_spec : result.0.spec ≡ d.spec
    pub same_env : result.0.salt_env ≡ d.salt_env
    pub coherent : IsCoherent d.salt_env result.0.bucket_cost_multipliers

  price_of_lem :
      (spec : MegaSpecId) (base flat : ℕ) (r : DbResult E ℕ)
      → price_loaded spec base flat (multiplier_of r) ≡ price_of spec base flat r
  price_of_lem spec base flat (DbResult.ok c) = refl
  price_of_lem spec base flat (DbResult.err e) = refl

  price_bucket-Answered :
      (base flat id : ℕ) (d : DynamicGasCost E)
      → IsCoherent d.salt_env d.bucket_cost_multipliers
      → Answered d
          (price_of d.spec base flat (d.salt_env.get_bucket_capacity id))
          (price_bucket base flat id d)
  price_bucket-Answered base flat id d c =
      let l = load-Loaded d id c in
      record {
        answer =
            ap (price_loaded d.spec base flat) l.answer
            ∙ price_of_lem d.spec base flat (d.salt_env.get_bucket_capacity id);
        same_spec = l.same_spec;
        same_env = l.same_env;
        coherent = l.coherent;
      }

  pub ask-Answered :
      (q : Query) (d : DynamicGasCost E)
      → IsCoherent d.salt_env d.bucket_cost_multipliers
      → Answered d (stateless d.spec d.salt_env q) (ask q d)
  unfolding sstore_set_gas new_account_gas create_contract_gas
  ask-Answered (Query.sstore address key) d c =
      price_bucket-Answered Rex.sstore_set_storage_gas_base MiniRex.sstore_set_storage_gas
        (d.salt_env.bucket_id_for_slot address key) d c
  ask-Answered (Query.account address) d c =
      price_bucket-Answered Rex.new_account_storage_gas_base MiniRex.new_account_storage_gas
        (d.salt_env.bucket_id_for_account address) d c
  ask-Answered (Query.contract address) d c =
      price_bucket-Answered Rex.contract_creation_storage_gas_base MiniRex.new_account_storage_gas
        (d.salt_env.bucket_id_for_account address) d c

  ask_all-coherent :
      (qs : List Query) (d : DynamicGasCost E)
      → IsCoherent d.salt_env d.bucket_cost_multipliers
      → ask_all qs d ≡ map (stateless d.spec d.salt_env) qs
  ask_all-coherent [] d c = refl
  ask_all-coherent (q ∷ qs) d c =
      let a = ask-Answered q d c in
      let rest = ask_all-coherent qs (ask q d).0 (rw a.same_env a.coherent) in
      rw (a.answer, rest, a.same_spec, a.same_env)

  -- After `new`, each question of any sequence is answered as if the environment were read anew:
  -- the cache changes no price and hides no error. So it is after `on_new_block` in any state.
  pub ask_all-stateless :
      (qs : List Query) (spec : MegaSpecId) (env : SaltEnv E) (number : ℕ) (d : DynamicGasCost E)
      → (ask_all qs (new spec env number) ≡ map (stateless spec env) qs)
        × (ask_all qs (on_new_block number d) ≡ map (stateless d.spec d.salt_env) qs)
  unfolding new on_new_block reset
  ask_all-stateless qs spec env number d = (
    ask_all-coherent qs (new spec env number) (nil-IsCoherent env),
    ask_all-coherent qs (on_new_block number d) (nil-IsCoherent d.salt_env),
  )

mul64-eq : (a b : ℕ) → a * b < u64_mod → mul64 a b ≡ a * b
mul64-eq a b h = omega arith

priced-rex :
    (spec : MegaSpecId) (base flat capacity : ℕ)
    → is_enabled spec MegaSpecId.rex ≡ true
    → min_bucket_size ≤ capacity
    → capacity < u64_mod
    → base * ((capacity - min_bucket_size) / min_bucket_size) < u64_mod
    → priced spec base flat (capacity / min_bucket_size)
      ≡ base * ((capacity - min_bucket_size) / min_bucket_size)
priced-rex spec base flat capacity enabled enough small fits =
    let q = (capacity - min_bucket_size) / min_bucket_size in
    let e : capacity / min_bucket_size ≡ suc q = omega arith in
    let less : sub64 (suc q) 1 ≡ q = omega arith in rw (enabled, e, less) (mul64-eq base q fits)

-- From REX on, with a coherent cache, a slot in a bucket of minimum capacity is set at no cost,
-- and each further multiple of 256 slots costs 20,000 gas, as long as the product fits in 64 bits.
pub sstore_set_gas-rex {ℓ} :
    {E : Type ℓ} (address key capacity : ℕ) (d : DynamicGasCost E)
    → IsCoherent d.salt_env d.bucket_cost_multipliers
    → is_enabled d.spec MegaSpecId.rex ≡ true
    → d.salt_env.get_bucket_capacity (d.salt_env.bucket_id_for_slot address key)
      ≡ DbResult.ok capacity
    → min_bucket_size ≤ capacity
    → capacity < u64_mod
    → 20_000 * ((capacity - min_bucket_size) / min_bucket_size) < u64_mod
    → (sstore_set_gas address key d).1
      ≡ DbResult.ok (20_000 * ((capacity - min_bucket_size) / min_bucket_size))
sstore_set_gas-rex address key capacity d c enabled got enough small fits =
    let a = ask-Answered (Query.sstore address key) d c in
    a.answer
    ∙ ap (price_of d.spec Rex.sstore_set_storage_gas_base MiniRex.sstore_set_storage_gas) got
    ∙ ap DbResult.ok (
        priced-rex d.spec Rex.sstore_set_storage_gas_base MiniRex.sstore_set_storage_gas capacity
          enabled enough small fits)
