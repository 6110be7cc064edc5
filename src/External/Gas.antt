-- ===== src/External/Gas.antt =====
-- crates/mega-evm/src/external/gas.rs and salt.rs: `DynamicGasCost`, storage gas priced by the
-- capacity of SALT buckets. The environment is a parameter, the interface `SaltEnv`. The cache, a
-- hash map in the source, is an association list.
pub mod Cache
pub mod Prices
use mega_evm.Prelude.{
  ℕ, ◌-◌, ◌/◌, Bool, Option, none, some, List, [], ◌∷◌, map, ◌==◌, if◌then◌else◌, mul64, sub64,
}
use mega_evm.Spec.{MegaSpecId, is_enabled}
use mega_evm.Constants.MiniRex
use mega_evm.Constants.Rex
use mega_evm.Limit.Events.{Address, DbResult}

-- `MIN_BUCKET_SIZE`.
abbrev pub min_bucket_size : ℕ
min_bucket_size = 256

-- The trait `SaltEnv`, for one snapshot of the external state.
pub record SaltEnv {ℓ} (E : Type ℓ) : Type ℓ where
  pub get_bucket_capacity : ℕ → DbResult E ℕ
  pub bucket_id_for_account : Address → ℕ
  pub bucket_id_for_slot : Address → ℕ → ℕ

-- `impl SaltEnv for EmptyExternalEnv`.
pub empty_external_env {ℓ} : {E : Type ℓ} → SaltEnv E
empty_external_env = record {
  get_bucket_capacity = λ _. DbResult.ok min_bucket_size;
  bucket_id_for_account = λ _. 0;
  bucket_id_for_slot = λ _ _. 0;
}

-- `get` of the hash map.
unfoldable pub lookup : ℕ → List (ℕ × ℕ) → Option ℕ
lookup bucket_id [] = none
lookup bucket_id ((id, multiplier) ∷ rest) =
    let later = lookup bucket_id rest in if bucket_id == id then some multiplier else later

pub record DynamicGasCost {ℓ} (E : Type ℓ) : Type ℓ where
  pub spec : MegaSpecId
  pub parent_block : ℕ
  pub salt_env : SaltEnv E
  pub bucket_cost_multipliers : List (ℕ × ℕ)

-- `base * (multiplier - 1)` from REX on, and `flat * multiplier` before.
abbrev pub priced : MegaSpecId → ℕ → ℕ → ℕ → ℕ
priced spec base flat multiplier =
    if is_enabled spec MegaSpecId.rex
    then mul64 base (sub64 multiplier 1)
    else mul64 flat multiplier

module _ {ℓ} {E : Type ℓ} where
  unfoldable pub new : MegaSpecId → SaltEnv E → ℕ → DynamicGasCost E
  new spec salt_env parent_block = record {
    spec = spec;
    parent_block = parent_block;
    salt_env = salt_env;
    bucket_cost_multipliers = [];
  }

  unfoldable pub reset : ℕ → DynamicGasCost E → DynamicGasCost E
  reset parent_block d = record d { bucket_cost_multipliers = []; parent_block = parent_block }

  -- `on_new_block`, of the block's number.
  unfoldable pub on_new_block : ℕ → DynamicGasCost E → DynamicGasCost E
  unfolding reset
  on_new_block number d = reset (number - 1) d

  pub get_bucket_ids : DynamicGasCost E → List ℕ
  get_bucket_ids d = map (λ entry. entry.0) d.bucket_cost_multipliers

  -- The entry of the cache, or else the answer of the environment, which is put in the cache.
  unfoldable pub load_bucket_cost_multiplier :
      ℕ → DynamicGasCost E → DynamicGasCost E × DbResult E ℕ
  unfolding lookup
  load_bucket_cost_multiplier bucket_id d = elim (lookup bucket_id d.bucket_cost_multipliers) [
    | some multiplier ↦ (d, DbResult.ok multiplier)
    | none ↦ elim (d.salt_env.get_bucket_capacity bucket_id) [
      | DbResult.err e ↦ (d, DbResult.err e)
      | DbResult.ok capacity ↦
          let multiplier = capacity / min_bucket_size in
          (
            record d {
              bucket_cost_multipliers = (bucket_id, multiplier) ∷ d.bucket_cost_multipliers;
            },
            DbResult.ok multiplier,
          )
    ]
  ]

  -- What follows `self.load_bucket_cost_multiplier(bucket_id)?`.
  abbrev pub price_loaded : MegaSpecId → ℕ → ℕ → DbResult E ℕ → DbResult E ℕ
  price_loaded spec base flat (DbResult.err e) = DbResult.err e
  price_loaded spec base flat (DbResult.ok multiplier) =
      DbResult.ok (priced spec base flat multiplier)

  abbrev pub price_bucket : ℕ → ℕ → ℕ → DynamicGasCost E → DynamicGasCost E × DbResult E ℕ
  price_bucket base flat bucket_id d =
      let (d', loaded) = load_bucket_cost_multiplier bucket_id d in
      (d', price_loaded d.spec base flat loaded)

  unfoldable pub sstore_set_gas : Address → ℕ → DynamicGasCost E → DynamicGasCost E × DbResult E ℕ
  unfolding load_bucket_cost_multiplier is_enabled
  sstore_set_gas address key d =
      price_bucket Rex.sstore_set_storage_gas_base MiniRex.sstore_set_storage_gas
        (d.salt_env.bucket_id_for_slot address key) d

  unfoldable pub new_account_gas : Address → DynamicGasCost E → DynamicGasCost E × DbResult E ℕ
  unfolding load_bucket_cost_multiplier is_enabled
  new_account_gas address d =
      price_bucket Rex.new_account_storage_gas_base MiniRex.new_account_storage_gas
        (d.salt_env.bucket_id_for_account address) d

  unfoldable pub create_contract_gas : Address → DynamicGasCost E → DynamicGasCost E × DbResult E ℕ
  unfolding load_bucket_cost_multiplier is_enabled
  create_contract_gas address d =
      price_bucket Rex.contract_creation_storage_gas_base MiniRex.new_account_storage_gas
        (d.salt_env.bucket_id_for_account address) d
