-- ===== src/Access/Tracker.antt =====
-- crates/mega-evm/src/access/tracker.rs: what was read, the cap on compute gas that it brings, and
-- the depth from which reading is disabled.
pub mod Disabling
pub mod Cap
use mega_evm.Prelude.{
  ℕ, min, Bool, true, false, not, if◌then◌else◌, leb, ltb, ◌==◌, Option, none, some,
}
use mega_evm.Access.Volatile.{
  VolatileDataAccess, VolatileDataAccessType, beneficiary_balance, oracle_access, no_access,
  is_empty, insert, has_beneficiary_balance_access, has_oracle_access, block_env_only, from,
}

-- A 20-byte address; addresses are only compared.
abbrev pub Address : Type 0
Address = ℕ

-- `ORACLE_CONTRACT_ADDRESS`.
abbrev pub oracle_contract_address : Address
oracle_contract_address = 0x6342000000000000000000000000000000000001

pub record VolatileDataAccessTracker : Type 0 where
  pub volatile_data_accessed : VolatileDataAccess
  pub compute_gas_limit : Option ℕ
  pub block_env_access_limit : ℕ
  pub oracle_access_limit : ℕ
  pub disable_depth : Option ℕ

pub new : ℕ → ℕ → VolatileDataAccessTracker
new block_env_access_limit oracle_access_limit = record {
  volatile_data_accessed = no_access;
  compute_gas_limit = none;
  block_env_access_limit = block_env_access_limit;
  oracle_access_limit = oracle_access_limit;
  disable_depth = none;
}

pub accessed : VolatileDataAccessTracker → Bool
accessed t = not (is_empty t.volatile_data_accessed)

pub get_volatile_data_info : VolatileDataAccessTracker → Option VolatileDataAccess
unfolding accessed
get_volatile_data_info t = if accessed t then some t.volatile_data_accessed else none

pub get_block_env_accesses : VolatileDataAccessTracker → VolatileDataAccess
get_block_env_accesses t = block_env_only t.volatile_data_accessed

apply_or_create_limit : ℕ → VolatileDataAccessTracker → VolatileDataAccessTracker
apply_or_create_limit limit t = elim t.compute_gas_limit [
  | some current_limit ↦ record t { compute_gas_limit = some (min current_limit limit) }
  | none ↦ record t { compute_gas_limit = some limit }
]

-- `self.volatile_data_accessed.insert(flags)`.
insert_access : VolatileDataAccess → VolatileDataAccessTracker → VolatileDataAccessTracker
insert_access flags t = record t { volatile_data_accessed = insert flags t.volatile_data_accessed }

pub mark_block_env_accessed :
    VolatileDataAccessType → VolatileDataAccessTracker → VolatileDataAccessTracker
unfolding apply_or_create_limit insert_access
mark_block_env_accessed access_type t =
    apply_or_create_limit t.block_env_access_limit (insert_access (from access_type) t)

pub has_accessed_beneficiary_balance : VolatileDataAccessTracker → Bool
has_accessed_beneficiary_balance t = has_beneficiary_balance_access t.volatile_data_accessed

pub mark_beneficiary_balance_accessed : VolatileDataAccessTracker → VolatileDataAccessTracker
unfolding apply_or_create_limit insert_access
mark_beneficiary_balance_accessed t =
    apply_or_create_limit t.block_env_access_limit (insert_access beneficiary_balance t)

pub has_accessed_oracle : VolatileDataAccessTracker → Bool
has_accessed_oracle t = has_oracle_access t.volatile_data_accessed

pub check_and_mark_oracle_access :
    Address → VolatileDataAccessTracker → VolatileDataAccessTracker × Bool
unfolding apply_or_create_limit insert_access
check_and_mark_oracle_access address t =
    if address == oracle_contract_address
    then (apply_or_create_limit t.oracle_access_limit (insert_access oracle_access t), true)
    else (t, false)

unfoldable pub disable_access : ℕ → VolatileDataAccessTracker → VolatileDataAccessTracker
disable_access depth t = elim t.disable_depth [
  | some current ↦ if leb current depth then t else record t { disable_depth = some depth }
  | none ↦ record t { disable_depth = some depth }
]

unfoldable pub volatile_access_disabled : ℕ → VolatileDataAccessTracker → Bool
volatile_access_disabled current_depth t = elim t.disable_depth [
  | some d ↦ leb d current_depth
  | none ↦ false
]

pub enable_access : ℕ → VolatileDataAccessTracker → VolatileDataAccessTracker × Bool
enable_access caller_depth t = elim t.disable_depth [
  | none ↦ (t, true)
  | some d ↦ if leb caller_depth d then (record t { disable_depth = none }, true) else (t, false)
]

pub enable_access_if_returning : ℕ → VolatileDataAccessTracker → VolatileDataAccessTracker
enable_access_if_returning current_depth t = elim t.disable_depth [
  | some d ↦ if ltb current_depth d then record t { disable_depth = none } else t
  | none ↦ t
]

pub reset : VolatileDataAccessTracker → VolatileDataAccessTracker
reset t = record t {
  volatile_data_accessed = no_access;
  compute_gas_limit = none;
  disable_depth = none;
}
