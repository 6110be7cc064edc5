-- ===== src/Evm/State.antt =====
-- crates/mega-evm/src/evm/state.rs: the state after a transaction, merged into another one. `none`
-- as a result is a panic.
pub mod Merge
use mega_evm.Prelude.{
  ℕ, Bool, true, false, not, ◌&&◌, ◌||◌, if◌then◌else◌, Option, none, some, ◌>>=◌, ◌>>◌, assert,
  List, map,
}
use mega_evm.Prelude.Maps.{merge_entries}

-- The flags of `AccountStatus`.
pub record AccountStatus : Type 0 where
  pub created : Bool
  pub created_local : Bool
  pub self_destructed : Bool
  pub self_destructed_local : Bool
  pub touched : Bool
  pub loaded_as_not_existing : Bool
  pub cold : Bool

-- `EvmStorageSlot` without its transaction id.
pub record EvmStorageSlot : Type 0 where
  pub original_value : ℕ
  pub present_value : ℕ
  pub is_cold : Bool

-- A hash map, as its entries in the order of an iteration.
abbrev pub EvmStorage : Type 0
EvmStorage = List (ℕ × EvmStorageSlot)

-- `Account` without its transaction id; `Info` is `AccountInfo`.
pub record Account (Info : Type 0) : Type 0 where
  pub info : Info
  pub storage : EvmStorage
  pub status : AccountStatus

abbrev pub EvmState : Type 0 → Type 0
EvmState Info = List (ℕ × Account Info)

abbrev pub mark_slot_cold : EvmStorageSlot → EvmStorageSlot
mark_slot_cold slot = record slot { is_cold = true }

-- A slot of the other storage, at the one that is there.
unfoldable pub merge_slot : Option EvmStorageSlot → EvmStorageSlot → Option EvmStorageSlot
merge_slot none slot_value = some (mark_slot_cold slot_value)
merge_slot (some this_slot) slot_value =
    some (record this_slot { present_value = slot_value.present_value })

unfoldable pub merge_evm_storage : EvmStorage → EvmStorage → Option EvmStorage
unfolding merge_slot merge_entries
merge_evm_storage this other = merge_entries merge_slot this other

unfoldable pub merge_account_status : AccountStatus → AccountStatus → Option AccountStatus
merge_account_status this other =
    assert (not other.self_destructed)
    >> some (record {
      created = this.created || other.created;
      created_local = this.created_local;
      self_destructed = this.self_destructed && not other.created;
      self_destructed_local = this.self_destructed_local;
      touched = this.touched || other.touched;
      loaded_as_not_existing = this.loaded_as_not_existing || other.loaded_as_not_existing;
      cold = this.cold;
    })

module _ {Info : Type 0} (default_account : Account Info) where
  unfoldable pub merge_account_state : Bool → Account Info → Account Info → Option (Account Info)
  unfolding merge_evm_storage merge_account_status
  merge_account_state merge_status this other = do
    storage ← merge_evm_storage this.storage other.storage
    status ←
        if merge_status then merge_account_status this.status other.status else some this.status
    some (record { info = other.info; storage = storage; status = status })

  -- The default account, touched, and cold or not.
  unfoldable pub empty_account : Bool → Account Info
  empty_account cold =
      let status = default_account.status in
      record default_account {
        status = record status { touched = true; cold = cold || status.cold };
      }

  -- The account that takes the place of a self-destructed one.
  unfoldable pub replace_destructed : Option (Account Info) → Account Info → Option (Account Info)
  unfolding empty_account
  replace_destructed this account =
      assert (account.status.created)
      >> some (empty_account (elim this [ none ↦ true | some old ↦ old.status.cold ]))

  -- An account that was not there: cold, with all its slots.
  unfoldable pub insert_account : Account Info → Account Info
  insert_account account =
      let status = account.status in
      record account {
        storage = map (λ (key, slot). (key, mark_slot_cold slot)) account.storage;
        status = record status {
          cold = true;
          created_local = false;
          self_destructed_local = false;
        };
      }

  -- An account of the other state, at the one that is there.
  unfoldable pub merge_account : Bool → Option (Account Info) → Account Info → Option (Account Info)
  unfolding replace_destructed insert_account merge_account_state
  merge_account merge_status this account =
      if account.status.self_destructed then replace_destructed this account else elim this [
        | none ↦ some (insert_account account)
        | some this_account ↦ merge_account_state merge_status this_account account
      ]

  unfoldable pub merge_evm_state_optional_status :
      Bool → EvmState Info → EvmState Info → Option (EvmState Info)
  unfolding merge_account merge_entries
  merge_evm_state_optional_status merge_status this other =
      merge_entries (merge_account merge_status) this other

  unfoldable pub merge_evm_state : EvmState Info → EvmState Info → Option (EvmState Info)
  unfolding merge_evm_state_optional_status
  merge_evm_state this other = merge_evm_state_optional_status true this other
