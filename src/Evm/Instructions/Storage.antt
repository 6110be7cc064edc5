-- ===== src/Evm/Instructions/Storage.antt =====
-- `storage_gas_ext` of crates/mega-evm/src/evm/instructions.rs: the storage gas of calls, creates,
-- logs and SSTORE, charged before revm's instruction with its compute gas.
use mega_evm.Prelude.{
  ℕ, ◌*◌, ◌==◌, ltb, Bool, true, false, not, ◌&&◌, Option, none, some, ◌>>=◌, if◌then◌else◌,
  u64_mod, checked_add64,
}
use mega_evm.Spec.{MegaSpecId, is_enabled}
use mega_evm.Limit.Events.{Address}
use mega_evm.Evm.Context.{
  sstore_set_storage_gas, new_account_storage_gas, create_contract_storage_gas,
}
use mega_evm.Evm.Instructions.Machine.{
  Types, Instruction, Vm, run_inner, charge, or_fatal, priced_or_fatal, with_element, with_usize,
  on_interpreter,
}
use mega_evm.Evm.Instructions.Compute.{wrap_op_compute_gas}

-- `a.checked_mul(b)`.
unfoldable pub checked_mul64 : ℕ → ℕ → Option ℕ
checked_mul64 a b = if ltb (a * b) u64_mod then some (a * b) else none

module _ {T : Types} (V : Vm T) where
  open V use {
    halt_oog, into_address, target_address, memory_slice, keccak256, create_address,
    create2_address, log_topic_gas, log_data_gas, inspect_account, inspect_storage,
  }

  -- The inner instruction with its compute gas, at the end of each handler.
  unfoldable pub inner_compute : Instruction T → Instruction T
  unfolding run_inner wrap_op_compute_gas
  inner_compute original = run_inner V (wrap_op_compute_gas V original) some

  -- Charges for a new account, if the call makes one.
  charge_new_account : Address → Bool → Instruction T → Instruction T
  unfolding charge priced_or_fatal new_account_storage_gas
  charge_new_account to creates next c =
      if creates
      then priced_or_fatal V (new_account_storage_gas to c.host) (λ gas. charge V gas next) c
      else next c

  -- Whether the call sends value: its third element is not zero.
  with_transfer : Bool → (Bool → Instruction T) → Instruction T
  unfolding with_element
  with_transfer true next = with_element V 2 (λ value. next (not (value == 0)))
  with_transfer false next = next false

  -- `wrap_call_with_storage_gas!`.
  unfoldable pub wrap_call_with_storage_gas : Bool → Instruction T → Instruction T
  unfolding inner_compute charge_new_account with_transfer with_element or_fatal
  wrap_call_with_storage_gas has_transfer_logic original = with_element V 1 (λ word c.
      let to = into_address word in
      or_fatal V (inspect_account c.host.spec to c.journal)
        (λ (_, is_empty). with_transfer has_transfer_logic (λ has_transfer.
          charge_new_account to (is_empty && has_transfer) (inner_compute original)))
        c)

  -- `memory.slice_len`, which may panic, and its hash.
  with_memory_hash : ℕ → ℕ → (ℕ → Instruction T) → Instruction T
  with_memory_hash offset len next c = do
    code ← memory_slice offset len c.interpreter.rest
    next (keccak256 code) c

  -- The address of the contract to be.
  with_created_address : Bool → Address → ℕ → (Address → Instruction T) → Instruction T
  unfolding with_element with_usize with_memory_hash
  with_created_address true creator nonce next = with_element V 1 (λ initcode_offset.
      with_element V 2 (λ initcode_len. with_usize V initcode_offset (λ offset.
        with_usize V initcode_len (λ len. with_memory_hash offset len (λ initcode_hash.
          with_element V 3 (λ salt. next (create2_address creator salt initcode_hash)))))))
  with_created_address false creator nonce next = next (create_address creator nonce)

  -- Rex distinguishes the creation of a contract from that of an account.
  charge_contract : Address → Instruction T → Instruction T
  unfolding charge priced_or_fatal new_account_storage_gas create_contract_storage_gas is_enabled
  charge_contract created next c =
      priced_or_fatal V
        (if is_enabled c.host.spec MegaSpecId.rex
          then create_contract_storage_gas created c.host
          else new_account_storage_gas created c.host)
        (λ gas. charge V gas next) c

  -- `create::<IS_CREATE2>`.
  unfoldable pub create : Bool → Instruction T → Instruction T
  unfolding inner_compute with_created_address charge_contract or_fatal
  create is_create2 original c =
      let creator = target_address c.interpreter.rest in
      or_fatal V (inspect_account c.host.spec creator c.journal)
        (λ (nonce, _).
          with_created_address is_create2 creator nonce
            (λ created. charge_contract created (inner_compute original)))
        c

  -- The storage gas of a log; `none` is an overflow.
  unfoldable pub log_storage_cost : ℕ → ℕ → Option ℕ
  unfolding checked_mul64
  log_storage_cost num_topics len = do
    topic ← checked_mul64 (log_topic_gas * 10) num_topics
    cost ← checked_mul64 (log_data_gas * 10) len
    checked_add64 cost topic

  -- `log::<N>`.
  unfoldable pub log : ℕ → Instruction T → Instruction T
  unfolding inner_compute with_element with_usize charge log_storage_cost
  log num_topics original = with_element V 1 (λ word. with_usize V word (λ len c.
      elim (log_storage_cost num_topics len) [
        | none ↦ on_interpreter V halt_oog c
        | some gas ↦ charge V gas (inner_compute original) c
      ]))

  -- Charges for a slot that goes from zero to a value.
  unfoldable pub charge_slot : Address → ℕ → Bool → Instruction T → Instruction T
  unfolding charge priced_or_fatal sstore_set_storage_gas
  charge_slot target index sets next c =
      if sets
      then priced_or_fatal V (sstore_set_storage_gas target index c.host) (λ gas. charge V gas next)
          c
      else next c

  -- What a write finds: the slot, its original and its present value, and the value to write.
  unfoldable pub with_slot : (ℕ → ℕ → ℕ → ℕ → Instruction T) → Instruction T
  unfolding with_element or_fatal
  with_slot next = with_element V 0 (λ index c.
      or_fatal V (inspect_storage c.host.spec (target_address c.interpreter.rest) index c.journal)
        (λ (original_value, present_value).
          with_element V 1 (next index original_value present_value))
        c)

  -- `sstore`.
  unfoldable pub sstore : Instruction T → Instruction T
  unfolding inner_compute with_slot charge_slot
  sstore original = with_slot (λ index original_value present_value new_value c.
      charge_slot (target_address c.interpreter.rest) index
        (original_value == 0 && present_value == 0 && not (new_value == 0)) (inner_compute original)
        c)
