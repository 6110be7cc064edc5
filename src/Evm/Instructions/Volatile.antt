-- ===== src/Evm/Instructions/Volatile.antt =====
-- `volatile_data_ext` of crates/mega-evm/src/evm/instructions.rs: opcodes that may read volatile
-- data. While that is disabled they revert before they run; after they have run, the cap that the
-- tracker gives is set as the limit of compute gas.
use mega_evm.Prelude.{ℕ, Bool, ◌==◌, ◌&&◌, if◌then◌else◌, none, some, ◌>>=◌}
use mega_evm.Limit.Additional.{set_compute_gas_limit}
use mega_evm.Access.Volatile.{VolatileDataAccessType}
use mega_evm.Access.Tracker.{oracle_contract_address}
use mega_evm.Evm.Context.{volatile_access_disabled}
use mega_evm.Evm.Instructions.Machine.{
  Types, Action, Context, Instruction, Vm, run_inner, on_interpreter, inspect,
}
use mega_evm.Evm.Instructions.Compute.{wrap_op_compute_gas}

module _ {T : Types} (V : Vm T) where
  open V use {set_action, into_address, target_address, depth, disabled_revert_data}
  open T use {revm}
  open revm use {revert}

  -- `apply_compute_gas_limit!`.
  unfoldable pub apply_compute_gas_limit : Instruction T
  apply_compute_gas_limit c = elim c.host.volatile_data_tracker.compute_gas_limit [
    | none ↦ some c
    | some cap ↦ do
      limit ← set_compute_gas_limit cap c.host.additional_limit
      some (record c { host = record (c.host) { additional_limit = limit } })
  ]

  unfoldable pub access_disabled : Context T → Bool
  access_disabled c = volatile_access_disabled (depth c.journal) c.host

  -- Ends the frame with `VolatileDataAccessDisabled(access_type)`.
  unfoldable pub revert_disabled : VolatileDataAccessType → Instruction T
  revert_disabled access_type c =
      on_interpreter V
        (set_action
          (Action.return_action revert (disabled_revert_data access_type) c.interpreter.gas))
        c

  -- Runs the instruction, and then sets the cap.
  run_and_detain : Instruction T → Instruction T
  unfolding run_inner apply_compute_gas_limit wrap_op_compute_gas
  run_and_detain original = run_inner V (wrap_op_compute_gas V original) apply_compute_gas_limit

  -- `wrap_op_detain_gas_unconditional!`.
  unfoldable pub detain_gas_unconditional : VolatileDataAccessType → Instruction T → Instruction T
  unfolding run_and_detain access_disabled revert_disabled
  detain_gas_unconditional access_type original c =
      if access_disabled c then revert_disabled access_type c else run_and_detain original c

  -- Whether the word at a place of the stack, if there is one, is the beneficiary's address.
  unfoldable pub targets_beneficiary : ℕ → Context T → Bool
  unfolding inspect
  targets_beneficiary n c = elim (inspect n c.interpreter.stack) [
    | none ↦ Bool.false
    | some word ↦ into_address word == c.host.beneficiary
  ]

  -- Reverts if the target at a place of the stack is the beneficiary and access is disabled.
  unless_disabled_at : ℕ → Instruction T → Instruction T
  unfolding targets_beneficiary access_disabled revert_disabled
  unless_disabled_at n next c =
      if targets_beneficiary n c && access_disabled c
      then revert_disabled VolatileDataAccessType.beneficiary c
      else next c

  -- `wrap_op_detain_gas_conditional!`.
  unfoldable pub detain_gas_conditional : Instruction T → Instruction T
  unfolding run_and_detain unless_disabled_at
  detain_gas_conditional original = unless_disabled_at 0 (run_and_detain original)

  unfoldable pub targets_oracle : Context T → Bool
  targets_oracle c = target_address c.interpreter.rest == oracle_contract_address

  unfoldable pub sload : Instruction T → Instruction T
  unfolding run_and_detain targets_oracle access_disabled revert_disabled
  sload original c =
      if targets_oracle c && access_disabled c
      then revert_disabled VolatileDataAccessType.oracle c
      else run_and_detain original c

  -- `wrap_call_volatile_check!`.
  unfoldable pub call_volatile_check : Instruction T → Instruction T
  unfolding unless_disabled_at
  call_volatile_check inner = unless_disabled_at 1 inner
