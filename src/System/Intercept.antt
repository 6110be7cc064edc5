-- ===== src/System/Intercept.antt =====
-- crates/mega-evm/src/system/intercept.rs: calls of system contracts, answered before a frame is
-- made. `none` as a result is a panic; `none` as an answer lets the call go on.
pub mod AccessControl
pub mod Sandboxed
pub mod Keeps
use mega_evm.Prelude.{ℕ, Bool, false, not, ◌||◌, ◌==◌, if◌then◌else◌, Option, none, some, ◌>>=◌}
use mega_evm.Spec.{MegaSpecId, is_enabled}
use mega_evm.Limit.Events.{Address}
use mega_evm.Limit.Revm.{Revm, FrameResult}
use mega_evm.Limit.Additional.{AdditionalLimit}
use mega_evm.Limit.ComputeGas as ComputeGas
use mega_evm.Access.Tracker.{
  VolatileDataAccessTracker, disable_access, enable_access, volatile_access_disabled,
  oracle_contract_address,
}

abbrev pub keyless_deploy_address : Address
keyless_deploy_address = 0x6342000000000000000000000000000000000003

abbrev pub access_control_address : Address
access_control_address = 0x6342000000000000000000000000000000000004

abbrev pub limit_control_address : Address
limit_control_address = 0x6342000000000000000000000000000000000005

-- `CallInputs`, with the call's input as bytes and the answer of `transfer_value()`.
pub record CallInputs (R : Revm) : Type 0 where
  pub target_address : Address
  pub caller : Address
  pub transfer_value : Option ℕ
  pub input : R.Bytes
  pub gas_limit : ℕ
  pub return_memory_offset : ℕ × ℕ

-- The generated bindings of the Solidity interfaces, `InstructionResult::Return`, and the hint of
-- the oracle's environment `W`.
pub record Bindings (R : Revm) (W : Type 0) : Type 0 where
  pub return_ : R.InstructionResult
  pub send_hint : R.Bytes → Option (ℕ × R.Bytes)
  pub keyless_deploy : R.Bytes → Option (R.Bytes × ℕ)
  pub is_disable_volatile : R.Bytes → Bool
  pub is_enable_volatile : R.Bytes → Bool
  pub is_volatile_query : R.Bytes → Bool
  pub is_remaining_query : R.Bytes → Bool
  pub encode_bool : Bool → R.Bytes
  pub encode_u64 : ℕ → R.Bytes
  pub non_zero_transfer : R.Bytes
  pub disabled_by_parent : R.Bytes
  pub on_hint : Address → ℕ → R.Bytes → W → W

-- What the interceptors use of `MegaContext`; `Rest` is what only a keyless deployment touches.
pub record Host (W Rest : Type 0) : Type 0 where
  pub spec : MegaSpecId
  pub disable_sandbox : Bool
  pub oracle_env : W
  pub volatile_data_tracker : VolatileDataAccessTracker
  pub additional_limit : AdditionalLimit
  pub rest : Rest

-- `dispatch_system_contract_interceptors` over the execution of a keyless deployment.
module _ {R : Revm} {W Rest : Type 0} (B : Bindings R W)
    (execute_keyless_deploy_call : Host W Rest
      → CallInputs R
      → R.Bytes
      → ℕ
      → Option (Host W Rest × FrameResult R)) where
  open B use {
    return_, send_hint, keyless_deploy, is_disable_volatile, is_enable_volatile, is_volatile_query,
    is_remaining_query, encode_bool, encode_u64, non_zero_transfer, disabled_by_parent, on_hint,
  }
  open R use {Bytes, InstructionResult, revert, new_gas, no_bytes}

  abbrev pub Answer : Type 0
  Answer = Option (Host W Rest × Option (FrameResult R))

  -- A synthetic result, with the gas of the call.
  unfoldable pub synthetic : InstructionResult → Bytes → CallInputs R → FrameResult R
  synthetic result output inputs =
      FrameResult.call_result
        (record { result = result; output = output; gas = new_gas inputs.gas_limit })
        inputs.return_memory_offset

  -- Whether the call transfers a value that is not zero.
  unfoldable pub transfers : CallInputs R → Bool
  transfers inputs = elim inputs.transfer_value [ none ↦ false | some value ↦ not (value == 0) ]

  -- `reject_non_zero_transfer`, and what comes after it.
  unfoldable pub unless_transfer : CallInputs R → Host W Rest → Answer → Answer
  unfolding transfers synthetic
  unless_transfer inputs h next =
      if transfers inputs then some (h, some (synthetic revert non_zero_transfer inputs)) else next

  -- `OracleHintInterceptor`, which never answers.
  unfoldable pub oracle_hint : CallInputs R → Host W Rest → Host W Rest
  oracle_hint inputs h =
      if inputs.target_address == oracle_contract_address
      then elim (send_hint inputs.input) [
        | none ↦ h
        | some (topic, hint) ↦ record h {
          oracle_env = on_hint inputs.caller topic hint h.oracle_env;
        }
      ]
      else h

  -- `KeylessDeployInterceptor`: at the top level only, and not in a sandbox.
  unfoldable pub keyless : CallInputs R → ℕ → Host W Rest → Answer
  keyless inputs depth h =
      if h.disable_sandbox || not (depth == 0)
      then some (h, none)
      else if inputs.target_address == keyless_deploy_address
      then elim (keyless_deploy inputs.input) [
        | none ↦ some (h, none)
        | some (tx_bytes, gas_limit_override) ↦ do
          (h', result) ← execute_keyless_deploy_call h inputs tx_bytes gas_limit_override
          some (h', some result)
      ]
      else some (h, none)

  -- `disableVolatileDataAccess()`.
  unfoldable pub disable_volatile : CallInputs R → ℕ → Host W Rest → Answer
  unfolding unless_transfer synthetic
  disable_volatile inputs depth h = unless_transfer inputs h (
      some (
        record h { volatile_data_tracker = disable_access depth h.volatile_data_tracker },
        some (synthetic return_ no_bytes inputs),
      ))

  -- `enableVolatileDataAccess()`.
  unfoldable pub enable_volatile : CallInputs R → ℕ → Host W Rest → Answer
  unfolding unless_transfer synthetic
  enable_volatile inputs depth h =
      let (tracker, success) = enable_access depth h.volatile_data_tracker in
      unless_transfer inputs h (
        some (
          record h { volatile_data_tracker = tracker },
          some (
              if success
              then synthetic return_ no_bytes inputs
              else synthetic revert disabled_by_parent inputs),
        ))

  -- `isVolatileDataAccessDisabled()`.
  unfoldable pub query_volatile : CallInputs R → ℕ → Host W Rest → Answer
  unfolding unless_transfer synthetic
  query_volatile inputs depth h =
      let disabled = volatile_access_disabled depth h.volatile_data_tracker in
      unless_transfer inputs h (some (h, some (synthetic return_ (encode_bool disabled) inputs)))

  -- `AccessControlInterceptor`; the depth is that of the caller's journal.
  unfoldable pub access_control : CallInputs R → ℕ → Host W Rest → Answer
  unfolding disable_volatile enable_volatile query_volatile
  access_control inputs depth h =
      if not (inputs.target_address == access_control_address)
      then some (h, none)
      else if is_disable_volatile inputs.input
      then disable_volatile inputs depth h
      else if is_enable_volatile inputs.input
      then enable_volatile inputs depth h
      else if is_volatile_query inputs.input
      then query_volatile inputs depth h
      else some (h, none)

  -- `remainingComputeGas()`.
  unfoldable pub remaining_compute_gas : CallInputs R → Host W Rest → Answer
  unfolding unless_transfer synthetic
  remaining_compute_gas inputs h = unless_transfer inputs h (do
    remaining ← ComputeGas.current_call_remaining h.additional_limit.compute_gas
    some (h, some (synthetic return_ (encode_u64 remaining) inputs)))

  -- `LimitControlInterceptor`.
  unfoldable pub limit_control : CallInputs R → Host W Rest → Answer
  unfolding remaining_compute_gas
  limit_control inputs h =
      if not (inputs.target_address == limit_control_address)
      then some (h, none)
      else if is_remaining_query inputs.input
      then remaining_compute_gas inputs h
      else some (h, none)

  -- An interceptor that is active from a version on, and the next ones if it does not answer.
  unfoldable pub intercept :
      MegaSpecId → (Host W Rest → Answer) → (Host W Rest → Answer) → Host W Rest → Answer
  unfolding is_enabled
  intercept activation interceptor next h =
      if is_enabled h.spec activation
      then (do
        (h', answer) ← interceptor h
        elim answer [ some result ↦ some (h', some result) | none ↦ next h' ])
      else next h

  -- The interceptors from one on.
  unfoldable pub from_limit_control : CallInputs R → Host W Rest → Answer
  unfolding intercept limit_control
  from_limit_control inputs = intercept MegaSpecId.rex4 (limit_control inputs) (λ h. some (h, none))

  unfoldable pub from_access_control : CallInputs R → ℕ → Host W Rest → Answer
  unfolding intercept access_control from_limit_control
  from_access_control inputs depth =
      intercept MegaSpecId.rex4 (access_control inputs depth) (from_limit_control inputs)

  unfoldable pub from_keyless : CallInputs R → ℕ → Host W Rest → Answer
  unfolding intercept keyless from_access_control
  from_keyless inputs depth =
      intercept MegaSpecId.rex2 (keyless inputs depth) (from_access_control inputs depth)

  -- `dispatch_system_contract_interceptors`.
  unfoldable pub dispatch : CallInputs R → ℕ → Host W Rest → Answer
  unfolding intercept oracle_hint from_keyless
  dispatch inputs depth =
      intercept MegaSpecId.rex2 (λ h. some (oracle_hint inputs h, none)) (from_keyless inputs depth)
