-- ===== src/Evm/Execution.antt =====
-- crates/mega-evm/src/evm/execution.rs: `Handler` of `MegaHandler` round the loop over the frames,
-- and what becomes of its result. op-revm's handler is an argument. `none` as a result is a panic.
pub mod Settled
pub mod Inspected
pub mod Reasons
pub mod Rescued
use mega_evm.Prelude.{ℕ, ◌-◌, Bool, true, false, ltb, if◌then◌else◌, Option, none, some, ◌>>=◌}
use mega_evm.Spec.{MegaSpecId, is_enabled}
use mega_evm.Limit.Events.{DbResult}
use mega_evm.Limit.Revm.{Revm, InterpreterResult, FrameResult, interpreter_result}
use mega_evm.Limit.Additional.{check_limit}
use mega_evm.Limit.Additional.Frames.{
  MegaHaltReason, maybe_halt_reason, is_exceeding_limit_halt, detained_compute_gas_halt_reason,
}
use mega_evm.Limit.Additional.Returns as Hooks
use mega_evm.Access.Tracker.{get_volatile_data_info}
use mega_evm.System.Intercept.{CallInputs, Bindings, Host}
use mega_evm.Evm.Frames.{FrameInit, Inner, Outcome, ◌>>?◌}

-- `ExecutionResult` with halt reasons `H`; a success or a revert is what revm makes it, `X`.
pub data ExecutionResult (X H : Type 0) : Type 0 where
  success : X → ExecutionResult X H
  revert : X → ExecutionResult X H
  halt : ℕ → H → ExecutionResult X H

-- op-revm's handler over the state `S`, with the gas limit and the kind of the transaction.
pub record Op (R : Revm) (S E X : Type 0) : Type 0 where
  pub last_frame_result : FrameResult R → S → S × DbResult E (FrameResult R)
  pub execution_result : FrameResult R → S → S × DbResult E (ExecutionResult X R.OpHaltReason)
  pub reward_beneficiary : FrameResult R → S → S × DbResult E (Unit {0})
  pub catch_error : E → S → S × DbResult E (ExecutionResult X R.OpHaltReason)
  pub first_frame_input : ℕ → S → S × DbResult E (FrameInit R)
  pub gas_limit : S → ℕ
  pub is_create : S → Bool
  pub new_spent : ℕ → R.Gas
  pub erase_cost : ℕ → R.Gas → R.Gas

-- `frame_result.gas_mut()`.
abbrev pub map_gas : {R : Revm} → (R.Gas → R.Gas) → FrameResult R → FrameResult R
map_gas f (FrameResult.call_result r range) =
    FrameResult.call_result (record r { gas = f r.gas }) range
map_gas f (FrameResult.create_result r address) =
    FrameResult.create_result (record r { gas = f r.gas }) address

-- `map_haltreason(MegaHaltReason::Base)`.
unfoldable pub as_base :
    {R : Revm} {X : Type 0}
    → ExecutionResult X R.OpHaltReason
    → ExecutionResult X (MegaHaltReason R)
as_base (ExecutionResult.success x) = ExecutionResult.success x
as_base (ExecutionResult.revert x) = ExecutionResult.revert x
as_base (ExecutionResult.halt gas reason) = ExecutionResult.halt gas (MegaHaltReason.base reason)

module _ {R : Revm} {S E X : Type 0} (O : Op R S E X) where
  open R use {out_of_gas, no_bytes}

  unfoldable pub gen_oog_frame_result : Bool → ℕ → FrameResult R
  gen_oog_frame_result is_create gas_limit =
      let r : InterpreterResult R = record {
        result = out_of_gas;
        output = no_bytes;
        gas = O.new_spent gas_limit;
      } in
      if is_create then FrameResult.create_result r none else FrameResult.call_result r (0, 0)

module _ {R : Revm} {W S E X : Type 0} (O : Op R S E X) where
  open R use {OpHaltReason}

  -- A function of op-revm's handler, as a step of the whole.
  unfoldable pub delegated {ℓ} :
      {A : Type ℓ} → (S → S × DbResult E A) → Host W S → Outcome (Host W S) E A
  delegated f h = let (s, answer) = f h.rest in some (record h { rest = s }, answer)

  unfoldable pub before_execution : ℕ → Host W S → Option (FrameResult R)
  unfolding gen_oog_frame_result
  before_execution initial_gas h =
      if ltb (O.gas_limit h.rest) initial_gas
      then some (gen_oog_frame_result O (O.is_create h.rest) (O.gas_limit h.rest))
      else none

  -- The hook of the limits before op-revm settles the gas.
  unfoldable pub before_last_result :
      FrameResult R → Host W S → Outcome (Host W S) E (FrameResult R)
  unfolding Hooks.before_frame_return_result is_enabled
  before_last_result r h =
      if is_enabled h.spec MegaSpecId.mini_rex
      then (do
        (a, r') ← Hooks.before_frame_return_result R true r h.additional_limit
        some (record h { additional_limit = a }, DbResult.ok r'))
      else some (h, DbResult.ok r)

  -- The rescued gas is given back.
  unfoldable pub return_rescued : FrameResult R → Host W S → FrameResult R
  unfolding is_enabled
  return_rescued r h =
      if is_enabled h.spec MegaSpecId.mini_rex
      then map_gas (O.erase_cost h.additional_limit.rescued_gas) r
      else r

  unfoldable pub last_frame_result : FrameResult R → Host W S → Outcome (Host W S) E (FrameResult R)
  unfolding before_last_result delegated return_rescued
  last_frame_result r h = before_last_result r h >>? λ (h', r').
      delegated (O.last_frame_result r') h' >>? λ (h'', r'').
      some (h'', DbResult.ok (return_rescued r'' h''))

  -- `execution` over `run_exec_loop`, and `inspect_execution` over `inspect_run_exec_loop`.
  unfoldable pub execution :
      (FrameInit R → Host W S → Outcome (Host W S) E (FrameResult R))
      → ℕ
      → Host W S
      → Outcome (Host W S) E (FrameResult R)
  unfolding before_execution delegated last_frame_result
  execution run_exec_loop initial_gas h = elim (before_execution initial_gas h) [
    | some oog ↦ some (h, DbResult.ok oog)
    | none ↦
        delegated (O.first_frame_input (O.gas_limit h.rest - initial_gas)) h
        >>? λ (h', first_frame_input). run_exec_loop first_frame_input h' >>? λ (h'', frame_result).
            last_frame_result frame_result h''
  ]

  unfoldable pub reward_beneficiary :
      Bool → FrameResult R → Host W S → Outcome (Host W S) E (Unit {0})
  unfolding delegated
  reward_beneficiary disable_beneficiary r h =
      if disable_beneficiary then some (h, DbResult.ok tt) else delegated (O.reward_beneficiary r) h

  -- The reason for an exceeded limit: detention by volatile data if that was the cause, else the
  -- limit's own.
  unfoldable pub limit_halt_reason : Option ℕ → Host W S → Option (Host W S × MegaHaltReason R)
  unfolding detained_compute_gas_halt_reason check_limit maybe_halt_reason
  limit_halt_reason volatile_info h = do
    detained ← elim volatile_info [
      | none ↦ some none
      | some access_type ↦ detained_compute_gas_halt_reason R access_type h.additional_limit
    ]
    elim detained [
      | some reason ↦ some (h, reason)
      | none ↦ do
        (check, a) ← check_limit h.additional_limit
        reason ← maybe_halt_reason R check
        some (record h { additional_limit = a }, reason)
    ]

  -- `map_haltreason` of `execution_result`.
  unfoldable pub convert_halt :
      Option ℕ
      → ExecutionResult X OpHaltReason
      → Host W S
      → Outcome (Host W S) E (ExecutionResult X (MegaHaltReason R))
  unfolding is_exceeding_limit_halt limit_halt_reason
  convert_halt volatile_info (ExecutionResult.success x) h =
      some (h, DbResult.ok (ExecutionResult.success x))
  convert_halt volatile_info (ExecutionResult.revert x) h =
      some (h, DbResult.ok (ExecutionResult.revert x))
  convert_halt volatile_info (ExecutionResult.halt gas reason) h = do
    (exceeding, a) ← is_exceeding_limit_halt R reason h.additional_limit
    let h' = record h { additional_limit = a }
    (if exceeding
        then (do
          (h'', reason') ← limit_halt_reason volatile_info h'
          some (h'', DbResult.ok (ExecutionResult.halt gas reason')))
        else some (h', DbResult.ok (ExecutionResult.halt gas (MegaHaltReason.base reason))))

  -- What was read of volatile data, from MiniRex on.
  unfoldable pub volatile_info : Host W S → Option ℕ
  unfolding is_enabled
  volatile_info h =
      if is_enabled h.spec MegaSpecId.mini_rex
      then get_volatile_data_info h.volatile_data_tracker
      else none

  unfoldable pub execution_result :
      FrameResult R → Host W S → Outcome (Host W S) E (ExecutionResult X (MegaHaltReason R))
  unfolding volatile_info delegated convert_halt
  execution_result r h = delegated (O.execution_result r) h >>? λ (h', result).
      convert_halt (volatile_info h) result h'

  unfoldable pub catch_error :
      E → Host W S → Outcome (Host W S) E (ExecutionResult X (MegaHaltReason R))
  unfolding delegated as_base
  catch_error error h =
      delegated (O.catch_error error) h >>? λ (h', result). some (h', DbResult.ok (as_base result))
