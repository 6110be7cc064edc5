-- ===== src/Evm/Frames.antt =====
-- crates/mega-evm/src/evm/execution.rs: `EvmTr` of `MegaEvm`, the frames of a transaction: Start has
-- `frame_init`, and Run `frame_run` and `frame_return_result`. revm's EVM, which these functions
-- wrap, is an argument. `none` as a result is a panic.
pub mod Start
pub mod Run
pub mod Stacks
pub mod Balance
pub mod Starting
pub mod Inspector
pub mod Running
pub mod Loop
use mega_evm.Prelude.{
  ℕ, ◌*◌, Bool, true, false, not, ◌&&◌, ◌==◌, if◌then◌else◌, Option, none, some, ◌>>=◌, mul64,
}
use mega_evm.Spec.{MegaSpecId, is_enabled}
use mega_evm.Constants.MiniRex.{codedeposit_storage_gas}
use mega_evm.Limit.Events as Events
use mega_evm.Limit.Events.{Address, FrameData, DbResult}
use mega_evm.Limit.Revm.{
  Revm, InterpreterResult, FrameResult, InterpreterAction, interpreter_result,
}
use mega_evm.Limit.Additional.{AdditionalLimit, set_compute_gas_limit, push_empty_frame}
use mega_evm.Limit.Additional.Frames as Limits
use mega_evm.Limit.Additional.Returns as Hooks
use mega_evm.Limit.Additional.Returns.{FrameInitResult}
use mega_evm.Access.Tracker.{check_and_mark_oracle_access, enable_access_if_returning}
use mega_evm.System.Intercept.{CallInputs, Bindings, Host, dispatch, transfers}
use mega_evm.Evm.SystemTx.{mega_system_address}

-- `CallScheme`.
pub data CallScheme : Type 0 where
  call call_code delegate_call static_call : CallScheme

-- `FrameInput`; a create has its gas limit.
pub data FrameInput (R : Revm) : Type 0 where
  call : CallScheme → CallInputs R → FrameInput R
  create : ℕ → FrameInput R
  empty : FrameInput R

-- `FrameInit`; its memory is part of revm's EVM.
pub record FrameInit (R : Revm) : Type 0 where
  pub depth : ℕ
  pub frame_input : FrameInput R

-- `FrameInitOrResult`: a frame to start, or the result of the frame that ran.
pub data FrameInitOrResult (R : Revm) : Type 0 where
  item : FrameInit R → FrameInitOrResult R
  result : FrameResult R → FrameInitOrResult R

-- revm's EVM with its state `S`, whose errors are `E`: the functions that `MegaEvm` calls, the
-- answers of the top frame, and the loop over the instructions.
pub record Inner (R : Revm) (W S E : Type 0) : Type 0 where
  pub frame_init : FrameInit R → S → S × DbResult E (FrameInitResult R)
  pub run_plain : Host W S → Option (Host W S × InterpreterAction R)
  pub process_next_action : InterpreterAction R → S → S × DbResult E (FrameInitOrResult R)
  pub frame_return_result : FrameResult R → S → S × DbResult E (Option (FrameResult R))
  pub inspect_is_empty : MegaSpecId → Address → S → S × DbResult E Bool
  pub set_finished : S → S
  pub frame_data : S → FrameData
  pub frame_gas : S → R.Gas
  pub journal_depth : S → ℕ
  pub record_cost : ℕ → R.Gas → Option R.Gas

-- A result, with the EVM after it; an error stops the transaction.
abbrev pub Outcome {ℓ} : Type 0 → Type 0 → Type ℓ → Type ℓ
Outcome H E A = Option (H × DbResult E A)

module _ {ℓ κ} {H E : Type 0} {A : Type ℓ} {B : Type κ} where
  infixl 5 ◌>>?◌
  unfoldable pub ◌>>?◌ : Outcome H E A → (H × A → Outcome H E B) → Outcome H E B
  none >>? f = none
  some (h, DbResult.err e) >>? f = some (h, DbResult.err e)
  some (h, DbResult.ok a) >>? f = f (h, a)

module _ {W S E : Type 0} where
  -- A function of revm's EVM, as a step of the whole.
  unfoldable pub inner {ℓ} :
      {A : Type ℓ} → (S → S × DbResult E A) → Host W S → Outcome (Host W S) E A
  inner f h = let (s, answer) = f h.rest in some (record h { rest = s }, answer)

  -- A hook of the limits, from MiniRex on.
  unfoldable pub hook {ℓ} :
      {A : Type ℓ}
      → A
      → (AdditionalLimit → Option (AdditionalLimit × A))
      → Host W S
      → Outcome (Host W S) E A
  unfolding is_enabled
  hook otherwise f h =
      if is_enabled h.spec MegaSpecId.mini_rex
      then (do
        (limit, answer) ← f h.additional_limit
        some (record h { additional_limit = limit }, DbResult.ok answer))
      else some (h, DbResult.ok otherwise)
