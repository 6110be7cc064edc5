-- ===== src/Limit/Revm.antt =====
-- What crates/mega-evm/src/limit uses of revm: types whose insides it does not look into.
use mega_evm.Prelude.{ℕ, Bool, Option}
use mega_evm.Limit.Events.{Address}

-- `InstructionResult` with the two values that the limits set and the test `is_ok`; `Bytes` with
-- the ABI encoding of `MegaLimitExceeded(kind, limit)`; `Gas`; and the halt reasons of the OP EVM.
pub record Revm : Type 1 where
  pub InstructionResult : Type 0
  pub revert : InstructionResult
  pub out_of_gas : InstructionResult
  pub is_ok : InstructionResult → Bool
  pub Bytes : Type 0
  pub no_bytes : Bytes
  pub bytes_len : Bytes → ℕ
  pub mega_limit_exceeded : ℕ → ℕ → Bytes
  pub Gas : Type 0
  pub new_gas : ℕ → Gas
  pub gas_remaining : Gas → ℕ
  pub OpHaltReason : Type 0
  pub is_basic_out_of_gas : OpHaltReason → Bool

-- `InterpreterResult`.
pub record InterpreterResult (R : Revm) : Type 0 where
  pub result : R.InstructionResult
  pub output : R.Bytes
  pub gas : R.Gas

-- `FrameResult`: of a call with its range of memory, or of a create with its address.
pub data FrameResult (R : Revm) : Type 0 where
  call_result : InterpreterResult R → ℕ × ℕ → FrameResult R
  create_result : InterpreterResult R → Option Address → FrameResult R

-- `InterpreterAction`: a return, or the start of a new frame.
pub data InterpreterAction (R : Revm) : Type 0 where
  return_action : InterpreterResult R → InterpreterAction R
  new_frame : InterpreterAction R

-- The interpreter's result within a frame's.
abbrev pub interpreter_result : {R : Revm} → FrameResult R → InterpreterResult R
interpreter_result (FrameResult.call_result r _) = r
interpreter_result (FrameResult.create_result r _) = r
