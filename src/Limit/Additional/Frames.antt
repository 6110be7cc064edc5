-- ===== src/Limit/Additional/Frames.antt =====
-- crates/mega-evm/src/limit/limit.rs: the hooks of `AdditionalLimit` round a frame. `none` is a
-- panic in a tracker.
use mega_evm.Prelude.{ℕ, Bool, false, not, ◌&&◌, if◌then◌else◌, Option, none, some, ◌>>=◌, add64}
use mega_evm.Spec.{MegaSpecId}
use mega_evm.Limit.Check.{LimitKind, LimitCheck, exceeded_limit, is_frame_local, as_u8}
use mega_evm.Limit.Events.{Address, FrameInput, DbResult, ok, err}
use mega_evm.Limit.Revm.{Revm, InterpreterResult, FrameResult, interpreter_result}
use mega_evm.Limit.StateGrowth
use mega_evm.Limit.DataSize
use mega_evm.Limit.KvUpdate
use mega_evm.Limit.ComputeGas
use mega_evm.Limit.Additional.{AdditionalLimit, check_limit}

-- `MegaHaltReason`; `AccessBits` is the bitmap of volatile data.
pub data MegaHaltReason (R : Revm) : Type 0 where
  base : R.OpHaltReason → MegaHaltReason R
  data_limit_exceeded kv_update_limit_exceeded : ℕ → ℕ → MegaHaltReason R
  compute_gas_limit_exceeded state_growth_limit_exceeded : ℕ → ℕ → MegaHaltReason R
  system_tx_invalid_callee : Address → MegaHaltReason R
  volatile_data_access_out_of_gas : ℕ → ℕ → ℕ → MegaHaltReason R

module _ (R : Revm) where
  open R use {
    revert, out_of_gas, is_ok, Bytes, no_bytes, bytes_len, mega_limit_exceeded, Gas, new_gas,
    gas_remaining, OpHaltReason, is_basic_out_of_gas, InstructionResult,
  }

  unfoldable pub revert_data : LimitCheck → Bytes
  unfolding as_u8
  revert_data LimitCheck.within_limit = no_bytes
  revert_data (LimitCheck.exceeds_limit kind limit _ _) = mega_limit_exceeded (as_u8 kind) limit

  unfoldable pub maybe_halt_reason : LimitCheck → Option (MegaHaltReason R)
  maybe_halt_reason LimitCheck.within_limit = none
  maybe_halt_reason (LimitCheck.exceeds_limit LimitKind.data_size limit used _) =
      some (MegaHaltReason.data_limit_exceeded limit used)
  maybe_halt_reason (LimitCheck.exceeds_limit LimitKind.kv_update limit used _) =
      some (MegaHaltReason.kv_update_limit_exceeded limit used)
  maybe_halt_reason (LimitCheck.exceeds_limit LimitKind.compute_gas limit used _) =
      some (MegaHaltReason.compute_gas_limit_exceeded limit used)
  maybe_halt_reason (LimitCheck.exceeds_limit LimitKind.state_growth limit used _) =
      some (MegaHaltReason.state_growth_limit_exceeded limit used)

  unfoldable pub exceeding_instruction_result : AdditionalLimit → InstructionResult
  exceeding_instruction_result a =
      if is_frame_local a.has_exceeded_limit then revert else out_of_gas

  unfoldable pub is_exceeding_limit_halt :
      OpHaltReason → AdditionalLimit → Option (Bool × AdditionalLimit)
  is_exceeding_limit_halt reason a =
      if is_basic_out_of_gas reason
      then (do (check, a') ← check_limit a; some (exceeded_limit check, a'))
      else some (false, a)

  unfoldable pub detained_compute_gas_halt_reason :
      ℕ → AdditionalLimit → Option (Option (MegaHaltReason R))
  detained_compute_gas_halt_reason access_type a = do
    detained ← ComputeGas.is_detained_exceed a.compute_gas
    (if detained
        then (do
          actual ← ComputeGas.tx_usage a.compute_gas
          some (
              some (
                MegaHaltReason.volatile_data_access_out_of_gas access_type
                  a.compute_gas.detained_limit actual)))
        else some none)

  unfoldable pub rescue_gas : Gas → AdditionalLimit → AdditionalLimit
  rescue_gas gas a = record a { rescued_gas = add64 a.rescued_gas (gas_remaining gas) }

  unfoldable pub try_rescue_gas : Gas → AdditionalLimit → Option AdditionalLimit
  unfolding rescue_gas
  try_rescue_gas gas a = do
    (check, a') ← check_limit a
    some (if exceeded_limit check && not (is_frame_local check) then rescue_gas gas a' else a')

  unfoldable pub create_exceeding_interpreter_result :
      InstructionResult → Gas → Bytes → InterpreterResult R
  create_exceeding_interpreter_result result gas output = record {
    result = result;
    output = output;
    gas = gas;
  }

  unfoldable pub create_exceeding_limit_frame_result :
      InstructionResult → Gas → Option (ℕ × ℕ) → Bytes → FrameResult R
  unfolding create_exceeding_interpreter_result
  create_exceeding_limit_frame_result result gas none output =
      FrameResult.create_result (create_exceeding_interpreter_result result gas output) none
  create_exceeding_limit_frame_result result gas (some range) output =
      FrameResult.call_result (create_exceeding_interpreter_result result gas output) range

  unfoldable pub mark_interpreter_result_as_exceeding_limit :
      InstructionResult → Bytes → InterpreterResult R → InterpreterResult R
  mark_interpreter_result_as_exceeding_limit result output r = record r {
    result = result;
    output = output;
  }

  unfoldable pub mark_frame_result_as_exceeding_limit :
      InstructionResult → Bytes → FrameResult R → FrameResult R
  unfolding mark_interpreter_result_as_exceeding_limit
  mark_frame_result_as_exceeding_limit result output (FrameResult.call_result r range) =
      FrameResult.call_result (mark_interpreter_result_as_exceeding_limit result output r) range
  mark_frame_result_as_exceeding_limit result output (FrameResult.create_result r address) =
      FrameResult.create_result (mark_interpreter_result_as_exceeding_limit result output r) address

  -- The gas limit of the frame to come, and for a call its range of memory.
  frame_gas_and_range : FrameInput → Option (ℕ × Option (ℕ × ℕ))
  frame_gas_and_range (FrameInput.call _ _ gas_limit range) = some (gas_limit, some range)
  frame_gas_and_range (FrameInput.create gas_limit) = some (gas_limit, none)
  frame_gas_and_range FrameInput.empty = none

  -- The check after the four trackers have pushed the frame.
  unfoldable pub refuse_frame :
      FrameInput → AdditionalLimit → Option (AdditionalLimit × Option (FrameResult R))
  unfolding frame_gas_and_range revert_data exceeding_instruction_result try_rescue_gas
      create_exceeding_limit_frame_result
  refuse_frame input a = do
    (check, a') ← check_limit a
    (if exceeded_limit check
        then (do
          (gas_limit, range) ← frame_gas_and_range input
          let result =
              create_exceeding_limit_frame_result (exceeding_instruction_result a')
                (new_gas gas_limit) range (revert_data a'.has_exceeded_limit)
          a'' ← try_rescue_gas (interpreter_result result).gas a'
          some (a'', some result))
        else some (a', none))

  -- On a database error the trackers stay as the error finds them: only the first has a new frame.
  unfoldable pub before_frame_init {ℓ} :
      {E : Type ℓ}
      → (MegaSpecId → Address → DbResult E Bool)
      → FrameInput
      → AdditionalLimit
      → Option (AdditionalLimit × DbResult E (Option (FrameResult R)))
  unfolding refuse_frame
  before_frame_init is_empty_account input a = do
    (state_growth, outcome) ← StateGrowth.before_frame_init is_empty_account input a.state_growth
    elim outcome [
      | err e ↦ some (record a { state_growth = state_growth }, err e)
      | ok _ ↦ do
        data_size ← DataSize.before_frame_init input a.data_size
        kv_update ← KvUpdate.before_frame_init input a.kv_update
        compute_gas ← ComputeGas.before_frame_init a.compute_gas
        (a', result) ← refuse_frame input (record a {
          state_growth = state_growth;
          data_size = data_size;
          kv_update = kv_update;
          compute_gas = compute_gas;
        })
        some (a', ok result)
    ]
