-- ===== src/Limit/Additional/Returns.antt =====
-- crates/mega-evm/src/limit/limit.rs: the hooks of `AdditionalLimit` while a frame runs and when it
-- returns. `none` is a panic in a tracker.
use mega_evm.Prelude.{ℕ, ◌-◌, Bool, not, ◌&&◌, if◌then◌else◌, Option, none, some, ◌>>=◌}
use mega_evm.Limit.Check.{LimitCheck, exceeded_limit, is_frame_local}
use mega_evm.Limit.Events.{FrameData}
use mega_evm.Limit.Revm.{
  Revm, InterpreterResult, FrameResult, InterpreterAction, interpreter_result,
}
use mega_evm.Limit.StateGrowth
use mega_evm.Limit.DataSize
use mega_evm.Limit.KvUpdate
use mega_evm.Limit.ComputeGas
use mega_evm.Limit.Additional.{AdditionalLimit, check_limit, record_compute_gas}
use mega_evm.Limit.Additional.Frames.{
  revert_data, exceeding_instruction_result, try_rescue_gas, create_exceeding_interpreter_result,
  mark_interpreter_result_as_exceeding_limit, mark_frame_result_as_exceeding_limit,
}

-- `ItemOrResult`: a new frame to run, or a result at once.
pub data FrameInitResult (R : Revm) : Type 0 where
  item : FrameData → FrameInitResult R
  result : FrameResult R → FrameInitResult R

module _ (R : Revm) where
  open R use {revert, out_of_gas, is_ok, Bytes, no_bytes, bytes_len, Gas, gas_remaining}

  unfoldable pub after_frame_init : FrameInitResult R → AdditionalLimit → Option AdditionalLimit
  after_frame_init (FrameInitResult.item frame) a = do
    data_size ← DataSize.after_frame_init_on_frame frame a.data_size
    kv_update ← KvUpdate.after_frame_init_on_frame frame a.kv_update
    some (record a { data_size = data_size; kv_update = kv_update })
  after_frame_init (FrameInitResult.result r) a = try_rescue_gas R (interpreter_result r).gas a

  -- `gas` is the frame's gas when it is about to run.
  unfoldable pub before_frame_run :
      Gas → AdditionalLimit → Option (AdditionalLimit × Option (InterpreterResult R))
  before_frame_run gas a = do
    (check, a') ← check_limit a
    some (
      a',
      (if exceeded_limit check
          then some (
              create_exceeding_interpreter_result R (exceeding_instruction_result R a') gas
                (revert_data R a'.has_exceeded_limit))
          else none),
    )

  -- The gas that processing the frame's action cost, if the action was a return.
  unfoldable pub record_action_cost :
      Option ℕ → FrameResult R → AdditionalLimit → Option (AdditionalLimit × FrameResult R)
  record_action_cost none r a = some (a, r)
  record_action_cost (some before) r a = do
    (within, a') ← record_compute_gas (before - gas_remaining (interpreter_result r).gas) a
    some (
      a',
      (if within
          then r
          else mark_frame_result_as_exceeding_limit R (exceeding_instruction_result R a') no_bytes
              r),
    )

  unfoldable pub after_frame_run :
      Option ℕ → FrameResult R → AdditionalLimit → Option (AdditionalLimit × FrameResult R)
  unfolding record_action_cost
  after_frame_run gas_remaining_before r a = do
    (a', r') ← record_action_cost gas_remaining_before r a
    a'' ← try_rescue_gas R (interpreter_result r').gas a'
    some (a'', r')

  -- The length of the output when the action is a return.
  returned_len : InterpreterAction R → Option ℕ
  returned_len (InterpreterAction.return_action r) = some (bytes_len r.output)
  returned_len InterpreterAction.new_frame = none

  -- A create frame that returns while a limit is exceeded has its result marked. That the limit
  -- was exceeded before is the short circuit of `check_limit`.
  unfoldable pub check_created :
      FrameData
      → InterpreterAction R
      → AdditionalLimit
      → Option (AdditionalLimit × InterpreterAction R)
  check_created (FrameData.create_frame _) (InterpreterAction.return_action r) a = do
    (check, a') ← check_limit a
    some (
      a',
      (if exceeded_limit check
          then InterpreterAction.return_action (
              mark_interpreter_result_as_exceeding_limit R (exceeding_instruction_result R a')
                (revert_data R a'.has_exceeded_limit) r)
          else InterpreterAction.return_action r),
    )
  check_created (FrameData.create_frame _) InterpreterAction.new_frame a =
      some (a, InterpreterAction.new_frame)
  check_created FrameData.call_frame action a = some (a, action)

  unfoldable pub after_frame_run_instructions :
      FrameData
      → InterpreterAction R
      → AdditionalLimit
      → Option (AdditionalLimit × InterpreterAction R)
  unfolding returned_len check_created
  after_frame_run_instructions frame action a =
      check_created frame action
        (record a { data_size = DataSize.after_frame_run frame (returned_len action) a.data_size })

  -- What becomes of the result once the frame is popped from the trackers. A frame-local exceed is
  -- absorbed: the flag is cleared and the result becomes a revert.
  unfoldable pub settle :
      Bool → LimitCheck → AdditionalLimit → FrameResult R → AdditionalLimit × FrameResult R
  settle duplicate check a r =
      if exceeded_limit check && not duplicate
      then (if is_frame_local check
          then (
            record a { has_exceeded_limit = LimitCheck.within_limit },
            mark_frame_result_as_exceeding_limit R revert (revert_data R check) r,
          )
          else (a, mark_frame_result_as_exceeding_limit R out_of_gas no_bytes r))
      else (a, r)

  unfoldable pub before_frame_return_result :
      Bool → FrameResult R → AdditionalLimit → Option (AdditionalLimit × FrameResult R)
  unfolding settle
  before_frame_return_result last_frame r a = do
    let duplicate = last_frame && not (DataSize.has_active_frame a.data_size)
    let success = is_ok (interpreter_result r).result
    state_growth ← StateGrowth.before_frame_return_result last_frame success a.state_growth
    data_size ← DataSize.before_frame_return_result last_frame success a.data_size
    kv_update ← KvUpdate.before_frame_return_result last_frame success a.kv_update
    compute_gas ← ComputeGas.before_frame_return_result last_frame success a.compute_gas
    (check, a') ← check_limit (record a {
      state_growth = state_growth;
      data_size = data_size;
      kv_update = kv_update;
      compute_gas = compute_gas;
    })
    some (settle duplicate check a' r)
