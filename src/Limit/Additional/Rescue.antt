-- ===== src/Limit/Additional/Rescue.antt =====
-- crates/mega-evm/src/limit/limit.rs: what the hooks make of the gas of a frame that goes over a limit
-- of the transaction.
use mega_evm.Prelude.{ℕ, ◌-◌, ◌≡◌, refl, true, false, Option, none, some, arith, length}
use mega_evm.Limit.Frame.{FrameLimitTracker, has_active_frame, pop_frame}
use mega_evm.Limit.StateGrowth as StateGrowth
use mega_evm.Limit.KvUpdate as KvUpdate
use mega_evm.Limit.Check.{LimitKind, LimitCheck}
use mega_evm.Limit.Revm.{Revm, FrameResult, interpreter_result}
use mega_evm.Limit.DataSize as DataSize
use mega_evm.Limit.ComputeGas as ComputeGas
use mega_evm.Limit.Additional.{AdditionalLimit, record_compute_gas}
use mega_evm.Limit.Additional.Frames.{
  rescue_gas, try_rescue_gas, mark_frame_result_as_exceeding_limit, exceeding_instruction_result,
}
use mega_evm.Limit.Additional.Returns as Hooks
use mega_evm.Limit.Additional.Depth.{HasDepth}
use mega_evm.Limit.Additional.Propagation.{check_limit_known, popped}

module _ (R : Revm) where
  open R use {out_of_gas, no_bytes, gas_remaining}

  -- The limits and the result after the cost of an action, once a limit is exceeded.
  abbrev with_cost :
      Option ℕ → FrameResult R → ComputeGas.ComputeGasTracker → ComputeGas.ComputeGasTracker
  with_cost none r t = t
  with_cost (some before) r t =
      ComputeGas.record_gas_used (before - gas_remaining (interpreter_result r).gas) t

  abbrev pub charged : Option ℕ → FrameResult R → AdditionalLimit → AdditionalLimit
  charged before r a = record a { compute_gas = with_cost before r a.compute_gas }

  abbrev pub marked : Option ℕ → FrameResult R → FrameResult R
  marked none r = r
  marked (some before) r = mark_frame_result_as_exceeding_limit R out_of_gas no_bytes r

  record_action_cost-exceeded :
      (before : Option ℕ) (r : FrameResult R) (a : AdditionalLimit) (k : LimitKind) (l u : ℕ)
      → a.has_exceeded_limit ≡ LimitCheck.exceeds_limit k l u false
      → Hooks.record_action_cost R before r a ≡ some (charged before r a, marked before r)
  unfolding Hooks.record_action_cost record_compute_gas exceeding_instruction_result
  record_action_cost-exceeded none r a k l u x = refl
  record_action_cost-exceeded (some before) r a k l u x =
      rw (check_limit_known (charged (some before) r a) k l u false x, x) refl

  -- A result that an exceed comes with keeps its gas.
  gas-marked :
      (before : Option ℕ) (r : FrameResult R)
      → (interpreter_result (marked before r)).gas ≡ (interpreter_result r).gas
  unfolding mark_frame_result_as_exceeding_limit
  gas-marked none r = refl
  gas-marked (some before) (FrameResult.call_result r range) = refl
  gas-marked (some before) (FrameResult.create_result r address) = refl

  pub result-out_of_gas :
      (r : FrameResult R)
      → (interpreter_result (mark_frame_result_as_exceeding_limit R out_of_gas no_bytes r)).result
        ≡ out_of_gas
  unfolding mark_frame_result_as_exceeding_limit
  result-out_of_gas (FrameResult.call_result r range) = refl
  result-out_of_gas (FrameResult.create_result r address) = refl

  pub after_frame_run-rescued :
      (before : Option ℕ) (r : FrameResult R) (a : AdditionalLimit) (k : LimitKind) (l u : ℕ)
      → a.has_exceeded_limit ≡ LimitCheck.exceeds_limit k l u false
      → Hooks.after_frame_run R before r a
        ≡ some (rescue_gas R (interpreter_result r).gas (charged before r a), marked before r)
  unfolding Hooks.after_frame_run try_rescue_gas
  after_frame_run-rescued before r a k l u x =
      rw
        (
          record_action_cost-exceeded before r a k l u x,
          check_limit_known (charged before r a) k l u false x,
          gas-marked before r,
        )
        refl

  inactive :
      {I : Type 0} (t : FrameLimitTracker I) → length t.frame_stack ≡ 0 → has_active_frame t ≡ false
  unfolding has_active_frame
  inactive t d = ground arith

  -- The last result of a transaction whose frames have all returned.
  pub before_frame_return_result-settled :
      (r : FrameResult R) (a : AdditionalLimit) (k : LimitKind) (l u : ℕ)
      → a.has_exceeded_limit ≡ LimitCheck.exceeds_limit k l u false
      → HasDepth 0 a
      → Hooks.before_frame_return_result R true r a
        ≡ some (popped (R.is_ok (interpreter_result r).result) a, r)
  unfolding Hooks.before_frame_return_result DataSize.has_active_frame
      StateGrowth.before_frame_return_result pop_frame DataSize.before_frame_return_result
      KvUpdate.before_frame_return_result ComputeGas.before_frame_return_result
  before_frame_return_result-settled r a k l u x (g, d, kv, c) =
      rw
        (
          check_limit_known (popped (R.is_ok (interpreter_result r).result) a) k l u false x,
          inactive a.data_size.frame_tracker d,
        )
        (ground arith)
