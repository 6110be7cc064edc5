-- ===== src/Evm/Frames/Run.antt =====
-- crates/mega-evm/src/evm/execution.rs: `frame_run` and `frame_return_result`, with their hooks.
-- `none` as a result is a panic.
use mega_evm.Prelude.{ℕ, false, if◌then◌else◌, Option, none, some, ◌>>=◌, mul64}
use mega_evm.Spec.{MegaSpecId, is_enabled}
use mega_evm.Constants.MiniRex.{codedeposit_storage_gas}
use mega_evm.Limit.Events.{FrameData, DbResult}
use mega_evm.Limit.Revm.{Revm, FrameResult, InterpreterAction}
use mega_evm.Limit.Additional.Returns as Hooks
use mega_evm.Limit.Additional.Returns.{FrameInitResult}
use mega_evm.Access.Tracker.{enable_access_if_returning}
use mega_evm.System.Intercept.{Host}
use mega_evm.Evm.Frames.{FrameInitOrResult, Inner, Outcome, ◌>>?◌, inner, hook}

module _ {R : Revm} {W S E : Type 0} (V : Inner R W S E) where
  open R use {is_ok, bytes_len, gas_remaining, out_of_gas}

  -- `before_frame_run`.
  unfoldable pub before_frame_run : Host W S → Outcome (Host W S) E (Option (InterpreterAction R))
  unfolding Hooks.before_frame_run is_enabled
  before_frame_run h =
      hook none
        (λ a. do
          (a', stopped) ← Hooks.before_frame_run R (V.frame_gas h.rest) a
          some (
            a',
            elim stopped [ none ↦ none | some r ↦ some (InterpreterAction.return_action r) ],
          ))
        h

  -- The storage gas of the code that a create returns.
  unfoldable pub charge_code_deposit : FrameData → InterpreterAction R → InterpreterAction R
  charge_code_deposit (FrameData.create_frame address) (InterpreterAction.return_action r) =
      if is_ok r.result
      then elim (V.record_cost (mul64 codedeposit_storage_gas (bytes_len r.output)) r.gas) [
        | some gas ↦ InterpreterAction.return_action (record r { gas = gas })
        | none ↦ InterpreterAction.return_action (record r { result = out_of_gas })
      ]
      else InterpreterAction.return_action r
  charge_code_deposit _ action = action

  -- `after_frame_run_instructions`.
  unfoldable pub after_frame_run_instructions :
      InterpreterAction R → Host W S → Outcome (Host W S) E (InterpreterAction R)
  unfolding charge_code_deposit Hooks.after_frame_run_instructions is_enabled
  after_frame_run_instructions action h =
      let frame = V.frame_data h.rest in
      hook action (Hooks.after_frame_run_instructions R frame (charge_code_deposit frame action)) h

  -- The gas that is left before the action is processed, if it is a return.
  unfoldable pub gas_remaining_before : MegaSpecId → InterpreterAction R → Option ℕ
  unfolding is_enabled
  gas_remaining_before spec (InterpreterAction.return_action r) =
      if is_enabled spec MegaSpecId.mini_rex then some (gas_remaining r.gas) else none
  gas_remaining_before spec InterpreterAction.new_frame = none

  -- A frame with a result is finished.
  unfoldable pub finish : FrameInitOrResult R → Host W S → Host W S
  finish (FrameInitOrResult.item init) h = h
  finish (FrameInitOrResult.result r) h = record h { rest = V.set_finished h.rest }

  -- `process_next_action`.
  unfoldable pub process_next_action :
      InterpreterAction R → Host W S → Outcome (Host W S) E (FrameInitOrResult R)
  unfolding finish
  process_next_action action h = inner (V.process_next_action action) h >>? λ (h', output).
      some (finish output h', DbResult.ok output)

  -- `after_frame_run`.
  unfoldable pub after_frame_run :
      Option ℕ → FrameInitOrResult R → Host W S → Outcome (Host W S) E (FrameInitOrResult R)
  unfolding Hooks.after_frame_run is_enabled
  after_frame_run before (FrameInitOrResult.item init) h =
      some (h, DbResult.ok (FrameInitOrResult.item init))
  after_frame_run before (FrameInitOrResult.result r) h =
      hook (FrameInitOrResult.result r)
        (λ a. do
          (a', r') ← Hooks.after_frame_run R before r a
          some (a', FrameInitOrResult.result r'))
        h

  -- What `frame_run` does with the action of a frame's interpreter.
  unfoldable pub process_action :
      InterpreterAction R → Host W S → Outcome (Host W S) E (FrameInitOrResult R)
  unfolding after_frame_run_instructions gas_remaining_before process_next_action after_frame_run
  process_action action h = after_frame_run_instructions action h >>? λ (h', action').
      process_next_action action' h' >>? λ (h'', output).
      after_frame_run (gas_remaining_before h.spec action') output h''

  -- The action of a frame whose transaction is within its limits, by these instructions.
  unfoldable pub run_instructions :
      (Host W S → Option (Host W S × InterpreterAction R))
      → Host W S
      → Outcome (Host W S) E (InterpreterAction R)
  unfolding before_frame_run
  run_instructions run h = before_frame_run h >>? λ (h', stopped). elim stopped [
    | some action ↦ some (h', DbResult.ok action)
    | none ↦ do (h'', action) ← run h'; some (h'', DbResult.ok action)
  ]

  unfoldable pub frame_run : Host W S → Outcome (Host W S) E (FrameInitOrResult R)
  unfolding run_instructions process_action
  frame_run h = run_instructions V.run_plain h >>? λ (h', action). process_action action h'

  -- From Rex4 on, what a returned frame disabled is enabled.
  unfoldable pub enable_returned : Host W S → Host W S
  unfolding is_enabled
  enable_returned h =
      if is_enabled h.spec MegaSpecId.rex4
      then record h {
        volatile_data_tracker =
            enable_access_if_returning (V.journal_depth h.rest) h.volatile_data_tracker;
      }
      else h

  unfoldable pub frame_return_result :
      FrameResult R → Host W S → Outcome (Host W S) E (Option (FrameResult R))
  unfolding Hooks.before_frame_return_result enable_returned
  frame_return_result r h = hook r (Hooks.before_frame_return_result R false r) h >>? λ (h', r').
      inner (V.frame_return_result r') h' >>? λ (h'', answer).
      some (enable_returned h'', DbResult.ok answer)
