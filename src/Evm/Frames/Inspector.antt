-- ===== src/Evm/Frames/Inspector.antt =====
-- crates/mega-evm/src/evm/execution.rs: `InspectorEvmTr` of `MegaEvm`, the frames of a transaction
-- that an inspector watches. `none` as a result is a panic.
use mega_evm.Prelude.{ℕ, Option, none, some, ◌>>=◌, if◌then◌else◌}
use mega_evm.Spec.{MegaSpecId, is_enabled}
use mega_evm.Limit.Events.{DbResult}
use mega_evm.Limit.Revm.{Revm, FrameResult, InterpreterAction}
use mega_evm.Limit.Additional.{push_empty_frame}
use mega_evm.Limit.Additional.Returns.{FrameInitResult}
use mega_evm.System.Intercept.{CallInputs, Bindings, Host}
use mega_evm.Evm.Frames.{FrameInput, FrameInit, FrameInitOrResult, Inner, Outcome, ◌>>?◌}
use mega_evm.Evm.Frames.Start.{frame_init}
use mega_evm.Evm.Frames.Run.{run_instructions, process_action}

-- The inspector, which sees the whole context, and revm's loop over inspected instructions.
pub record Inspector (R : Revm) (W S : Type 0) : Type 0 where
  pub frame_start : FrameInput R → Host W S → Host W S × (FrameInput R × Option (FrameResult R))
  pub frame_end : FrameInput R → FrameResult R → Host W S → Host W S × FrameResult R
  pub initialize_interp : Host W S → Host W S
  pub inspect_instructions : Host W S → Option (Host W S × InterpreterAction R)
  pub frame_input : S → FrameInput R

module _ {R : Revm} {W S E : Type 0} (B : Bindings R W) (V : Inner R W S E)
    (execute_keyless_deploy_call : Host W S
      → CallInputs R
      → R.Bytes
      → ℕ
      → Option (Host W S × FrameResult R))
    (I : Inspector R W S) where
  -- The result of a frame, after the inspector has seen it.
  unfoldable pub end_frame :
      FrameInput R → FrameResult R → Host W S → Outcome (Host W S) E (FrameInitResult R)
  end_frame input output h =
      let (h', output') = I.frame_end input output h in
      some (h', DbResult.ok (FrameInitResult.result output'))

  -- A frame that the inspector answers, with an empty frame for the return to pop.
  unfoldable pub skip_frame :
      FrameInput R → FrameResult R → Host W S → Outcome (Host W S) E (FrameInitResult R)
  unfolding is_enabled end_frame
  skip_frame input output h =
      if is_enabled h.spec MegaSpecId.mini_rex
      then (do
        a ← push_empty_frame h.additional_limit
        end_frame input output (record h { additional_limit = a }))
      else end_frame input output h

  -- What the inspector does with a frame that was made or answered.
  unfoldable pub initialize_or_end :
      FrameInput R → FrameInitResult R → Host W S → Outcome (Host W S) E (FrameInitResult R)
  unfolding end_frame
  initialize_or_end input (FrameInitResult.item frame) h =
      some (I.initialize_interp h, DbResult.ok (FrameInitResult.item frame))
  initialize_or_end input (FrameInitResult.result output) h = end_frame input output h

  unfoldable pub inspect_frame_init :
      FrameInit R → Host W S → Outcome (Host W S) E (FrameInitResult R)
  unfolding frame_init skip_frame initialize_or_end
  inspect_frame_init init h =
      let (h', (input, skipped)) = I.frame_start init.frame_input h in
      elim skipped [
        | some output ↦ skip_frame input output h'
        | none ↦
            frame_init B V execute_keyless_deploy_call (record init { frame_input = input }) h'
            >>? λ (h'', made). initialize_or_end input made h''
      ]

  -- `frame_end` on a result.
  unfoldable pub end_run :
      FrameInitOrResult R → Host W S → Outcome (Host W S) E (FrameInitOrResult R)
  end_run (FrameInitOrResult.item init) h = some (h, DbResult.ok (FrameInitOrResult.item init))
  end_run (FrameInitOrResult.result r) h =
      let (h', r') = I.frame_end (I.frame_input h.rest) r h in
      some (h', DbResult.ok (FrameInitOrResult.result r'))

  unfoldable pub inspect_frame_run : Host W S → Outcome (Host W S) E (FrameInitOrResult R)
  unfolding run_instructions process_action end_run
  inspect_frame_run h = run_instructions V I.inspect_instructions h >>? λ (h', action).
      process_action V action h' >>? λ (h'', output). end_run output h''
