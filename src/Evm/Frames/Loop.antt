-- ===== src/Evm/Frames/Loop.antt =====
-- The frames of a transaction, in the order in which revm's loop (`run_exec_loop` and
-- `inspect_run_exec_loop`) calls the functions of crates/mega-evm/src/evm/execution.rs.
pub mod Invariant
use mega_evm.Prelude.{
  ℕ, suc, ◌≡◌, ◌≢◌, refl, sym, ap, ◌∙◌, Bool, true, false, Option, none, some, List, [], ◌∷◌, ◌>>=◌,
  if◌then◌else◌, ◌⊎◌, inl, inr, length, arith, Returns, Returns-none, Returns-some, Returns-bind,
  Returns-each, Returns-elim, Returns-if, Returns-value, Returns-weaken,
}
use mathlib.Core.Path.{subst}
use mega_evm.Spec.{MegaSpecId, is_enabled}
use mega_evm.Limit.Events.{Address, FrameData, DbResult}
use mega_evm.Limit.Revm.{Revm, FrameResult, InterpreterAction}
use mega_evm.Limit.Additional.{AdditionalLimit, push_empty_frame}
use mega_evm.Limit.Additional.Returns as Hooks
use mega_evm.Limit.Additional.Returns.{FrameInitResult}
use mega_evm.Limit.Additional.Depth.{HasDepth, push_empty_frame-HasDepth}
use mega_evm.Limit.Additional.Depth.Frames as Depth
use mega_evm.System.Intercept.{CallInputs, Bindings, Host}
use mega_evm.Evm.Frames.{
  FrameInput, FrameInit, FrameInitOrResult, Inner, Outcome, ◌>>?◌, inner, hook,
}
use mega_evm.Evm.Frames.Start.{frame_init}
use mega_evm.Evm.Frames.Run.{
  before_frame_run, finish, charge_code_deposit, after_frame_run_instructions, gas_remaining_before,
  process_next_action, after_frame_run, process_action, run_instructions, frame_run,
  enable_returned, frame_return_result,
}
use mega_evm.Evm.Frames.Inspector.{
  Inspector, end_frame, skip_frame, initialize_or_end, inspect_frame_init, end_run,
  inspect_frame_run,
}
use mega_evm.Evm.Frames.Stacks.{Stack, finish_top, pop_finished, AllRunning, KeepsFrames, IsRevm}
use mega_evm.Evm.Frames.Running.{
  Ran, frame_run-Ran, run_instructions-At, process_action-Ran, Returned,
  frame_return_result-Returned,
}
use mega_evm.Evm.Frames.Balance.{Holds, >>?-Holds, IsAt, KeepsFrames-IsAt, inner-Holds, hook-Holds}
use mega_evm.Evm.Frames.Starting.{Initialized, frame_init-Initialized}

-- What the loop has in hand: the first frame or another one to start, the top frame to run, a
-- result to return, or the result of the transaction.
pub data Phase (R : Revm) : Type 0 where
  first : FrameInit R → Phase R
  starting : FrameInit R → Phase R
  running : Phase R
  returning : FrameResult R → Phase R
  finished : FrameResult R → Phase R

-- What follows the start of a frame, its run and its return.
abbrev pub started : {R : Revm} → FrameInitResult R → Phase R
started (FrameInitResult.item frame) = Phase.running
started (FrameInitResult.result r) = Phase.returning r

abbrev pub first_started : {R : Revm} → FrameInitResult R → Phase R
first_started (FrameInitResult.item frame) = Phase.running
first_started (FrameInitResult.result r) = Phase.finished r

abbrev pub ran : {R : Revm} → FrameInitOrResult R → Phase R
ran (FrameInitOrResult.item init) = Phase.starting init
ran (FrameInitOrResult.result r) = Phase.returning r

abbrev pub returned : {R : Revm} → FrameResult R → Option (FrameResult R) → Phase R
returned r none = Phase.running
returned r (some r') = Phase.finished r'

-- The loop over functions that start and run a frame: those of `EvmTr`, or those of
-- `InspectorEvmTr`.
module _ {R : Revm} {W S E : Type 0}
    (init_frame : FrameInit R → Host W S → Outcome (Host W S) E (FrameInitResult R))
    (run_frame : Host W S → Outcome (Host W S) E (FrameInitOrResult R))
    (return_frame : FrameResult R → Host W S → Outcome (Host W S) E (Option (FrameResult R))) where
  pub data Step : Phase R × Host W S → Phase R × Host W S → Type 0 where
    opens :
        {h h' : Host W S} (init : FrameInit R) (made : FrameInitResult R)
        → init_frame init h ≡ some (h', DbResult.ok made)
        → Step (Phase.first init, h) (first_started made, h')
    starts :
        {h h' : Host W S} (init : FrameInit R) (made : FrameInitResult R)
        → init_frame init h ≡ some (h', DbResult.ok made)
        → Step (Phase.starting init, h) (started made, h')
    runs :
        {h h' : Host W S} (output : FrameInitOrResult R)
        → run_frame h ≡ some (h', DbResult.ok output)
        → Step (Phase.running, h) (ran output, h')
    returns :
        {h h' : Host W S} (r : FrameResult R) (answer : Option (FrameResult R))
        → return_frame r h ≡ some (h', DbResult.ok answer)
        → Step (Phase.returning r, h) (returned r answer, h')

  pub data Reach (c : Phase R × Host W S) : Phase R × Host W S → Type 0 where
    here : Reach c c
    next : {d e : Phase R × Host W S} → Reach c d → Step d e → Reach c e
