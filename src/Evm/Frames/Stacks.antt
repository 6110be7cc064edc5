-- ===== src/Evm/Frames/Stacks.antt =====
-- What crates/mega-evm/src/evm/execution.rs relies on of revm's EVM: its stack of frames.
use mega_evm.Prelude.{ℕ, ◌≡◌, ◌≢◌, Bool, true, false, Option, none, some, List, [], ◌∷◌, Returns}
use mega_evm.Spec.{MegaSpecId}
use mega_evm.Limit.Events.{Address, FrameData, DbResult}
use mega_evm.Limit.Revm.{Revm, FrameResult, InterpreterAction}
use mega_evm.Limit.Additional.Returns.{FrameInitResult}
use mega_evm.Limit.Additional.Depth.{Hooked}
use mega_evm.System.Intercept.{CallInputs, Host}
use mega_evm.Evm.Frames.{FrameInit, Inner}

-- For each frame, from the top one, whether it is finished.
abbrev pub Stack : Type 0
Stack = List Bool

-- `set_finished(true)` of the top frame.
abbrev pub finish_top : Stack → Stack
finish_top [] = []
finish_top (_ ∷ below) = true ∷ below

-- The top frame is removed if it is finished.
abbrev pub pop_finished : Stack → Stack
pop_finished (true ∷ below) = below
pop_finished stack = stack

abbrev pub AllRunning : Stack → Type 0
AllRunning [] = Unit
AllRunning (finished ∷ below) = (finished ≡ false) × AllRunning below

module _ {W S : Type 0} (stack : S → Stack) where
  -- The version and the stack of frames stay, and the limits change by their hooks.
  pub record KeepsFrames (h h' : Host W S) : Type 0 where
    pub same_spec : h'.spec ≡ h.spec
    pub same_stack : stack h'.rest ≡ stack h.rest
    pub hooked : Hooked h.additional_limit h'.additional_limit

-- A frame is pushed when revm makes it, and popped when its result is returned; then there is a
-- parent that takes the result, or the result is that of the transaction. Neither the instructions
-- of a frame nor a keyless deployment touch the stack.
pub record IsRevm {R : Revm} {W S E : Type 0} (V : Inner R W S E)
    (execute : Host W S → CallInputs R → R.Bytes → ℕ → Option (Host W S × FrameResult R))
    (stack : S → Stack) : Type 0 where
  pub init_item :
      (init : FrameInit R) (s : S) (frame : FrameData)
      → (V.frame_init init s).1 ≡ DbResult.ok (FrameInitResult.item frame)
      → stack (V.frame_init init s).0 ≡ false ∷ stack s
  pub init_result :
      (init : FrameInit R) (s : S) (r : FrameResult R)
      → (V.frame_init init s).1 ≡ DbResult.ok (FrameInitResult.result r)
      → stack (V.frame_init init s).0 ≡ stack s
  pub run_plain : (h : Host W S) → Returns (λ (h', action). KeepsFrames stack h h') (V.run_plain h)
  pub process_next_action :
      (action : InterpreterAction R) (s : S) → stack (V.process_next_action action s).0 ≡ stack s
  pub inspect_is_empty :
      (spec : MegaSpecId) (address : Address) (s : S)
      → stack (V.inspect_is_empty spec address s).0 ≡ stack s
  pub set_finished : (s : S) → stack (V.set_finished s) ≡ finish_top (stack s)
  pub frame_return_result :
      (r : FrameResult R) (s : S) → stack (V.frame_return_result r s).0 ≡ pop_finished (stack s)
  pub takes_result :
      (r : FrameResult R) (s : S)
      → (V.frame_return_result r s).1 ≡ DbResult.ok none
      → pop_finished (stack s) ≢ []
  pub last_result :
      (r r' : FrameResult R) (s : S)
      → (V.frame_return_result r s).1 ≡ DbResult.ok (some r')
      → pop_finished (stack s) ≡ []
  pub execute_keyless :
      (h : Host W S) (inputs : CallInputs R) (bytes : R.Bytes) (limit : ℕ)
      → Returns (λ (h', r). KeepsFrames stack h h') (execute h inputs bytes limit)
