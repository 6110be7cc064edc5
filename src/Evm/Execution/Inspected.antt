-- ===== src/Evm/Execution/Inspected.antt =====
-- crates/mega-evm/src/evm/execution.rs: `InspectorEvmTr` keeps the limit trackers in step with revm's
-- stack of frames.
use mega_evm.Prelude.{
  ℕ, suc, ◌≡◌, true, false, Option, [], ◌∷◌, Returns, Returns-some, Returns-bind, Returns-elim,
}
use mega_evm.Spec.{MegaSpecId, is_enabled}
use mega_evm.Limit.Events.{DbResult}
use mega_evm.Limit.Revm.{Revm, FrameResult}
use mega_evm.Limit.Additional.Returns.{FrameInitResult}
use mega_evm.Limit.Additional.Depth.{HasDepth, push_empty_frame-HasDepth}
use mega_evm.System.Intercept.{CallInputs, Bindings, Host}
use mega_evm.Evm.Frames.{FrameInput, FrameInit, FrameInitOrResult, Inner}
use mega_evm.Evm.Frames.Run.{frame_return_result}
use mega_evm.Evm.Frames.Inspector.{
  Inspector, end_frame, skip_frame, initialize_or_end, inspect_frame_init, end_run,
  inspect_frame_run,
}
use mega_evm.Evm.Frames.Stacks.{Stack, KeepsFrames, IsRevm}
use mega_evm.Evm.Frames.Running.{
  Ran, run_instructions-At, process_action-Ran, frame_return_result-Returned,
}
use mega_evm.Evm.Frames.Balance.{Holds, >>?-Holds, IsAt, KeepsFrames-IsAt}
use mega_evm.Evm.Frames.Starting.{Initialized, frame_init-Initialized}
use mega_evm.Evm.Frames.Loop.{Phase, Reach}
use mega_evm.Evm.Frames.Loop.Invariant.{KeepsBalance, Reach-Balanced}
use mega_evm.Evm.Execution.{Op}
use mega_evm.Evm.Execution.Settled.{InStep, Balanced-InStep}

-- What an inspector leaves as it is.
pub record IsInspector {R : Revm} {W S : Type 0} (I : Inspector R W S) (stack : S → Stack)
    : Type 0 where
  pub frame_start :
      (input : FrameInput R) (h : Host W S) → KeepsFrames stack h (I.frame_start input h).0
  pub frame_end :
      (input : FrameInput R) (r : FrameResult R) (h : Host W S)
      → KeepsFrames stack h (I.frame_end input r h).0
  pub initialize_interp : (h : Host W S) → KeepsFrames stack h (I.initialize_interp h)
  pub inspect_instructions :
      (h : Host W S) → Returns (λ (h', _). KeepsFrames stack h h') (I.inspect_instructions h)

module _ {R : Revm} {W S E : Type 0} (B : Bindings R W) (V : Inner R W S E)
    (execute : Host W S → CallInputs R → R.Bytes → ℕ → Option (Host W S × FrameResult R))
    (stack : S → Stack) (revm : IsRevm V execute stack) (spec : MegaSpecId)
    (on : is_enabled spec MegaSpecId.mini_rex ≡ true) where
  abbrev At : Stack → ℕ → Host W S → Type 0
  At l n h = IsAt B V execute stack revm spec on l n h

  module _ (I : Inspector R W S) (inspector : IsInspector I stack) where
    kept : (l : Stack) (n : ℕ) (h h' : Host W S) → KeepsFrames stack h h' → At l n h → At l n h'
    kept l n h h' k p = KeepsFrames-IsAt B V execute stack revm spec on l n h h' k p

    end_frame-Initialized :
        (input : FrameInput R) (r : FrameResult R) (l : Stack) (n : ℕ) (h : Host W S)
        → At l n h
        → Returns
            (λ x. Holds (Initialized B V execute stack revm spec on l n) x)
            (end_frame B V execute I input r h)
    unfolding end_frame
    end_frame-Initialized input r l n h p =
        let (h', r') = I.frame_end input r h in
        Returns-some _ (h', DbResult.ok (FrameInitResult.result r'))
          (kept l n h h' (inspector.frame_end input r h) p)

    initialize_or_end-Initialized :
        (input : FrameInput R) (made : FrameInitResult R) (l : Stack) (n : ℕ) (h : Host W S)
        → Initialized B V execute stack revm spec on l n made h
        → Returns
            (λ x. Holds (Initialized B V execute stack revm spec on l n) x)
            (initialize_or_end B V execute I input made h)
    unfolding initialize_or_end
    initialize_or_end-Initialized input (FrameInitResult.item frame) l n h p =
        Returns-some _ (I.initialize_interp h, DbResult.ok (FrameInitResult.item frame))
          (kept (false ∷ l) n h (I.initialize_interp h) (inspector.initialize_interp h) p)
    initialize_or_end-Initialized input (FrameInitResult.result r) l n h p =
        end_frame-Initialized input r l n h p

    skip_frame-Initialized :
        (input : FrameInput R) (r : FrameResult R) (l : Stack) (n : ℕ) (h : Host W S)
        → At l n h
        → Returns
            (λ x. Holds (Initialized B V execute stack revm spec on l (suc n)) x)
            (skip_frame B V execute I input r h)
    unfolding skip_frame
    skip_frame-Initialized input r l n h (s, d, e) =
        let enabled : is_enabled h.spec MegaSpecId.mini_rex ≡ true = rw s on in
        rw enabled (
          Returns-bind (HasDepth (suc n)) _ _ _ (push_empty_frame-HasDepth n h.additional_limit d)
            λ a d'.
              end_frame-Initialized input r l (suc n) (record h { additional_limit = a })
                (s, d', e))

    inspect_frame_init-Initialized :
        (init : FrameInit R) (l : Stack) (n : ℕ) (h : Host W S)
        → At l n h
        → Returns
            (λ x. Holds (Initialized B V execute stack revm spec on l (suc n)) x)
            (inspect_frame_init B V execute I init h)
    unfolding inspect_frame_init
    inspect_frame_init-Initialized init l n h p =
        let (h', (input, skipped)) = I.frame_start init.frame_input h in
        let p' = kept l n h h' (inspector.frame_start init.frame_input h) p in
        Returns-elim _ skipped _ _
          (>>?-Holds (Initialized B V execute stack revm spec on l (suc n))
            (Initialized B V execute stack revm spec on l (suc n)) _ _
            (frame_init-Initialized B V execute stack revm spec on
              (record init { frame_input = input }) l n h' p')
            λ h'' made q. initialize_or_end-Initialized input made l (suc n) h'' q)
          λ r. skip_frame-Initialized input r l n h' p'

    end_run-Ran :
        (output : FrameInitOrResult R) (l : Stack) (n : ℕ) (h : Host W S)
        → Ran B V execute stack revm spec on l n output h
        → Returns
            (λ x. Holds (Ran B V execute stack revm spec on l n) x)
            (end_run B V execute I output h)
    unfolding end_run
    end_run-Ran (FrameInitOrResult.item init) l n h p =
        Returns-some _ (h, DbResult.ok (FrameInitOrResult.item init)) p
    end_run-Ran (FrameInitOrResult.result r) l n h p =
        let (h', r') = I.frame_end (I.frame_input h.rest) r h in
        Returns-some _ (h', DbResult.ok (FrameInitOrResult.result r'))
          (kept (true ∷ l) n h h' (inspector.frame_end (I.frame_input h.rest) r h) p)

    inspect_frame_run-Ran :
        (l : Stack) (n : ℕ) (h : Host W S)
        → At (false ∷ l) n h
        → Returns
            (λ x. Holds (Ran B V execute stack revm spec on l n) x)
            (inspect_frame_run B V execute I h)
    unfolding inspect_frame_run
    inspect_frame_run-Ran l n h p =
        >>?-Holds (λ _ h'. At (false ∷ l) n h') (Ran B V execute stack revm spec on l n) _ _
          (run_instructions-At B V execute stack revm spec on I.inspect_instructions (false ∷ l) n h
            inspector.inspect_instructions p)
          λ h' action p'.
            >>?-Holds (Ran B V execute stack revm spec on l n)
              (Ran B V execute stack revm spec on l n) _ _
              (process_action-Ran B V execute stack revm spec on action l n h' p')
              λ h'' output q. end_run-Ran output l n h'' q

    inspected-KeepsBalance :
        KeepsBalance B V execute stack revm spec on
          (inspect_frame_init B V execute I)
          (inspect_frame_run B V execute I)
          (frame_return_result V)
    inspected-KeepsBalance = record {
      keeps_init = inspect_frame_init-Initialized;
      keeps_run = inspect_frame_run-Ran;
      keeps_return = frame_return_result-Returned B V execute stack revm spec on;
    }

    -- From MiniRex on, if revm keeps its stack of frames as `IsRevm` says and both the trackers and
    -- revm start without frames: while an inspector watches that leaves the version, the limits and
    -- revm's frames alone, whatever frames it answers itself or lets the EVM start, run and return,
    -- each of the four trackers has a frame as long as frames run and whenever a result is
    -- returned; and when the last result is settled, no frame is left in any.
    pub inspect_frames-InStep :
        {X : Type 0} (O : Op R S E X) (init : FrameInit R) (h : Host W S) (c : Phase R × Host W S)
        → h.spec ≡ spec
        → HasDepth 0 h.additional_limit
        → stack h.rest ≡ []
        → Reach
            (inspect_frame_init B V execute I)
            (inspect_frame_run B V execute I)
            (frame_return_result V)
            (Phase.first init, h)
            c
        → InStep O c
    inspect_frames-InStep O init h c s d e reach =
        Balanced-InStep B V execute stack revm spec on O c (
          Reach-Balanced B V execute stack revm spec on _ _ _ inspected-KeepsBalance reach
            (s, d, e))
