-- ===== src/Evm/Frames/Running.antt =====
-- crates/mega-evm/src/evm/execution.rs: while a frame runs and returns, the limit trackers keep in
-- step with revm's stack of frames.
use mega_evm.Prelude.{
  ℕ, suc, ◌≡◌, ◌≢◌, sym, ap, ◌∙◌, Bool, true, false, Option, none, some, [], ◌∷◌, if◌then◌else◌,
  Returns, Returns-some, Returns-bind, Returns-elim, Returns-weaken,
}
use mega_evm.Spec.{MegaSpecId, is_enabled}
use mega_evm.Limit.Events.{DbResult}
use mega_evm.Limit.Revm.{Revm, FrameResult, InterpreterAction}
use mega_evm.Limit.Additional.Depth.{HasDepth}
use mega_evm.Limit.Additional.Depth.Frames as Depth
use mega_evm.System.Intercept.{CallInputs, Bindings, Host}
use mega_evm.Evm.Frames.{FrameInitOrResult, Inner}
use mega_evm.Evm.Frames.Run.{
  before_frame_run, finish, charge_code_deposit, after_frame_run_instructions, process_next_action,
  after_frame_run, process_action, run_instructions, frame_run, enable_returned,
  frame_return_result,
}
use mega_evm.Evm.Frames.Stacks.{Stack, finish_top, pop_finished, KeepsFrames, IsRevm}
use mega_evm.Evm.Frames.Balance.{Holds, >>?-Holds, IsAt, KeepsFrames-IsAt, inner-Holds, hook-Holds}

module _ {R : Revm} {W S E : Type 0} (B : Bindings R W) (V : Inner R W S E)
    (execute : Host W S → CallInputs R → R.Bytes → ℕ → Option (Host W S × FrameResult R))
    (stack : S → Stack) (revm : IsRevm V execute stack) (spec : MegaSpecId)
    (on : is_enabled spec MegaSpecId.mini_rex ≡ true) where
  abbrev At : Stack → ℕ → Host W S → Type 0
  At l n h = IsAt B V execute stack revm spec on l n h

  -- A frame that ran starts another one, or is finished.
  abbrev pub Ran : Stack → ℕ → FrameInitOrResult R → Host W S → Type 0
  Ran l n (FrameInitOrResult.item init) h = At (false ∷ l) n h
  Ran l n (FrameInitOrResult.result r) h = At (true ∷ l) n h

  before_frame_run-At :
      (l : Stack) (n : ℕ) (h : Host W S)
      → At l n h
      → Returns (λ x. Holds (λ _ h'. At l n h') x) (before_frame_run V h)
  unfolding before_frame_run
  before_frame_run-At l n h (s, d, e) =
      hook-Holds B V execute stack revm spec on (λ _ h'. At l n h') _ _ h s
        (Returns-bind (λ (a, _). HasDepth n a) _ _ _
          (Depth.before_frame_run-HasDepth R n (V.frame_gas h.rest) h.additional_limit d)
          λ _ d'. Returns-some _ _ (s, d', e))

  pub run_instructions-At :
      (run : Host W S → Option (Host W S × InterpreterAction R)) (l : Stack) (n : ℕ) (h : Host W S)
      → ((h : Host W S) → Returns (λ (h', _). KeepsFrames stack h h') (run h))
      → At l n h
      → Returns (λ x. Holds (λ _ h'. At l n h') x) (run_instructions V run h)
  unfolding run_instructions
  run_instructions-At run l n h keeps p =
      >>?-Holds (λ _ h'. At l n h') (λ _ h'. At l n h') _ _ (before_frame_run-At l n h p)
        λ h' stopped p'.
          Returns-elim _ stopped _ _
            (Returns-bind (λ (h'', _). KeepsFrames stack h' h'') _ _ _ (keeps h')
              λ (h'', _) k.
                Returns-some _ _ (KeepsFrames-IsAt B V execute stack revm spec on l n h' h'' k p'))
            λ action. Returns-some _ _ p'

  finish-Ran :
      (output : FrameInitOrResult R) (l : Stack) (n : ℕ) (h : Host W S)
      → At (false ∷ l) n h
      → Ran l n output (finish V output h)
  unfolding finish
  finish-Ran (FrameInitOrResult.item init) l n h p = p
  finish-Ran (FrameInitOrResult.result r) l n h (s, d, e) =
      (s, d, revm.set_finished h.rest ∙ ap finish_top e)

  after_frame_run-Ran :
      (before : Option ℕ) (output : FrameInitOrResult R) (l : Stack) (n : ℕ) (h : Host W S)
      → Ran l n output h
      → Returns (λ x. Holds (Ran l n) x) (after_frame_run V before output h)
  unfolding after_frame_run
  after_frame_run-Ran before (FrameInitOrResult.item init) l n h p = Returns-some _ _ p
  after_frame_run-Ran before (FrameInitOrResult.result r) l n h (s, d, e) =
      hook-Holds B V execute stack revm spec on (Ran l n) _ _ h s (
        Returns-bind (λ (a, _). HasDepth n a) _ _ _
          (Depth.after_frame_run-HasDepth R n before r h.additional_limit d)
          λ (a, r') d'.
            let q : At (true ∷ l) n (record h { additional_limit = a }) = (s, d', e) in
            Returns-some _ (a, FrameInitOrResult.result r') q)

  pub process_action-Ran :
      (action : InterpreterAction R) (l : Stack) (n : ℕ) (h : Host W S)
      → At (false ∷ l) n h
      → Returns (λ x. Holds (Ran l n) x) (process_action V action h)
  unfolding process_action after_frame_run_instructions process_next_action
  process_action-Ran action l n h (s, d, e) =
      let frame = V.frame_data h.rest in
      >>?-Holds (λ _ h'. At (false ∷ l) n h') (Ran l n) _ _
        (hook-Holds B V execute stack revm spec on (λ _ h'. At (false ∷ l) n h') _ _ h s
          (Returns-weaken _ _ _
            (Depth.after_frame_run_instructions-HasDepth R n frame
              (charge_code_deposit V frame action) h.additional_limit d)
            λ (a, _) d'. (s, d', e)))
        λ h' action' (s', d', e').
          >>?-Holds (Ran l n) (Ran l n) _ _
            (>>?-Holds (λ _ h''. At (false ∷ l) n h'') (Ran l n) _ _
              (inner-Holds B V execute stack revm spec on (λ _ h''. At (false ∷ l) n h'')
                (V.process_next_action action') h'
                λ _ _. (s', d', revm.process_next_action action' h'.rest ∙ e'))
              λ h'' output p''.
                Returns-some _ (finish V output h'', DbResult.ok output)
                  (finish-Ran output l n h'' p''))
            λ h'' output q. after_frame_run-Ran _ output l n h'' q

  pub frame_run-Ran :
      (l : Stack) (n : ℕ) (h : Host W S)
      → At (false ∷ l) n h
      → Returns (λ x. Holds (Ran l n) x) (frame_run V h)
  unfolding frame_run
  frame_run-Ran l n h p =
      >>?-Holds (λ _ h'. At (false ∷ l) n h') (Ran l n) _ _
        (run_instructions-At V.run_plain (false ∷ l) n h revm.run_plain p)
        λ h' action p'. process_action-Ran action l n h' p'

  -- The result went to a parent, or is the transaction's.
  abbrev pub Returned : Stack → ℕ → Option (FrameResult R) → Host W S → Type 0
  Returned l n none h = At (pop_finished l) n h × (pop_finished l ≢ [])
  Returned l n (some r) h = At (pop_finished l) n h × (pop_finished l ≡ [])

  inner-Returned :
      (r : FrameResult R) (answer : Option (FrameResult R)) (l : Stack) (n : ℕ) (h : Host W S)
      → At l n h
      → (V.frame_return_result r h.rest).1 ≡ DbResult.ok answer
      → Returned l n answer (record h { rest = (V.frame_return_result r h.rest).0 })
  inner-Returned r none l n h (s, d, e) ok = (
    (s, d, revm.frame_return_result r h.rest ∙ ap pop_finished e),
    λ empty. revm.takes_result r h.rest ok (ap pop_finished e ∙ empty),
  )
  inner-Returned r (some r') l n h (s, d, e) ok = (
    (s, d, revm.frame_return_result r h.rest ∙ ap pop_finished e),
    sym (ap pop_finished e) ∙ revm.last_result r r' h.rest ok,
  )

  At-if :
      (b : Bool) (l : Stack) (n : ℕ) (h h' : Host W S)
      → At l n h
      → At l n h'
      → At l n (if b then h else h')
  At-if true l n h h' p p' = p
  At-if false l n h h' p p' = p'

  enable_returned-At : (l : Stack) (n : ℕ) (h : Host W S) → At l n h → At l n (enable_returned V h)
  unfolding enable_returned
  enable_returned-At l n h p = At-if _ l n _ h p p

  enable_returned-Returned :
      (answer : Option (FrameResult R)) (l : Stack) (n : ℕ) (h : Host W S)
      → Returned l n answer h
      → Returned l n answer (enable_returned V h)
  enable_returned-Returned none l n h (p, e) = (enable_returned-At (pop_finished l) n h p, e)
  enable_returned-Returned (some r) l n h (p, e) = (enable_returned-At (pop_finished l) n h p, e)

  pub frame_return_result-Returned :
      (r : FrameResult R) (l : Stack) (n : ℕ) (h : Host W S)
      → At l (suc n) h
      → Returns (λ x. Holds (Returned l n) x) (frame_return_result V r h)
  unfolding frame_return_result
  frame_return_result-Returned r l n h (s, d, e) =
      >>?-Holds (λ _ h'. At l n h') (Returned l n) _ _
        (hook-Holds B V execute stack revm spec on (λ _ h'. At l n h') _ _ h s
          (Returns-weaken _ _ _
            (Depth.before_frame_return_result-HasDepth R n false r h.additional_limit d)
            λ (a, _) d'. (s, d', e)))
        λ h' r' p'.
          >>?-Holds (Returned l n) (Returned l n) _ _
            (inner-Holds B V execute stack revm spec on (Returned l n) (V.frame_return_result r') h'
              λ answer ok. inner-Returned r' answer l n h' p' ok)
            λ h'' answer q.
              Returns-some _ (enable_returned V h'', DbResult.ok answer)
                (enable_returned-Returned answer l n h'' q)
