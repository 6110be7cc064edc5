-- ===== src/Evm/Frames/Starting.antt =====
-- crates/mega-evm/src/evm/execution.rs: `frame_init` keeps the limit trackers in step with revm's
-- stack of frames.
use mega_evm.Prelude.{
  ℕ, suc, ◌≡◌, refl, ap, ◌∙◌, true, false, Option, none, some, ◌∷◌, ◌>>=◌, Returns, Returns-some,
  Returns-bind, Returns-elim, Returns-if, Returns-weaken,
}
use mathlib.Core.Path.{subst}
use mega_evm.Spec.{MegaSpecId, is_enabled}
use mega_evm.Limit.Events as Events
use mega_evm.Limit.Events.{Address, FrameData, DbResult}
use mega_evm.Limit.Revm.{Revm, FrameResult}
use mega_evm.Limit.Additional.Returns as Hooks
use mega_evm.Limit.Additional.Returns.{FrameInitResult}
use mega_evm.Limit.Additional.Depth.{
  HasDepth, push_empty_frame-HasDepth, set_compute_gas_limit-HasDepth,
}
use mega_evm.Limit.Additional.Depth.Frames as Depth
use mega_evm.Limit.Additional.Depth.Frames.{HasPushed}
use mega_evm.Access.Tracker.{check_and_mark_oracle_access}
use mega_evm.System.Intercept.{CallInputs, Bindings, Host}
use mega_evm.System.Intercept.Keeps.{dispatch-Keeps}
use mega_evm.Evm.Frames.{FrameInput, FrameInit, Inner, Outcome, hook}
use mega_evm.Evm.Frames.Start.{
  mark_oracle, detect_oracle, intercept_call, limit_input, after_inspection, limit_frame,
  init_inner, unless_result, frame_init,
}
use mega_evm.Evm.Frames.Stacks.{Stack, IsRevm}
use mega_evm.Evm.Frames.Balance.{
  Holds, Holds-answer, >>?-Holds, IsAt, KeepsFrames-IsAt, inner-Holds, hook-Holds,
}

abbrev IfNone {ℓ κ} : {A : Type ℓ} → Option A → Type κ → Type κ → Type κ
IfNone none P Q = P
IfNone (some _) P Q = Q

IfNone-same {ℓ κ} : {A : Type ℓ} (o : Option A) (P : Type κ) → P → IfNone o P P
IfNone-same none P p = p
IfNone-same (some a) P p = p

module _ {R : Revm} {W S E : Type 0} (B : Bindings R W) (V : Inner R W S E)
    (execute : Host W S → CallInputs R → R.Bytes → ℕ → Option (Host W S × FrameResult R))
    (stack : S → Stack) (revm : IsRevm V execute stack) (spec : MegaSpecId)
    (on : is_enabled spec MegaSpecId.mini_rex ≡ true) where
  abbrev At : Stack → ℕ → Host W S → Type 0
  At l n h = IsAt B V execute stack revm spec on l n h

  mark_oracle-At :
      (inputs : CallInputs R) (l : Stack) (n : ℕ) (h : Host W S)
      → At l n h
      → Returns (At l n) (mark_oracle B V execute inputs h)
  unfolding mark_oracle
  mark_oracle-At inputs l n h (s, d, e) =
      let (tracker, marked) =
        check_and_mark_oracle_access inputs.target_address h.volatile_data_tracker in
      Returns-if _ marked _ _
        (Returns-elim _ tracker.compute_gas_limit _ _ (Returns-some _ _ (s, d, e)) λ limit.
          Returns-bind (HasDepth n) _ _ _
            (set_compute_gas_limit-HasDepth n limit h.additional_limit d)
            λ _ d'. Returns-some _ _ (s, d', e))
        (Returns-some _ (record h { volatile_data_tracker = tracker }) (s, d, e))

  detect_oracle-IsAt :
      (input : FrameInput R) (l : Stack) (n : ℕ) (h : Host W S)
      → At l n h
      → Returns (At l n) (detect_oracle B V execute input h)
  unfolding detect_oracle
  detect_oracle-IsAt (FrameInput.call scheme inputs) l n h p =
      Returns-if _ _ _ _ (mark_oracle-At inputs l n h p) (Returns-some _ h p)
  detect_oracle-IsAt (FrameInput.create g) l n h p = Returns-some _ h p
  detect_oracle-IsAt FrameInput.empty l n h p = Returns-some _ h p

  -- The state after the interceptors: an answer has a frame to pop.
  abbrev Intercepted : Stack → ℕ → Host W S × Option (FrameResult R) → Type 0
  Intercepted l n (h, answer) = IfNone answer (At l n h) (At l (suc n) h)

  intercept_call-Intercepted :
      (init : FrameInit R) (l : Stack) (n : ℕ) (h : Host W S)
      → At l n h
      → Returns (λ x. Intercepted l n x) (intercept_call B V execute init h)
  unfolding intercept_call
  intercept_call-Intercepted init l n h p =
      elim init.frame_input
        as (λ input.
          Returns (λ x. Intercepted l n x)
            (intercept_call B V execute (record { depth = init.depth; frame_input = input }) h)) [
              | FrameInput.call scheme inputs ↦
                  Returns-bind (λ (h', _). At l n h') _ _ _
                    (dispatch-Keeps B execute (At l n) (λ h env tracker q. q)
                      (λ h inputs bytes limit q.
                        Returns-weaken _ _ _ (revm.execute_keyless h inputs bytes limit)
                          λ (h', _) k. KeepsFrames-IsAt B V execute stack revm spec on l n h h' k q)
                      inputs init.depth h p)
                    λ (h', answer) (s, d, e).
                      Returns-elim _ answer _ _ (Returns-some _ (h', none) (s, d, e)) λ r.
                        (let enabled : is_enabled h.spec MegaSpecId.mini_rex ≡ true = rw (p.0) on in
                          rw enabled (
                            Returns-bind (HasDepth (suc n)) _ _ _
                              (push_empty_frame-HasDepth n h'.additional_limit d)
                              λ _ d'. Returns-some _ _ (s, d', e)))
              | FrameInput.create g ↦ Returns-some _ (h, none) p
              | FrameInput.empty ↦ Returns-some _ (h, none) p
            ]

  stack-after_inspection :
      (input : Events.FrameInput) (spec : MegaSpecId) (s : S)
      → stack (after_inspection B V execute input spec s) ≡ stack s
  unfolding after_inspection
  stack-after_inspection (Events.FrameInput.call target true g range) spec s =
      revm.inspect_is_empty spec target s
  stack-after_inspection (Events.FrameInput.call target false g range) spec s = refl
  stack-after_inspection (Events.FrameInput.create g) spec s = refl
  stack-after_inspection Events.FrameInput.empty spec s = refl

  limit_frame-IsAt :
      (input : FrameInput R) (l : Stack) (n : ℕ) (h : Host W S)
      → At l n h
      → Returns (λ x. Holds (λ _ h'. At l (suc n) h') x) (limit_frame B V execute input h)
  unfolding limit_frame
  limit_frame-IsAt input l n h (s, d, e) =
      let enabled : is_enabled h.spec MegaSpecId.mini_rex ≡ true = rw s on in
      rw enabled (
        Returns-bind (λ (a', answer). HasPushed n a' answer) _ _ _
          (Depth.before_frame_init-HasDepth R
            (λ spec address. (V.inspect_is_empty spec address h.rest).1) n
            (limit_input B V execute input) h.additional_limit d)
          λ (a', answer) pushed.
            let spec' = h.additional_limit.state_growth.spec in
            let h' = record h {
              additional_limit = a';
              rest = after_inspection B V execute (limit_input B V execute input) spec' h.rest;
            } in
            Returns-some _ _ (
              Holds-answer (λ _ h'. At l (suc n) h') h' answer
                λ r ok. (
                  s,
                  subst (HasPushed n a') ok pushed,
                  stack-after_inspection (limit_input B V execute input) spec' h.rest ∙ e,
                )))

  -- The state after a frame is made, which is then the top one, or is refused or answered.
  abbrev pub Initialized : Stack → ℕ → FrameInitResult R → Host W S → Type 0
  Initialized l n (FrameInitResult.item frame) h = At (false ∷ l) n h
  Initialized l n (FrameInitResult.result r) h = At l n h

  after_frame_init-Initialized :
      (made : FrameInitResult R) (l : Stack) (n : ℕ) (h : Host W S)
      → Initialized l n made h
      → Returns
          (λ x. Holds {E = E} (Initialized l n) x)
          (hook made (λ a. do a' ← Hooks.after_frame_init R made a; some (a', made)) h)
  after_frame_init-Initialized (FrameInitResult.item frame) l n h (s, d, e) =
      hook-Holds B V execute stack revm spec on (Initialized l n) _ _ h s (
        Returns-bind (HasDepth n) _ _ _
          (Depth.after_frame_init-HasDepth R n (FrameInitResult.item frame) h.additional_limit d)
          λ a d'.
            let q : At (false ∷ l) n (record h { additional_limit = a }) = (s, d', e) in
            Returns-some _ (a, FrameInitResult.item frame) q)
  after_frame_init-Initialized (FrameInitResult.result r) l n h (s, d, e) =
      hook-Holds B V execute stack revm spec on (Initialized l n) _ _ h s (
        Returns-bind (HasDepth n) _ _ _
          (Depth.after_frame_init-HasDepth R n (FrameInitResult.result r) h.additional_limit d)
          λ a d'.
            let q : At l n (record h { additional_limit = a }) = (s, d', e) in
            Returns-some _ (a, FrameInitResult.result r) q)

  made-Initialized :
      (init : FrameInit R) (made : FrameInitResult R) (l : Stack) (n : ℕ) (h : Host W S)
      → At l n h
      → (V.frame_init init h.rest).1 ≡ DbResult.ok made
      → Initialized l n made (record h { rest = (V.frame_init init h.rest).0 })
  made-Initialized init (FrameInitResult.item frame) l n h (s, d, e) ok =
      (s, d, revm.init_item init h.rest frame ok ∙ ap (λ l. false ∷ l) e)
  made-Initialized init (FrameInitResult.result r) l n h (s, d, e) ok =
      (s, d, revm.init_result init h.rest r ok ∙ e)

  init_inner-Initialized :
      (init : FrameInit R) (l : Stack) (n : ℕ) (h : Host W S)
      → At l n h
      → Returns (λ x. Holds (Initialized l n) x) (init_inner B V execute init h)
  unfolding init_inner
  init_inner-Initialized init l n h p =
      >>?-Holds (Initialized l n) (Initialized l n) _ _
        (inner-Holds B V execute stack revm spec on (Initialized l n) (V.frame_init init) h
          λ made ok. made-Initialized init made l n h p ok)
        λ h' made q. after_frame_init-Initialized made l n h' q

  unless_result-Initialized :
      (answer : Option (FrameResult R)) (P : Host W S → Type 0) (l : Stack) (n : ℕ)
      (next : Host W S → Outcome (Host W S) E (FrameInitResult R)) (h : Host W S)
      → IfNone answer (P h) (At l n h)
      → (P h → Returns (λ x. Holds (Initialized l n) x) (next h))
      → Returns (λ x. Holds (Initialized l n) x) (unless_result B V execute answer next h)
  unfolding unless_result
  unless_result-Initialized none P l n next h q k = k q
  unless_result-Initialized (some r) P l n next h q k = Returns-some _ _ q

  -- If revm's stack is in step with the trackers, a frame that starts has one more frame in each
  -- tracker: that of revm's new frame, or the one that the return of its result pops.
  pub frame_init-Initialized :
      (init : FrameInit R) (l : Stack) (n : ℕ) (h : Host W S)
      → At l n h
      → Returns (λ x. Holds (Initialized l (suc n)) x) (frame_init B V execute init h)
  unfolding frame_init
  frame_init-Initialized init l n h p =
      Returns-bind (At l n) _ _ _ (detect_oracle-IsAt init.frame_input l n h p) λ h' p'.
        Returns-bind (Intercepted l n) _ _ _ (intercept_call-Intercepted init l n h' p')
          λ (h'', answer) q. unless_result-Initialized answer (At l n) l (suc n) _ h'' q λ p''.
            >>?-Holds (λ _ h'. At l (suc n) h') (Initialized l (suc n)) _ _
              (limit_frame-IsAt init.frame_input l n h'' p'')
              λ h3 refusal p3.
                unless_result-Initialized refusal (At l (suc n)) l (suc n) _ h3
                  (IfNone-same refusal (At l (suc n) h3) p3)
                  λ p4. init_inner-Initialized init l (suc n) h3 p4
