-- ===== src/Evm/Frames/Loop/Invariant.antt =====
-- crates/mega-evm/src/evm/execution.rs: through the loop over a transaction's frames, the limit
-- trackers stay in step with revm's stack of frames.
use mega_evm.Prelude.{
  ℕ, suc, ◌≡◌, refl, true, false, Option, none, some, [], ◌∷◌, ◌⊎◌, inl, inr, length, Returns,
  Returns-value,
}
use mathlib.Core.Path.{subst}
use mega_evm.Spec.{MegaSpecId, is_enabled}
use mega_evm.Limit.Events.{DbResult}
use mega_evm.Limit.Revm.{Revm, FrameResult}
use mega_evm.Limit.Additional.Returns.{FrameInitResult}
use mega_evm.System.Intercept.{CallInputs, Bindings, Host}
use mega_evm.Evm.Frames.{FrameInit, FrameInitOrResult, Inner, Outcome}
use mega_evm.Evm.Frames.Stacks.{Stack, AllRunning, IsRevm}
use mega_evm.Evm.Frames.Running.{Ran, Returned}
use mega_evm.Evm.Frames.Balance.{Holds, IsAt}
use mega_evm.Evm.Frames.Starting.{Initialized}
use mega_evm.Evm.Frames.Loop.{Phase, started, first_started, ran, returned, Step, Reach}

module _ {R : Revm} {W S E : Type 0} (B : Bindings R W) (V : Inner R W S E)
    (execute : Host W S → CallInputs R → R.Bytes → ℕ → Option (Host W S × FrameResult R))
    (stack : S → Stack) (revm : IsRevm V execute stack) (spec : MegaSpecId)
    (on : is_enabled spec MegaSpecId.mini_rex ≡ true) where
  abbrev At : Stack → ℕ → Host W S → Type 0
  At l n h = IsAt B V execute stack revm spec on l n h

  -- While frames run, revm and each tracker have equally many, and only a frame whose result is on
  -- its way is finished; a result that no frame has made has a frame of its own in the trackers.
  abbrev pub Balanced : Phase R × Host W S → Type 0
  Balanced (Phase.first init, h) = At [] 0 h
  Balanced (Phase.starting init, h) = (l : Stack) × AllRunning l × At (false ∷ l) (suc (length l)) h
  Balanced (Phase.running, h) = (l : Stack) × AllRunning l × At (false ∷ l) (suc (length l)) h
  Balanced (Phase.returning r, h) =
      (l : Stack) × AllRunning l
      × (At (true ∷ l) (suc (length l)) h ⊎ At (false ∷ l) (suc (suc (length l))) h)
  Balanced (Phase.finished r, h) = At [] 0 h ⊎ At [] 1 h

  -- The functions that start, run and return a frame keep the trackers in step.
  pub record KeepsBalance
      (init_frame : FrameInit R → Host W S → Outcome (Host W S) E (FrameInitResult R))
      (run_frame : Host W S → Outcome (Host W S) E (FrameInitOrResult R))
      (return_frame : FrameResult R → Host W S → Outcome (Host W S) E (Option (FrameResult R)))
      : Type 0 where
    pub keeps_init :
        (init : FrameInit R) (l : Stack) (n : ℕ) (h : Host W S)
        → At l n h
        → Returns
            (λ x. Holds (Initialized B V execute stack revm spec on l (suc n)) x)
            (init_frame init h)
    pub keeps_run :
        (l : Stack) (n : ℕ) (h : Host W S)
        → At (false ∷ l) n h
        → Returns (λ x. Holds (Ran B V execute stack revm spec on l n) x) (run_frame h)
    pub keeps_return :
        (r : FrameResult R) (l : Stack) (n : ℕ) (h : Host W S)
        → At l (suc n) h
        → Returns (λ x. Holds (Returned B V execute stack revm spec on l n) x) (return_frame r h)

  module _ (init_frame : FrameInit R → Host W S → Outcome (Host W S) E (FrameInitResult R))
      (run_frame : Host W S → Outcome (Host W S) E (FrameInitOrResult R))
      (return_frame : FrameResult R → Host W S → Outcome (Host W S) E (Option (FrameResult R)))
      (keeps : KeepsBalance init_frame run_frame return_frame) where
    started-Balanced :
        (made : FrameInitResult R) (l : Stack) (h : Host W S)
        → AllRunning l
        → Initialized B V execute stack revm spec on (false ∷ l) (suc (suc (length l))) made h
        → Balanced (started made, h)
    started-Balanced (FrameInitResult.item frame) l h a p = (false ∷ l, (refl, a), p)
    started-Balanced (FrameInitResult.result r) l h a p = (l, a, inr p)

    first_started-Balanced :
        (made : FrameInitResult R) (h : Host W S)
        → Initialized B V execute stack revm spec on [] 1 made h
        → Balanced (first_started made, h)
    first_started-Balanced (FrameInitResult.item frame) h p = ([], tt, p)
    first_started-Balanced (FrameInitResult.result r) h p = inr p

    ran-Balanced :
        (output : FrameInitOrResult R) (l : Stack) (h : Host W S)
        → AllRunning l
        → Ran B V execute stack revm spec on l (suc (length l)) output h
        → Balanced (ran output, h)
    ran-Balanced (FrameInitOrResult.item init) l h a p = (l, a, p)
    ran-Balanced (FrameInitOrResult.result r) l h a p = (l, a, inl p)

    -- A finished frame has returned, and then a result that has no frame of revm.
    returned-Balanced :
        (r : FrameResult R) (answer : Option (FrameResult R)) (l : Stack) (h : Host W S)
        → AllRunning l
        → Returned B V execute stack revm spec on (true ∷ l) (length l) answer h
        → Balanced (returned r answer, h)
    returned-Balanced r none [] h a (p, more) = absurd (more refl)
    returned-Balanced r none (b ∷ l) h (e, a) (p, more) =
        (l, a, subst (λ b. At (b ∷ l) (suc (length l)) h) e p)
    returned-Balanced r (some r') [] h a (p, last) = inl p
    returned-Balanced r (some r') (b ∷ l) h a (p, last) = absurd (cc)

    answered-Balanced :
        (r : FrameResult R) (answer : Option (FrameResult R)) (l : Stack) (h : Host W S)
        → AllRunning l
        → Returned B V execute stack revm spec on (false ∷ l) (suc (length l)) answer h
        → Balanced (returned r answer, h)
    answered-Balanced r none l h a (p, more) = (l, a, p)
    answered-Balanced r (some r') l h a (p, last) = absurd (cc)

    returning-Balanced :
        (r : FrameResult R) (answer : Option (FrameResult R)) (l : Stack) (h h' : Host W S)
        → AllRunning l
        → (At (true ∷ l) (suc (length l)) h ⊎ At (false ∷ l) (suc (suc (length l))) h)
        → return_frame r h ≡ some (h', DbResult.ok answer)
        → Balanced (returned r answer, h')
    returning-Balanced r answer l h h' a (inl p) e =
        returned-Balanced r answer l h' a
          (Returns-value _ _ _ (keeps.keeps_return r (true ∷ l) (length l) h p) e)
    returning-Balanced r answer l h h' a (inr p) e =
        answered-Balanced r answer l h' a
          (Returns-value _ _ _ (keeps.keeps_return r (false ∷ l) (suc (length l)) h p) e)

    Step-Balanced :
        {c d : Phase R × Host W S}
        → Step init_frame run_frame return_frame c d
        → Balanced c
        → Balanced d
    Step-Balanced (Step.opens {h} {h'} init made e) p =
        first_started-Balanced made h' (Returns-value _ _ _ (keeps.keeps_init init [] 0 h p) e)
    Step-Balanced (Step.starts {h} {h'} init made e) (l, a, p) =
        started-Balanced made l h' a
          (Returns-value _ _ _ (keeps.keeps_init init (false ∷ l) (suc (length l)) h p) e)
    Step-Balanced (Step.runs {h} {h'} output e) (l, a, p) =
        ran-Balanced output l h' a (Returns-value _ _ _ (keeps.keeps_run l (suc (length l)) h p) e)
    Step-Balanced (Step.returns {h} {h'} r answer e) (l, a, p) =
        returning-Balanced r answer l h h' a p e

    pub Reach-Balanced :
        {c d : Phase R × Host W S}
        → Reach init_frame run_frame return_frame c d
        → Balanced c
        → Balanced d
    Reach-Balanced Reach.here p = p
    Reach-Balanced (Reach.next reach step) p = Step-Balanced step (Reach-Balanced reach p)
