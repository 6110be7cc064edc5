-- ===== src/Evm/Execution/Settled.antt =====
-- crates/mega-evm/src/evm/execution.rs: every frame of the limit trackers is popped once, whatever
-- frames a transaction runs, watched by an inspector or not.
use mega_evm.Prelude.{
  ℕ, suc, ◌≡◌, true, Option, [], ◌⊎◌, inl, inr, Returns, Returns-some, Returns-bind,
}
use mega_evm.Spec.{MegaSpecId, is_enabled}
use mega_evm.Limit.Events.{DbResult}
use mega_evm.Limit.Revm.{Revm, FrameResult}
use mega_evm.Limit.Additional.{AdditionalLimit}
use mega_evm.Limit.Additional.Depth.{HasDepth}
use mega_evm.Limit.Additional.Depth.Frames as Depth
use mega_evm.System.Intercept.{CallInputs, Bindings, Host}
use mega_evm.Evm.Frames.{FrameInit, Inner}
use mega_evm.Evm.Frames.Start.{frame_init}
use mega_evm.Evm.Frames.Run.{frame_run, frame_return_result}
use mega_evm.Evm.Frames.Stacks.{Stack, IsRevm}
use mega_evm.Evm.Frames.Running.{frame_run-Ran, frame_return_result-Returned}
use mega_evm.Evm.Frames.Balance.{Holds, Holds-answer, >>?-Holds, IsAt}
use mega_evm.Evm.Frames.Starting.{frame_init-Initialized}
use mega_evm.Limit.StateGrowth as StateGrowth
use mega_evm.Limit.DataSize as DataSize
use mega_evm.Limit.KvUpdate as KvUpdate
use mega_evm.Limit.ComputeGas as ComputeGas
use mega_evm.Limit.Frame.Depth.{has_active_frame-depth}
use mega_evm.Limit.Additional.Propagation.{HasFrames}
use mega_evm.Evm.Frames.Loop.{Phase, Reach}
use mega_evm.Evm.Frames.Loop.Invariant.{Balanced, KeepsBalance, Reach-Balanced}
use mega_evm.Evm.Execution.{Op, delegated, before_last_result, return_rescued, last_frame_result}

pub HasDepth-HasFrames : (n : ℕ) (a : AdditionalLimit) → HasDepth (suc n) a → HasFrames a
unfolding StateGrowth.has_active_frame DataSize.has_active_frame KvUpdate.has_active_frame
    ComputeGas.has_active_frame
HasDepth-HasFrames n a (g, d, k, c) = record {
  growth_active = has_active_frame-depth a.state_growth.frame_tracker n g;
  data_active = has_active_frame-depth a.data_size.frame_tracker n d;
  kv_active = has_active_frame-depth a.kv_update.frame_tracker n k;
  gas_active = has_active_frame-depth a.compute_gas.frame_tracker n c;
}

module _ {R : Revm} {W S E X : Type 0} (O : Op R S E X) where
  -- While frames run and return, each tracker has a frame; none is left when the last result is
  -- settled.
  abbrev pub InStep : Phase R × Host W S → Type 0
  InStep (Phase.first init, h) = HasDepth 0 h.additional_limit
  InStep (Phase.starting init, h) = HasFrames h.additional_limit
  InStep (Phase.running, h) = HasFrames h.additional_limit
  InStep (Phase.returning r, h) = HasFrames h.additional_limit
  InStep (Phase.finished r, h) =
      Returns (λ x. Holds (λ _ h'. HasDepth 0 h'.additional_limit) x) (last_frame_result O r h)

  delegated-Holds {ℓ} :
      {A : Type ℓ} (P : AdditionalLimit → Type 0) (f : S → S × DbResult E A) (h : Host W S)
      → P h.additional_limit
      → Returns (λ x. Holds (λ _ h'. P h'.additional_limit) x) (delegated O f h)
  unfolding delegated
  delegated-Holds P f h p =
      let h' = record h { rest = (f h.rest).0 } in
      Returns-some _ (h', (f h.rest).1)
        (Holds-answer (λ _ (h' : Host W S). P h'.additional_limit) h' (f h.rest).1 λ _ _. p)

  before_last_result-HasDepth :
      (r : FrameResult R) (h : Host W S)
      → is_enabled h.spec MegaSpecId.mini_rex ≡ true
      → (HasDepth 0 h.additional_limit ⊎ HasDepth 1 h.additional_limit)
      → Returns (λ x. Holds (λ _ h'. HasDepth 0 h'.additional_limit) x) (before_last_result O r h)
  unfolding before_last_result
  before_last_result-HasDepth r h on (inl d) = rw on (
      Returns-bind (λ (a, _). HasDepth 0 a) _ _ _
        (Depth.before_frame_return_result-last R r h.additional_limit d)
        λ _ d'. Returns-some _ _ d')
  before_last_result-HasDepth r h on (inr d) = rw on (
      Returns-bind (λ (a, _). HasDepth 0 a) _ _ _
        (Depth.before_frame_return_result-HasDepth R 0 true r h.additional_limit d)
        λ _ d'. Returns-some _ _ d')

  last_frame_result-HasDepth :
      (r : FrameResult R) (h : Host W S)
      → is_enabled h.spec MegaSpecId.mini_rex ≡ true
      → (HasDepth 0 h.additional_limit ⊎ HasDepth 1 h.additional_limit)
      → InStep (Phase.finished r, h)
  unfolding last_frame_result
  last_frame_result-HasDepth r h on d =
      >>?-Holds (λ _ h'. HasDepth 0 h'.additional_limit) (λ _ h'. HasDepth 0 h'.additional_limit) _
        _ (before_last_result-HasDepth r h on d)
        λ h' r' d'.
          >>?-Holds (λ _ h'. HasDepth 0 h'.additional_limit)
            (λ _ h'. HasDepth 0 h'.additional_limit) _ _
            (delegated-Holds (HasDepth 0) (O.last_frame_result r') h' d')
            λ h'' r'' d''. Returns-some _ (h'', DbResult.ok (return_rescued O r'' h'')) d''

module _ {R : Revm} {W S E : Type 0} (B : Bindings R W) (V : Inner R W S E)
    (execute : Host W S → CallInputs R → R.Bytes → ℕ → Option (Host W S × FrameResult R))
    (stack : S → Stack) (revm : IsRevm V execute stack) (spec : MegaSpecId)
    (on : is_enabled spec MegaSpecId.mini_rex ≡ true) where
  abbrev At : Stack → ℕ → Host W S → Type 0
  At l n h = IsAt B V execute stack revm spec on l n h

  pub Balanced-InStep :
      {X : Type 0} (O : Op R S E X) (c : Phase R × Host W S)
      → Balanced B V execute stack revm spec on c
      → InStep O c
  Balanced-InStep O (Phase.first init, h) (s, d, e) = d
  Balanced-InStep O (Phase.starting init, h) (l, a, (s, d, e)) = HasDepth-HasFrames _ _ d
  Balanced-InStep O (Phase.running, h) (l, a, (s, d, e)) = HasDepth-HasFrames _ _ d
  Balanced-InStep O (Phase.returning r, h) (l, a, inl (s, d, e)) = HasDepth-HasFrames _ _ d
  Balanced-InStep O (Phase.returning r, h) (l, a, inr (s, d, e)) = HasDepth-HasFrames _ _ d
  Balanced-InStep O (Phase.finished r, h) (inl (s, d, e)) =
      last_frame_result-HasDepth O r h (rw s on) (inl d)
  Balanced-InStep O (Phase.finished r, h) (inr (s, d, e)) =
      last_frame_result-HasDepth O r h (rw s on) (inr d)

  frames-KeepsBalance :
      KeepsBalance B V execute stack revm spec on
        (frame_init B V execute)
        (frame_run V)
        (frame_return_result V)
  frames-KeepsBalance = record {
    keeps_init = frame_init-Initialized B V execute stack revm spec on;
    keeps_run = frame_run-Ran B V execute stack revm spec on;
    keeps_return = frame_return_result-Returned B V execute stack revm spec on;
  }

  -- From MiniRex on, if revm keeps its stack of frames as `IsRevm` says and both the trackers and
  -- revm start without frames: whatever frames a transaction starts, has answered or refused, runs
  -- and returns, each of the four trackers has a frame as long as frames run and whenever a result
  -- is returned; and unless the settling of the last result panics, no frame is left in any after
  -- it.
  pub frames-InStep :
      {X : Type 0} (O : Op R S E X) (init : FrameInit R) (h : Host W S) (c : Phase R × Host W S)
      → h.spec ≡ spec
      → HasDepth 0 h.additional_limit
      → stack h.rest ≡ []
      → Reach (frame_init B V execute) (frame_run V) (frame_return_result V) (Phase.first init, h) c
      → InStep O c
  frames-InStep O init h c s d e reach =
      Balanced-InStep O c
        (Reach-Balanced B V execute stack revm spec on _ _ _ frames-KeepsBalance reach (s, d, e))
