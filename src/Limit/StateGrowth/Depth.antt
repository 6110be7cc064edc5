-- ===== src/Limit/StateGrowth/Depth.antt =====
-- The frames of crates/mega-evm/src/limit/state_growth.rs: how many each hook leaves.
use mega_evm.Prelude.{
  ℕ, suc, ◌≡◌, refl, ◌∙◌, Bool, true, false, some, arith, Returns, Returns-none, Returns-some,
  Returns-bind, Returns-if,
}
use mega_evm.Spec.{MegaSpecId, is_enabled}
use mega_evm.Limit.Events.{Address, FrameInput, SStoreResult, DbResult}
use mega_evm.Limit.Frame as Frame
use mega_evm.Limit.Frame.Depth as Depth
use mega_evm.Limit.Frame.Depth.{depth}
use mega_evm.Limit.StateGrowth.{
  StateGrowthTracker, push_frame, push_empty_frame, before_frame_init, record_growth, record_refund,
  slot_change, after_sstore, has_active_frame, before_frame_return_result,
}

abbrev pub frames : StateGrowthTracker → ℕ
frames t = depth t.frame_tracker

push_frame-frames :
    (t : StateGrowthTracker) → Returns (λ t'. frames t' ≡ suc (frames t)) (push_frame t)
unfolding push_frame Frame.push_frame_with_limit
push_frame-frames t =
    Returns-bind (λ pushed. depth pushed ≡ suc (frames t)) _ _ _
      (Returns-if _ (is_enabled t.spec MegaSpecId.rex4) _ _
        (Depth.push_frame-depth tt t.frame_tracker) (Returns-some _ _ refl))
      λ pushed h. Returns-some _ _ h

pub push_empty_frame-frames :
    (t : StateGrowthTracker) → Returns (λ t'. frames t' ≡ suc (frames t)) (push_empty_frame t)
unfolding push_empty_frame
push_empty_frame-frames t = push_frame-frames t

pub before_frame_return_result-frames :
    (last success : Bool) (t : StateGrowthTracker) (n : ℕ)
    → frames t ≡ suc n
    → (t' : StateGrowthTracker) × (before_frame_return_result last success t ≡ some t')
      × (frames t' ≡ n)
unfolding before_frame_return_result has_active_frame
before_frame_return_result-frames last success t n h =
    let active = Depth.has_active_frame-depth t.frame_tracker n h in
    let popped = Depth.depth-pop_frame success t.frame_tracker in
    (
      record t { frame_tracker = (Frame.pop_frame success t.frame_tracker).0 },
      ground arith,
      popped ∙ ground arith,
    )

pub before_frame_return_result-last :
    (success : Bool) (t : StateGrowthTracker)
    → frames t ≡ 0
    → (t' : StateGrowthTracker) × (before_frame_return_result true success t ≡ some t')
      × (frames t' ≡ 0)
unfolding before_frame_return_result has_active_frame
before_frame_return_result-last success t h =
    let popped = Depth.depth-pop_frame success t.frame_tracker in
    (
      record t { frame_tracker = (Frame.pop_frame success t.frame_tracker).0 },
      ground arith,
      popped ∙ ground arith,
    )

frames-record_growth : (n : ℕ) (t : StateGrowthTracker) → frames (record_growth n t) ≡ frames t
unfolding record_growth
frames-record_growth n t = Depth.depth-record_discardable n t.frame_tracker

frames-record_refund : (n : ℕ) (t : StateGrowthTracker) → frames (record_refund n t) ≡ frames t
unfolding record_refund
frames-record_refund n t = Depth.depth-record_refund n t.frame_tracker

module _ {ℓ} {E : Type ℓ} (is_empty_account : MegaSpecId → Address → DbResult E Bool) where
  pub before_frame_init-frames :
      (input : FrameInput) (t : StateGrowthTracker)
      → Returns (λ (t', _). frames t' ≡ suc (frames t)) (before_frame_init is_empty_account input t)
  unfolding before_frame_init
  before_frame_init-frames (FrameInput.call target transfers g range) t =
      Returns-bind (λ t'. frames t' ≡ suc (frames t)) _ _ _ (push_frame-frames t)
        λ t' h. let grown = frames-record_growth 1 t' in Returns-some _ _ (ground arith)
  before_frame_init-frames (FrameInput.create g) t =
      Returns-bind (λ t'. frames t' ≡ suc (frames t)) _ _ _ (push_frame-frames t)
        λ t' h. Returns-some _ _ (frames-record_growth 1 t' ∙ h)
  before_frame_init-frames FrameInput.empty t = Returns-none _

slot_change-frames :
    (a b c : Bool) (t : StateGrowthTracker) → frames (slot_change a b c t) ≡ frames t
unfolding slot_change
slot_change-frames true true true t = refl
slot_change-frames true true false t = frames-record_growth 1 t
slot_change-frames true false true t = frames-record_refund 1 t
slot_change-frames true false false t = refl
slot_change-frames false b c t = refl

pub frames-after_sstore :
    (r : SStoreResult) (t : StateGrowthTracker) → frames (after_sstore r t) ≡ frames t
unfolding after_sstore
frames-after_sstore r t = slot_change-frames _ _ _ t
