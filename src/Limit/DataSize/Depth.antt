-- ===== src/Limit/DataSize/Depth.antt =====
-- The frames of crates/mega-evm/src/limit/data_size.rs: how many each hook leaves.
use mega_evm.Prelude.{
  ℕ, suc, ◌≡◌, refl, ◌∙◌, Bool, true, false, Option, none, some, [], ◌∷◌, if◌then◌else◌, arith,
  ◌&&◌, length, Returns, Returns-none, Returns-some, Returns-bind, Returns-each, Returns-if,
}
use mega_evm.Limit.Frame as Frame
use mega_evm.Limit.Frame.Depth as Depth
use mega_evm.Limit.Frame.Depth.{depth}
use mega_evm.Limit.CallFrame.{CallFrameInfo}
use mega_evm.Limit.Events.{Address, FrameInput, FrameData, SStoreResult}
use mega_evm.Limit.DataSize.{
  DataSizeTracker, push_frame, push_empty_frame, record_discardable, record_refund,
  parent_not_updated, before_frame_init, has_active_frame, set_created_address,
  account_info_write_size, storage_slot_write_size, after_frame_init_on_frame, after_sstore,
  before_frame_return_result, after_frame_run, after_log,
}

abbrev pub frames : DataSizeTracker → ℕ
frames t = depth t.frame_tracker

push_frame-frames :
    (info : CallFrameInfo) (t : DataSizeTracker)
    → Returns (λ t'. frames t' ≡ suc (frames t)) (push_frame info t)
unfolding push_frame Frame.push_frame_with_limit
push_frame-frames info t =
    Returns-bind (λ pushed. depth pushed ≡ suc (frames t)) _ _ _
      (Returns-if _ t.rex4_enabled _ _ (Depth.push_frame-depth info t.frame_tracker)
        (Returns-some _ _ refl))
      λ pushed h. Returns-some _ _ h

pub push_empty_frame-frames :
    (t : DataSizeTracker) → Returns (λ t'. frames t' ≡ suc (frames t)) (push_empty_frame t)
unfolding push_empty_frame
push_empty_frame-frames t = push_frame-frames _ t

pub before_frame_return_result-frames :
    (last success : Bool) (t : DataSizeTracker) (n : ℕ)
    → frames t ≡ suc n
    → (t' : DataSizeTracker) × (before_frame_return_result last success t ≡ some t')
      × (frames t' ≡ n)
unfolding before_frame_return_result has_active_frame
before_frame_return_result-frames last success t n h =
    let active = Depth.has_active_frame-depth t.frame_tracker n h in
    let popped = Depth.depth-pop_frame success t.frame_tracker in
    (
      record t { frame_tracker = (Frame.pop_frame success t.frame_tracker).0 },
      ground arith,
      popped ∙ ground arith,
    )

pub before_frame_return_result-last :
    (success : Bool) (t : DataSizeTracker)
    → frames t ≡ 0
    → (t' : DataSizeTracker) × (before_frame_return_result true success t ≡ some t')
      × (frames t' ≡ 0)
unfolding before_frame_return_result has_active_frame
before_frame_return_result-last success t h =
    let popped = Depth.depth-pop_frame success t.frame_tracker in
    (
      record t { frame_tracker = (Frame.pop_frame success t.frame_tracker).0 },
      ground arith,
      popped ∙ ground arith,
    )

frames-record_discardable :
    (size : ℕ) (t : DataSizeTracker) → frames (record_discardable size t) ≡ frames t
unfolding record_discardable
frames-record_discardable size t = Depth.depth-record_discardable size t.frame_tracker

frames-record_refund : (size : ℕ) (t : DataSizeTracker) → frames (record_refund size t) ≡ frames t
unfolding record_refund
frames-record_refund size t = Depth.depth-record_refund size t.frame_tracker

frames-if :
    (b : Bool) (t t' : DataSizeTracker) (n : ℕ)
    → frames t ≡ n
    → frames t' ≡ n
    → frames (if b then t else t') ≡ n
frames-if true t t' n h h' = h
frames-if false t t' n h h' = h'

pub before_frame_init-frames :
    (input : FrameInput) (t : DataSizeTracker)
    → Returns (λ t'. frames t' ≡ suc (frames t)) (before_frame_init input t)
unfolding before_frame_init
before_frame_init-frames (FrameInput.call target has_transfer g range) t =
    Returns-bind (λ t'. frames t' ≡ suc (frames t)) _ _ _ (push_frame-frames _ t)
      λ t' h.
        let parent_needs_update = has_transfer && parent_not_updated t in
        let with_parent =
          if parent_needs_update then record_discardable account_info_write_size t' else t' in
        let parent : frames with_parent ≡ suc (frames t) =
          frames-if parent_needs_update _ t' (suc (frames t))
            (frames-record_discardable account_info_write_size t' ∙ h) h in
        Returns-some _ _ (
          frames-if has_transfer (record_discardable account_info_write_size with_parent) t'
            (suc (frames t))
            (frames-record_discardable account_info_write_size with_parent ∙ parent) h)
before_frame_init-frames (FrameInput.create g) t =
    Returns-bind (λ t'. frames t' ≡ suc (frames t)) _ _ _ (push_frame-frames _ t)
      λ t' h. Returns-some _ _ (
        frames-if _ _ t' (suc (frames t)) (frames-record_discardable account_info_write_size t' ∙ h)
          h)
before_frame_init-frames FrameInput.empty t = Returns-none _

pub frames-after_sstore :
    (r : SStoreResult) (t : DataSizeTracker) → frames (after_sstore r t) ≡ frames t
unfolding after_sstore
frames-after_sstore r t =
    frames-if r.is_original_eq_present _ _ (frames t)
      (frames-if r.is_original_eq_new t _ (frames t) refl
        (frames-record_discardable storage_slot_write_size t))
      (frames-if r.is_original_eq_new _ t (frames t)
        (frames-record_refund storage_slot_write_size t) refl)

set_created_address-depth :
    (address : Address) (t : Frame.FrameLimitTracker CallFrameInfo)
    → Returns (λ t'. depth t' ≡ depth t) (set_created_address address t)
unfolding set_created_address
set_created_address-depth address t =
    elim t.frame_stack
      as (λ stack.
        Returns (λ t'. depth t' ≡ length stack)
          (set_created_address address (record t { frame_stack = stack }))) [
            | [] ↦ Returns-some _ _ refl
            | entry ∷ rest ↦ Returns-each _ _ _ λ _. Returns-some _ _ refl
          ]

pub after_frame_init_on_frame-frames :
    (frame : FrameData) (t : DataSizeTracker)
    → Returns (λ t'. frames t' ≡ frames t) (after_frame_init_on_frame frame t)
unfolding after_frame_init_on_frame
after_frame_init_on_frame-frames FrameData.call_frame t = Returns-some _ _ refl
after_frame_init_on_frame-frames (FrameData.create_frame none) t = Returns-none _
after_frame_init_on_frame-frames (FrameData.create_frame (some address)) t =
    Returns-bind (λ created. depth created ≡ frames t) _ _ _
      (set_created_address-depth address t.frame_tracker) λ created h. Returns-some _ _ h

pub frames-after_frame_run :
    (frame : FrameData) (len : Option ℕ) (t : DataSizeTracker)
    → frames (after_frame_run frame len t) ≡ frames t
unfolding after_frame_run
frames-after_frame_run FrameData.call_frame len t = refl
frames-after_frame_run (FrameData.create_frame address) none t = refl
frames-after_frame_run (FrameData.create_frame address) (some len) t =
    frames-record_discardable len t

pub frames-after_log :
    (num_topics data_size : ℕ) (t : DataSizeTracker)
    → frames (after_log num_topics data_size t) ≡ frames t
unfolding after_log
frames-after_log num_topics data_size t = frames-record_discardable _ t
