-- ===== src/Limit/ComputeGas/Depth.antt =====
-- The frames of crates/mega-evm/src/limit/compute_gas.rs: how many each hook leaves.
use mega_evm.Prelude.{
  ℕ, suc, ◌≡◌, refl, ◌∙◌, Bool, true, some, arith, Returns, Returns-some, Returns-bind,
  Returns-each, Returns-if,
}
use mega_evm.Limit.Frame as Frame
use mega_evm.Limit.Frame.Depth as Depth
use mega_evm.Limit.Frame.Depth.{depth}
use mega_evm.Limit.ComputeGas.{
  ComputeGasTracker, push_frame, push_empty_frame, before_frame_init, record_gas_used,
  set_detained_limit, has_active_frame, before_frame_return_result,
}

abbrev pub frames : ComputeGasTracker → ℕ
frames t = depth t.frame_tracker

push_frame-frames :
    (t : ComputeGasTracker) → Returns (λ t'. frames t' ≡ suc (frames t)) (push_frame t)
unfolding push_frame Frame.push_frame_with_limit
push_frame-frames t =
    Returns-bind (λ pushed. depth pushed ≡ suc (frames t)) _ _ _
      (Returns-if _ t.rex4_enabled _ _ (Depth.push_frame-depth tt t.frame_tracker)
        (Returns-some _ _ refl))
      λ pushed h. Returns-some _ _ h

pub push_empty_frame-frames :
    (t : ComputeGasTracker) → Returns (λ t'. frames t' ≡ suc (frames t)) (push_empty_frame t)
unfolding push_empty_frame
push_empty_frame-frames t = push_frame-frames t

pub before_frame_return_result-frames :
    (last success : Bool) (t : ComputeGasTracker) (n : ℕ)
    → frames t ≡ suc n
    → (t' : ComputeGasTracker) × (before_frame_return_result last success t ≡ some t')
      × (frames t' ≡ n)
unfolding before_frame_return_result has_active_frame
before_frame_return_result-frames last success t n h =
    let active = Depth.has_active_frame-depth t.frame_tracker n h in
    let popped = Depth.depth-pop_frame success t.frame_tracker in
    (
      record t { frame_tracker = (Frame.pop_frame success t.frame_tracker).0 },
      ground arith,
      popped ∙ ground arith,
    )

pub before_frame_return_result-last :
    (success : Bool) (t : ComputeGasTracker)
    → frames t ≡ 0
    → (t' : ComputeGasTracker) × (before_frame_return_result true success t ≡ some t')
      × (frames t' ≡ 0)
unfolding before_frame_return_result has_active_frame
before_frame_return_result-last success t h =
    let popped = Depth.depth-pop_frame success t.frame_tracker in
    (
      record t { frame_tracker = (Frame.pop_frame success t.frame_tracker).0 },
      ground arith,
      popped ∙ ground arith,
    )

pub before_frame_init-frames :
    (t : ComputeGasTracker) → Returns (λ t'. frames t' ≡ suc (frames t)) (before_frame_init t)
unfolding before_frame_init
before_frame_init-frames t = push_frame-frames t

pub frames-record_gas_used :
    (gas : ℕ) (t : ComputeGasTracker) → frames (record_gas_used gas t) ≡ frames t
unfolding record_gas_used
frames-record_gas_used gas t = Depth.depth-record_persistent gas t.frame_tracker

pub set_detained_limit-frames :
    (cap : ℕ) (t : ComputeGasTracker)
    → Returns (λ t'. frames t' ≡ frames t) (set_detained_limit cap t)
unfolding set_detained_limit
set_detained_limit-frames cap t = Returns-each _ _ _ λ limit. Returns-some _ _ refl
