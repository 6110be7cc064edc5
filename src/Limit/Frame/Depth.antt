-- ===== src/Limit/Frame/Depth.antt =====
-- The number of frames in a tracker of frame_limit.rs, and what each operation makes of it.
use mega_evm.Prelude.{
  ℕ, ◌-◌, suc, ◌≡◌, refl, Bool, true, length, Returns, Returns-some, Returns-each, arith,
}
use mega_evm.Limit.Frame.{
  FrameLimitTracker, max_forward_limit, has_active_frame, push_frame, push_frame_with_limit,
  pop_frame, record_discardable, record_refund, record_persistent,
}

module _ {ℓ} {I : Type ℓ} where
  abbrev pub depth : FrameLimitTracker I → ℕ
  depth t = length t.frame_stack

  pub push_frame-depth :
      (info : I) (t : FrameLimitTracker I)
      → Returns (λ t'. depth t' ≡ suc (depth t)) (push_frame info t)
  unfolding push_frame push_frame_with_limit
  push_frame-depth info t = Returns-each _ (max_forward_limit t) _ λ limit. Returns-some _ _ refl

  pub depth-record_discardable :
      (size : ℕ) (t : FrameLimitTracker I) → depth (record_discardable size t) ≡ depth t
  unfolding record_discardable
  depth-record_discardable size t = ground arith

  pub depth-record_refund :
      (size : ℕ) (t : FrameLimitTracker I) → depth (record_refund size t) ≡ depth t
  unfolding record_refund
  depth-record_refund size t = ground arith

  pub depth-record_persistent :
      (size : ℕ) (t : FrameLimitTracker I) → depth (record_persistent size t) ≡ depth t
  unfolding record_persistent
  depth-record_persistent size t = ground arith

  pub depth-pop_frame :
      (success : Bool) (t : FrameLimitTracker I) → depth (pop_frame success t).0 ≡ depth t - 1
  unfolding pop_frame
  depth-pop_frame success t = ground arith

  pub has_active_frame-depth :
      (t : FrameLimitTracker I) (n : ℕ) → depth t ≡ suc n → has_active_frame t ≡ true
  unfolding has_active_frame
  has_active_frame-depth t n h = ground arith
