-- ===== src/Limit/ComputeGas/Persistence.antt =====
-- Compute gas is never given back: compute_gas.rs over frames that return and fail.
use mega_evm.Prelude.{
  ℕ, ◌+◌, ◌<◌, ◌≡◌, refl, ap, sym, ◌∙◌, Bool, true, false, some, List, [], ◌∷◌, ◌||◌, arith,
  u64_mod,
}
use mega_evm.Limit.Entry.{FrameLimitEntry}
use mega_evm.Limit.Frame.{FrameLimitTracker, record_persistent, pop_frame}
use mega_evm.Limit.Frame.Totals.{Fits, frames_refund, total_used, total_refund}
use mega_evm.Limit.ComputeGas.{
  ComputeGasTracker, tx_usage, record_gas_used, before_frame_return_result, has_active_frame,
}
use mega_evm.Limit.ComputeGas.Detention.{usage, tx_usage_lem}

-- No frame has anything that a failure would discard, nor a refund.
abbrev pub AllPersistent {ℓ} : {I : Type ℓ} → List (FrameLimitEntry I) → Type 0
AllPersistent [] = Unit {0}
AllPersistent (e ∷ below) = (e.discardable_usage ≡ 0) × (e.refund ≡ 0) × AllPersistent below

record_persistent_of :
    (gas : ℕ) (tx : FrameLimitEntry (Unit {0})) (stack : List (FrameLimitEntry (Unit {0})))
    → let t : FrameLimitTracker (Unit {0}) = record { tx_entry = tx; frame_stack = stack } in
      total_used t + gas < u64_mod
      → AllPersistent stack
      → let t' = record_persistent gas t in
        (total_used t' ≡ total_used t + gas)
        × (total_refund t' ≡ total_refund t)
        × AllPersistent t'.frame_stack
unfolding record_persistent
record_persistent_of gas tx [] f p = (omega arith, refl, tt)
record_persistent_of gas tx (e ∷ below) f p = (omega arith, refl, p)

pop_frame_of :
    (success : Bool) (tx : FrameLimitEntry (Unit {0})) (stack : List (FrameLimitEntry (Unit {0})))
    → let t : FrameLimitTracker (Unit {0}) = record { tx_entry = tx; frame_stack = stack } in
      Fits t
      → AllPersistent stack
      → let t' = (pop_frame success t).0 in
        (total_used t' ≡ total_used t)
        × (total_refund t' ≡ total_refund t)
        × AllPersistent t'.frame_stack
unfolding pop_frame
pop_frame_of success tx [] f p = (refl, refl, tt)
pop_frame_of true tx (child ∷ []) f p = (omega arith, omega arith, tt)
pop_frame_of false tx (child ∷ []) f p = (omega arith, omega arith, tt)
pop_frame_of true tx (child ∷ parent ∷ below) f p =
    (omega arith, omega arith, (omega arith, omega arith, p.2.2))
pop_frame_of false tx (child ∷ parent ∷ below) f p =
    (omega arith, omega arith, (omega arith, omega arith, p.2.2))

frames_refund_zero :
    (stack : List (FrameLimitEntry (Unit {0}))) → AllPersistent stack → frames_refund stack ≡ 0
frames_refund_zero [] p = refl
frames_refund_zero (e ∷ below) p = omega (arith, frames_refund_zero below p.2)

-- Recording gas adds exactly that gas to the transaction's usage, whether or not a frame is
-- active, while the totals fit and all recorded gas is persistent; it stays persistent.
pub record_gas_used-usage :
    (gas : ℕ) (t : ComputeGasTracker)
    → Fits t.frame_tracker
    → total_used t.frame_tracker + gas < u64_mod
    → AllPersistent t.frame_tracker.frame_stack
    → t.frame_tracker.tx_entry.refund ≡ 0
    → let t' = record_gas_used gas t in
      (tx_usage t' ≡ some (usage t + gas)) × AllPersistent t'.frame_tracker.frame_stack
unfolding record_gas_used
record_gas_used-usage gas t f h p r =
    let (u, s, q) =
      record_persistent_of gas t.frame_tracker.tx_entry t.frame_tracker.frame_stack h p in
    let none_refunded = frames_refund_zero t.frame_tracker.frame_stack p in
    (tx_usage_lem (record_gas_used gas t) (omega arith) ∙ ap some (omega arith), q)

-- A frame that returns, successfully or not, leaves the transaction's compute gas as it was, while
-- the totals fit and all recorded gas is persistent: the gas of a reverted frame still counts. The
-- call panics only for an inner frame with no frame active.
pub before_frame_return_result-usage :
    (last_frame success : Bool) (t : ComputeGasTracker)
    → Fits t.frame_tracker
    → AllPersistent t.frame_tracker.frame_stack
    → (last_frame || has_active_frame t) ≡ true
    → (t' : ComputeGasTracker) × (before_frame_return_result last_frame success t ≡ some t')
      × (tx_usage t' ≡ tx_usage t)
      × AllPersistent t'.frame_tracker.frame_stack
      × (t'.detained_limit ≡ t.detained_limit)
unfolding before_frame_return_result
before_frame_return_result-usage last_frame success t f p active =
    let (u, s, q) = pop_frame_of success t.frame_tracker.tx_entry t.frame_tracker.frame_stack f p in
    let t' : ComputeGasTracker = record t {
      frame_tracker = (pop_frame success t.frame_tracker).0;
    } in
    (
      t',
      rw active,
      tx_usage_lem t' (omega arith) ∙ ap some (ground arith) ∙ sym (tx_usage_lem t f),
      q,
      refl,
    )
