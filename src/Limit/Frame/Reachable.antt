-- ===== src/Limit/Frame/Reachable.antt =====
-- Runs of frame_limit.rs under per-frame enforcement: frames that start, record and return.
use mega_evm.Prelude.{ℕ, ◌+◌, ◌≤◌, ◌<◌, ◌≡◌, sym, ◌∙◌, Bool, some, [], arith, u64_mod}
use mega_evm.Limit.Check.{LimitKind, LimitCheck}
use mega_evm.Limit.Entry.{FrameLimitEntry}
use mega_evm.Limit.Frame.{
  FrameLimitTracker, push_frame, push_frame_with_limit, pop_frame, record_discardable,
  record_refund, exceeds_current_frame_limit,
}
use mega_evm.Limit.Frame.Totals.{entry_used, frames_used, frames_refund, total_used, total_refund}
use mega_evm.Limit.Frame.Budget.{AllWithin, forwarded, push_frame_lem, frames-le-tx_limit}
use mega_evm.Limit.Frame.Soundness.{
  IsSound, start-IsSound, charge-IsSound, repay-IsSound, return-IsSound,
}

some-injective {ℓ} : {A : Type ℓ} {a b : A} → some a ≡ some b → a ≡ b
some-injective h = cc

module _ {ℓ} {I : Type ℓ} where
  -- A frame starts; a charge to the top frame that leaves it within its limit; a refund to it; and
  -- the return of a frame. What is recorded does not wrap.
  pub data Step (t : FrameLimitTracker I) : FrameLimitTracker I → Type ℓ where
    starts : {t' : FrameLimitTracker I} (info : I) → push_frame info t ≡ some t' → Step t t'
    charges :
        (kind : LimitKind) (size : ℕ)
        → total_used t + size < u64_mod
        → exceeds_current_frame_limit kind (record_discardable size t)
          ≡ some LimitCheck.within_limit
        → Step t (record_discardable size t)
    repays : (size : ℕ) → total_refund t + size < u64_mod → Step t (record_refund size t)
    returns : (success : Bool) → Step t (pop_frame success t).0

  pub data Run : FrameLimitTracker I → FrameLimitTracker I → Type ℓ where
    done : (t : FrameLimitTracker I) → Run t t
    next : {t t' t'' : FrameLimitTracker I} → Step t t' → Run t' t'' → Run t t''

  Step-IsSound : {t t' : FrameLimitTracker I} → Step t t' → IsSound t → IsSound t'
  Step-IsSound {t} (starts info pushed) s =
      let e = some-injective (sym (push_frame_lem t info s.fits s.nested) ∙ pushed) in
      rw (← e) (start-IsSound t info s)
  Step-IsSound {t} (charges kind size fit ok) s =
      charge-IsSound kind size t.tx_entry t.frame_stack s fit ok
  Step-IsSound {t} (repays size fit) s = repay-IsSound size t.tx_entry t.frame_stack s fit
  Step-IsSound {t} (returns success) s = return-IsSound success t.tx_entry t.frame_stack s

  Run-IsSound : {t t' : FrameLimitTracker I} → Run t t' → IsSound t → IsSound t'
  Run-IsSound (done t) s = s
  Run-IsSound (next step rest) s = Run-IsSound rest (Step-IsSound step s)

  -- From a transaction without frames, whatever frames start, record, refund and return, each
  -- within its own limit and with nothing recorded as persistent for a frame: while what is
  -- recorded does not wrap, the next frame can start without a panic, every active frame is within
  -- its limit, and the frames together are within the transaction's limit.
  pub Run-within :
      (tx : FrameLimitEntry (Unit {0})) (t : FrameLimitTracker I) (info : I)
      → Run (record { tx_entry = tx; frame_stack = [] }) t
      → tx.limit < u64_mod
      → entry_used tx < u64_mod
      → tx.refund < u64_mod
      → (push_frame info t ≡ some (push_frame_with_limit (forwarded t) info t))
        × AllWithin t.frame_stack
        × (frames_used t.frame_stack ≤ t.tx_entry.limit + frames_refund t.frame_stack)
  Run-within tx t info run l u r =
      let start : IsSound (record { tx_entry = tx; frame_stack = [] }) = record {
        fits = record { used_fits = omega arith; refund_fits = omega arith };
        nested = record { nested = tt; tx_limit_fits = l };
        within = tt;
        none_persistent = tt;
      } in
      let s = Run-IsSound run start in
      (push_frame_lem t info s.fits s.nested, s.within, frames-le-tx_limit t s.nested s.within)
