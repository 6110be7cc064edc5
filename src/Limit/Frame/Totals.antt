-- ===== src/Limit/Frame/Totals.antt =====
-- The counters of frame_limit.rs as unbounded sums, and what each operation does to them.
use mega_evm.Prelude.{
  ℕ, ◌+◌, ◌-◌, ◌<◌, ◌≡◌, refl, ap, true, false, some, List, [], ◌∷◌, arith, u64_mod,
}
use mega_evm.Limit.Entry.{FrameLimitEntry, used}
use mega_evm.Limit.Frame.{FrameLimitTracker, pop_frame, sum_frames, net_usage}

module _ {ℓ} {I : Type ℓ} where
  abbrev pub entry_used : FrameLimitEntry I → ℕ
  entry_used e = e.persistent_usage + e.discardable_usage

  abbrev pub frames_used : List (FrameLimitEntry I) → ℕ
  frames_used [] = 0
  frames_used (e ∷ below) = frames_used below + entry_used e

  abbrev pub frames_refund : List (FrameLimitEntry I) → ℕ
  frames_refund [] = 0
  frames_refund (e ∷ below) = frames_refund below + e.refund

-- All that was recorded for the transaction, without wrap-around.
abbrev pub total_used {ℓ} : {I : Type ℓ} → FrameLimitTracker I → ℕ
total_used t = entry_used t.tx_entry + frames_used t.frame_stack

abbrev pub total_refund {ℓ} : {I : Type ℓ} → FrameLimitTracker I → ℕ
total_refund t = t.tx_entry.refund + frames_refund t.frame_stack

-- The totals fit in a `u64`, so that no counter has wrapped and no sum of them does.
pub record Fits {ℓ} {I : Type ℓ} (t : FrameLimitTracker I) : Type 0 where
  pub used_fits : total_used t < u64_mod
  pub refund_fits : total_refund t < u64_mod

module _ {ℓ} {I : Type ℓ} where
  pub used_lem : (e : FrameLimitEntry I) → entry_used e < u64_mod → used e ≡ some (entry_used e)
  unfolding used
  used_lem e h = ground arith

  pub sum_frames_lem :
      (u r : ℕ) (stack : List (FrameLimitEntry I))
      → u + frames_used stack < u64_mod
      → r + frames_refund stack < u64_mod
      → sum_frames (u, r) stack ≡ some (u + frames_used stack, r + frames_refund stack)
  unfolding sum_frames
  sum_frames_lem u r [] hu hr = ground arith
  sum_frames_lem u r (e ∷ below) hu hr =
      rw (sum_frames_lem u r below (omega arith) (omega arith), used_lem e (omega arith))
        (ground arith)

module _ {ℓ} {I : Type ℓ} where
  -- While the totals fit, `net_usage` does not panic, and gives all that was recorded for the
  -- transaction and its active frames, less all refunds, and 0 if the refunds are larger.
  pub net_usage-eq-totals :
      (t : FrameLimitTracker I) → Fits t → net_usage t ≡ some (total_used t - total_refund t)
  unfolding net_usage
  net_usage-eq-totals t h = rw (
    used_lem t.tx_entry (omega arith),
    sum_frames_lem (entry_used t.tx_entry) t.tx_entry.refund t.frame_stack h.used_fits
        h.refund_fits,
  )

  pub pop_success :
      (tx : FrameLimitEntry (Unit {0})) (stack : List (FrameLimitEntry I))
      → let t : FrameLimitTracker I = record { tx_entry = tx; frame_stack = stack } in
        Fits t
        → let t' = (pop_frame true t).0 in
          (total_used t' ≡ total_used t) × (total_refund t' ≡ total_refund t)
  unfolding pop_frame
  pop_success tx [] h = (refl, refl)
  pop_success tx (child ∷ []) h = (omega arith, omega arith)
  pop_success tx (child ∷ parent ∷ rest) h = (omega arith, omega arith)

  pub pop_failure :
      (tx : FrameLimitEntry (Unit {0})) (child : FrameLimitEntry I)
      (below : List (FrameLimitEntry I))
      → let t : FrameLimitTracker I = record { tx_entry = tx; frame_stack = child ∷ below } in
        Fits t
        → let t' = (pop_frame false t).0 in
          (total_used t' + child.discardable_usage ≡ total_used t)
          × (total_refund t' + child.refund ≡ total_refund t)
  unfolding pop_frame
  pop_failure tx child [] h = (omega arith, omega arith)
  pop_failure tx child (parent ∷ rest) h = (omega arith, omega arith)

  -- A frame that returns successfully hands all its counters down: if the totals fit, the net
  -- usage of the transaction is the same before and after.
  pub net_usage-pop_success :
      (t : FrameLimitTracker I) → Fits t → net_usage (pop_frame true t).0 ≡ net_usage t
  net_usage-pop_success t h =
      let (u, r) = pop_success t.tx_entry t.frame_stack h in
      rw (net_usage-eq-totals (pop_frame true t).0 (omega arith), net_usage-eq-totals t h, u, r)

  -- A frame that fails leaves its persistent usage to the transaction, and takes back both its
  -- discardable usage and its refund: if the totals fit, net usage is that of the other records.
  pub net_usage-pop_failure :
      (tx : FrameLimitEntry (Unit {0})) (child : FrameLimitEntry I)
      (below : List (FrameLimitEntry I))
      → let t : FrameLimitTracker I = record { tx_entry = tx; frame_stack = child ∷ below } in
        Fits t
        → net_usage (pop_frame false t).0
          ≡ some (
              (entry_used tx + (frames_used below + child.persistent_usage))
              - (tx.refund + frames_refund below))
  net_usage-pop_failure tx child below h =
      let (u, r) = pop_failure tx child below h in
      let t : FrameLimitTracker I = record { tx_entry = tx; frame_stack = child ∷ below } in
      rw (net_usage-eq-totals (pop_frame false t).0 (omega arith)) (ap some (omega arith))
