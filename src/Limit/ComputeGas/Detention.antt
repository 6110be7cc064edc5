-- ===== src/Limit/ComputeGas/Detention.antt =====
-- Gas detention in compute_gas.rs: what an access to volatile data leaves of the budget.
use mega_evm.Prelude.{
  ℕ, ◌-◌, min, ◌≤◌, ◌≡◌, refl, if◌then◌else◌, some, arith, saturating_add64, u64_max,
}
use mega_evm.Limit.Frame.Totals.{Fits, total_used, total_refund, net_usage-eq-totals}
use mega_evm.Limit.Frame.Budget.{frame_remaining, current_frame_remaining_lem}
use mega_evm.Limit.ComputeGas.{
  ComputeGasTracker, tx_limit, tx_usage, set_detained_limit, current_call_remaining,
}

abbrev pub usage : ComputeGasTracker → ℕ
usage t = total_used t.frame_tracker - total_refund t.frame_tracker

pub tx_usage_lem : (t : ComputeGasTracker) → Fits t.frame_tracker → tx_usage t ≡ some (usage t)
unfolding tx_usage
tx_usage_lem t f = net_usage-eq-totals t.frame_tracker f

-- The limit that a cap asks for: from Rex4 on, relative to the usage so far.
abbrev pub detained_by : ℕ → ComputeGasTracker → ℕ
detained_by cap t = if t.rex4_enabled then saturating_add64 (usage t) cap else cap

pub set_detained_limit_lem :
    (cap : ℕ) (t : ComputeGasTracker)
    → Fits t.frame_tracker
    → set_detained_limit cap t
      ≡ some (record t { detained_limit = min t.detained_limit (detained_by cap t) })
unfolding set_detained_limit
set_detained_limit_lem cap t f = rw (tx_usage_lem t f) (ground arith)

abbrev pub call_remaining : ComputeGasTracker → ℕ
call_remaining t =
    let tx_remaining = min t.frame_tracker.tx_entry.limit t.detained_limit - usage t in
    if t.rex4_enabled then min (frame_remaining t.frame_tracker) tx_remaining else tx_remaining

-- While the totals fit, the remaining compute gas of a call is what the transaction has left under
-- its detained limit and, from Rex4 on, no more than what the current frame has left.
pub current_call_remaining_lem :
    (t : ComputeGasTracker)
    → Fits t.frame_tracker
    → current_call_remaining t ≡ some (call_remaining t)
unfolding current_call_remaining tx_limit
current_call_remaining_lem t f =
    rw (tx_usage_lem t f, current_frame_remaining_lem t.frame_tracker f) (ground arith)

-- What a cap leaves of the budget: before Rex4 it counts from the start of the transaction, from
-- Rex4 on from here, as far as 64 bits go.
abbrev pub left_by : ℕ → ComputeGasTracker → ℕ
left_by cap t = if t.rex4_enabled then min cap (u64_max - usage t) else cap - usage t

-- Detention in both regimes: while the totals fit, a call has some gas remaining, and setting a cap
-- returns a tracker that reports as remaining just the lower of that and of what the cap leaves:
-- before Rex4 the cap less the usage so far, and from Rex4 on the cap itself, but no more than what
-- the usage leaves of 2^64 - 1. That is at most the cap; the detained limit is no higher than before,
-- and the recorded usage is as it was.
pub set_detained_limit-remaining :
    (cap : ℕ) (t : ComputeGasTracker)
    → Fits t.frame_tracker
    → (t' : ComputeGasTracker) × (before : ℕ) × (r : ℕ) × (set_detained_limit cap t ≡ some t')
      × (current_call_remaining t ≡ some before)
      × (current_call_remaining t' ≡ some r)
      × (r ≡ min before (left_by cap t))
      × (r ≤ cap)
      × (t'.detained_limit ≤ t.detained_limit)
      × (t'.frame_tracker ≡ t.frame_tracker)
set_detained_limit-remaining cap t f =
    let t' : ComputeGasTracker = record t {
      detained_limit = min t.detained_limit (detained_by cap t);
    } in
    (
      t',
      call_remaining t,
      call_remaining t',
      set_detained_limit_lem cap t f,
      current_call_remaining_lem t f,
      current_call_remaining_lem t' f,
      ground arith,
      ground arith,
      omega arith,
      refl,
    )
