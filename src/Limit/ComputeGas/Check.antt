-- ===== src/Limit/ComputeGas/Check.antt =====
-- `check_limit` of compute_gas.rs reports exactly the budgets that are exceeded.
use mega_evm.Prelude.{
  ℕ, ◌≤◌, ◌↔◌, Bool, ap, min, ◌≡◌, refl, true, false, if◌then◌else◌, ltb, some, List, [], ◌∷◌,
  arith,
}
use mega_evm.Limit.Check.{LimitKind, LimitCheck}
use mega_evm.Limit.Entry.{FrameLimitEntry}
use mega_evm.Limit.Frame.{FrameLimitTracker, exceeds_current_frame_limit}
use mega_evm.Limit.Frame.Totals.{Fits, entry_used}
use mega_evm.Limit.Frame.Budget.{net, exceeds_current_frame_limit_lem}
use mega_evm.Limit.ComputeGas.{ComputeGasTracker, tx_limit, check_limit, check_tx_limit}
use mega_evm.Limit.ComputeGas.Detention.{usage, tx_usage_lem}

-- The check of the top frame's budget.
abbrev pub frame_check : List (FrameLimitEntry (Unit {0})) → LimitCheck
frame_check [] = LimitCheck.within_limit
frame_check (e ∷ _) =
    if ltb e.limit (net e)
    then LimitCheck.exceeds_limit LimitKind.compute_gas e.limit (entry_used e) true
    else LimitCheck.within_limit

-- The check of the transaction's budget, which detention may have lowered.
abbrev pub tx_check : ComputeGasTracker → LimitCheck
tx_check t =
    let limit = min t.frame_tracker.tx_entry.limit t.detained_limit in
    if ltb limit (usage t)
    then LimitCheck.exceeds_limit LimitKind.compute_gas limit (usage t) false
    else LimitCheck.within_limit

abbrev pub first_exceeded : LimitCheck → LimitCheck → LimitCheck
first_exceeded LimitCheck.within_limit other = other
first_exceeded (LimitCheck.exceeds_limit k l u f) other = LimitCheck.exceeds_limit k l u f

frame_check_lem :
    (tx : FrameLimitEntry (Unit {0})) (stack : List (FrameLimitEntry (Unit {0})))
    → let t : FrameLimitTracker (Unit {0}) = record { tx_entry = tx; frame_stack = stack } in
      Fits t → exceeds_current_frame_limit LimitKind.compute_gas t ≡ some (frame_check stack)
unfolding exceeds_current_frame_limit
frame_check_lem tx [] f = refl
frame_check_lem tx (e ∷ below) f =
    exceeds_current_frame_limit_lem LimitKind.compute_gas tx e below (omega arith)

check_tx_limit_lem :
    (t : ComputeGasTracker) → Fits t.frame_tracker → check_tx_limit t ≡ some (tx_check t)
unfolding check_tx_limit tx_limit
check_tx_limit_lem t f = rw (tx_usage_lem t f)

-- The top frame, if there is one, is within its own limit.
abbrev pub TopWithin : List (FrameLimitEntry (Unit {0})) → Type 0
TopWithin [] = Unit {0}
TopWithin (e ∷ _) = net e ≤ e.limit

-- What the check reports.
abbrev pub reported : ComputeGasTracker → LimitCheck
reported t =
    if t.rex4_enabled
    then first_exceeded (frame_check t.frame_tracker.frame_stack) (tx_check t)
    else tx_check t

verdict_within :
    (rex4 : Bool) (stack : List (FrameLimitEntry (Unit {0}))) (limit used : ℕ)
    → let tx =
        if ltb limit used
        then LimitCheck.exceeds_limit LimitKind.compute_gas limit used false
        else LimitCheck.within_limit in
      ((if rex4 then first_exceeded (frame_check stack) tx else tx) ≡ LimitCheck.within_limit)
      ↔ ((used ≤ limit) × (rex4 ≡ true → TopWithin stack))
verdict_within false stack limit used =
    (λ h. (ground arith, λ off. absurd (cc)), λ h. let fits = h.0 in ground arith)
verdict_within true [] limit used =
    (λ h. (ground arith, λ on. tt), λ h. let fits = h.0 in ground arith)
verdict_within true (e ∷ below) limit used = (
  λ h. (ground arith, λ on. ground arith),
  λ h. let fits = h.0 in let top = h.1 refl in ground arith,
)

some-injective : (c d : LimitCheck) → some c ≡ some d → c ≡ d
some-injective c d h = cc

check_limit-reported :
    (t : ComputeGasTracker) → Fits t.frame_tracker → check_limit t ≡ some (reported t)
unfolding check_limit
check_limit-reported t f =
    rw
      (
        check_tx_limit_lem t f,
        frame_check_lem t.frame_tracker.tx_entry t.frame_tracker.frame_stack f,
      )
      (ground arith)

-- While the totals fit, the check returns. It is within the limits exactly if the net usage of the
-- transaction is at most the lower of its limit and the detained limit and, from Rex4 on, the usage
-- of the top frame less its refund is at most that frame's limit. If both are exceeded, the frame is
-- reported. A report names the limit that is exceeded; one of the frame is frame-local and names
-- its usage before the refund, one of the transaction is not and names the net usage.
pub check_limit-eq :
    (t : ComputeGasTracker)
    → Fits t.frame_tracker
    → (check_limit t ≡ some (reported t))
      × ((check_limit t ≡ some LimitCheck.within_limit) ↔ (
          (usage t ≤ min t.frame_tracker.tx_entry.limit t.detained_limit)
          × (t.rex4_enabled ≡ true → TopWithin t.frame_tracker.frame_stack)))
check_limit-eq t f =
    let found = check_limit-reported t f in
    let (within, exceeded) =
      verdict_within t.rex4_enabled t.frame_tracker.frame_stack
        (min t.frame_tracker.tx_entry.limit t.detained_limit) (usage t) in
    (found, rw found (λ h. within (some-injective _ _ h), λ h. ap some (exceeded h)))
