-- ===== src/Limit/StateGrowth.antt =====
-- crates/mega-evm/src/limit/state_growth.rs: the net growth of the state in accounts and slots.
pub mod Depth
pub mod Slots
use mega_evm.Prelude.{
  ℕ, Bool, true, false, ◌||◌, if◌then◌else◌, ltb, ◌==◌, Option, none, some, ◌>>=◌, ◌>>◌, assert,
  u64_max,
}
use mega_evm.Spec.{MegaSpecId, is_enabled}
use mega_evm.Limit.Check.{LimitKind, LimitCheck}
use mega_evm.Limit.Events.{Address, FrameInput, SStoreResult, DbResult, ok, err}
use mega_evm.Limit.Frame.{FrameLimitTracker}
use mega_evm.Limit.Frame

pub record StateGrowthTracker : Type 0 where
  pub spec : MegaSpecId
  pub frame_tracker : FrameLimitTracker (Unit {0})

unfoldable pub new : MegaSpecId → ℕ → StateGrowthTracker
new spec tx_limit = record { spec = spec; frame_tracker = Frame.new tx_limit }

unfoldable pub push_frame : StateGrowthTracker → Option StateGrowthTracker
push_frame t = do
  pushed ←
      (if is_enabled t.spec MegaSpecId.rex4
        then Frame.push_frame tt t.frame_tracker
        else some (Frame.push_frame_with_limit u64_max tt t.frame_tracker))
  some (record t { frame_tracker = pushed })

pub record_growth : ℕ → StateGrowthTracker → StateGrowthTracker
record_growth n t = record t { frame_tracker = Frame.record_discardable n t.frame_tracker }

pub record_refund : ℕ → StateGrowthTracker → StateGrowthTracker
record_refund n t = record t { frame_tracker = Frame.record_refund n t.frame_tracker }

pub tx_limit : StateGrowthTracker → ℕ
tx_limit t = t.frame_tracker.tx_entry.limit

pub tx_usage : StateGrowthTracker → Option ℕ
tx_usage t = Frame.net_usage t.frame_tracker

unfoldable pub reset : StateGrowthTracker → StateGrowthTracker
reset t = record t { frame_tracker = Frame.reset t.frame_tracker }

unfoldable pub check_limit : StateGrowthTracker → Option LimitCheck
unfolding tx_usage tx_limit
check_limit t =
    if is_enabled t.spec MegaSpecId.rex4
    then Frame.exceeds_current_frame_limit LimitKind.state_growth t.frame_tracker
    else do
      used ← tx_usage t
      some (
          if ltb (tx_limit t) used
          then LimitCheck.exceeds_limit LimitKind.state_growth (tx_limit t) used false
          else LimitCheck.within_limit)

unfoldable pub push_empty_frame : StateGrowthTracker → Option StateGrowthTracker
unfolding push_frame
push_empty_frame t = push_frame t

-- `is_empty_account` is the journal's answer to `inspect_account_delegated` followed by
-- `state_clear_aware_is_empty`. On a database error the frame stays pushed.
unfoldable pub before_frame_init {ℓ} :
    {E : Type ℓ}
    → (MegaSpecId → Address → DbResult E Bool)
    → FrameInput
    → StateGrowthTracker
    → Option (StateGrowthTracker × DbResult E (Unit {0}))
unfolding push_frame record_growth
before_frame_init is_empty_account (FrameInput.call target transfers_value _ _) t = do
  t' ← push_frame t
  some (
      if transfers_value
      then elim (is_empty_account t'.spec target) [
        | err e ↦ (t', err e)
        | ok is_empty ↦ (if is_empty then record_growth 1 t' else t', ok tt)
      ]
      else (t', ok tt))
before_frame_init is_empty_account (FrameInput.create _) t = do
  t' ← push_frame t
  some (record_growth 1 t', ok tt)
before_frame_init is_empty_account FrameInput.empty t = none

-- The match on `is_zero` of the original, the present and the new value.
slot_change : Bool → Bool → Bool → StateGrowthTracker → StateGrowthTracker
unfolding record_growth record_refund
slot_change true true false t = record_growth 1 t
slot_change true false true t = record_refund 1 t
slot_change _ _ _ t = t

pub after_sstore : SStoreResult → StateGrowthTracker → StateGrowthTracker
unfolding slot_change
after_sstore r t = slot_change (r.original_value == 0) (r.present_value == 0) (r.new_value == 0) t

unfoldable pub has_active_frame : StateGrowthTracker → Bool
has_active_frame t = Frame.has_active_frame t.frame_tracker

unfoldable pub before_frame_return_result :
    Bool → Bool → StateGrowthTracker → Option StateGrowthTracker
unfolding has_active_frame
before_frame_return_result last_frame success t = do
  assert (last_frame || has_active_frame t)
  some (record t { frame_tracker = (Frame.pop_frame success t.frame_tracker).0 })
