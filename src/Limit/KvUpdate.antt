-- ===== src/Limit/KvUpdate.antt =====
-- crates/mega-evm/src/limit/kv_update.rs: the key-value updates of a transaction.
pub mod Depth
pub mod Slots
use mega_evm.Prelude.{
  ℕ, Bool, true, false, ◌&&◌, ◌||◌, not, if◌then◌else◌, ltb, Option, none, some, List, [], ◌∷◌,
  ◌>>=◌, ◌>>◌, assert, add64, u64_max,
}
use mega_evm.Spec.{MegaSpecId, is_enabled}
use mega_evm.Limit.Check.{LimitKind, LimitCheck}
use mega_evm.Limit.Events.{Address, TxData, FrameInput, FrameData, SStoreResult}
use mega_evm.Limit.CallFrame.{CallFrameInfo}
use mega_evm.Limit.Frame.{FrameLimitTracker}
use mega_evm.Limit.Frame

pub record KvUpdateTracker : Type 0 where
  pub rex4_enabled : Bool
  pub frame_tracker : FrameLimitTracker CallFrameInfo

unfoldable pub new : MegaSpecId → ℕ → KvUpdateTracker
new spec tx_limit = record {
  rex4_enabled = is_enabled spec MegaSpecId.rex4;
  frame_tracker = Frame.new tx_limit;
}

unfoldable pub push_frame : CallFrameInfo → KvUpdateTracker → Option KvUpdateTracker
push_frame info t = do
  pushed ←
      (if t.rex4_enabled
        then Frame.push_frame info t.frame_tracker
        else some (Frame.push_frame_with_limit u64_max info t.frame_tracker))
  some (record t { frame_tracker = pushed })

unfoldable pub has_active_frame : KvUpdateTracker → Bool
has_active_frame t = Frame.has_active_frame t.frame_tracker

pub record_discardable : ℕ → KvUpdateTracker → KvUpdateTracker
record_discardable size t = record t {
  frame_tracker = Frame.record_discardable size t.frame_tracker;
}

pub record_refund : ℕ → KvUpdateTracker → KvUpdateTracker
record_refund size t = record t { frame_tracker = Frame.record_refund size t.frame_tracker }

record_tx_persistent : ℕ → KvUpdateTracker → KvUpdateTracker
record_tx_persistent size t = record t {
  frame_tracker = Frame.record_tx_persistent size t.frame_tracker;
}

pub tx_limit : KvUpdateTracker → ℕ
tx_limit t = t.frame_tracker.tx_entry.limit

pub tx_usage : KvUpdateTracker → Option ℕ
tx_usage t = Frame.net_usage t.frame_tracker

unfoldable pub reset : KvUpdateTracker → KvUpdateTracker
reset t = record t { frame_tracker = Frame.reset t.frame_tracker }

unfoldable pub check_limit : KvUpdateTracker → Option LimitCheck
unfolding tx_usage tx_limit
check_limit t =
    if t.rex4_enabled
    then Frame.exceeds_current_frame_limit LimitKind.kv_update t.frame_tracker
    else do
      used ← tx_usage t
      some (
          if ltb (tx_limit t) used
          then LimitCheck.exceeds_limit LimitKind.kv_update (tx_limit t) used false
          else LimitCheck.within_limit)

-- One update for each authorization that recovers an address.
record_authorities : List Bool → KvUpdateTracker → KvUpdateTracker
unfolding record_tx_persistent
record_authorities [] t = t
record_authorities (has_authority ∷ rest) t =
    record_authorities rest (if has_authority then record_tx_persistent 1 t else t)

pub before_tx_start : TxData → KvUpdateTracker → KvUpdateTracker
unfolding record_tx_persistent record_authorities
before_tx_start tx t = record_tx_persistent 1 (record_authorities tx.authorities t)

unfoldable pub push_empty_frame : KvUpdateTracker → Option KvUpdateTracker
unfolding push_frame
push_empty_frame t = push_frame (record { target_address = none; target_updated = false }) t

-- `self.frame_tracker.frame_mut().is_some_and(|entry| !entry.info.target_updated)`.
pub parent_not_updated : KvUpdateTracker → Bool
parent_not_updated t = elim t.frame_tracker.frame_stack [
  | [] ↦ false
  | entry ∷ _ ↦ not entry.info.target_updated
]

unfoldable pub before_frame_init : FrameInput → KvUpdateTracker → Option KvUpdateTracker
unfolding push_frame record_discardable parent_not_updated
before_frame_init (FrameInput.call target has_transfer _ _) t = do
  let parent_needs_update = has_transfer && parent_not_updated t
  t' ← push_frame (record { target_address = some target; target_updated = has_transfer }) t
  some (
      if has_transfer
      then record_discardable 1 (if parent_needs_update then record_discardable 1 t' else t')
      else t')
before_frame_init (FrameInput.create _) t = do
  let parent_needs_update = parent_not_updated t
  t' ← push_frame (record { target_address = none; target_updated = true }) t
  some (if parent_needs_update then record_discardable 1 t' else t')
before_frame_init FrameInput.empty t = none

-- `assert!(entry.info.target_address.is_none())`.
is_none : Option Address → Bool
is_none none = true
is_none (some _) = false

-- The created address goes into the top frame, with its update.
set_created_address :
    Address → FrameLimitTracker CallFrameInfo → Option (FrameLimitTracker CallFrameInfo)
unfolding is_none
set_created_address address t = elim t.frame_stack [
  | [] ↦ some t
  | entry ∷ rest ↦ do
    assert (is_none entry.info.target_address)
    some (record t {
      frame_stack =
          record entry {
            info = record {
              target_address = some address;
              target_updated = entry.info.target_updated;
            };
            discardable_usage = add64 entry.discardable_usage 1;
          }
          ∷ rest;
    })
]

unfoldable pub after_frame_init_on_frame : FrameData → KvUpdateTracker → Option KvUpdateTracker
unfolding set_created_address
after_frame_init_on_frame FrameData.call_frame t = some t
after_frame_init_on_frame (FrameData.create_frame none) t = none
after_frame_init_on_frame (FrameData.create_frame (some address)) t = do
  created ← set_created_address address t.frame_tracker
  some (record t { frame_tracker = created })

-- `last_frame` is the const parameter `LAST_FRAME`, `success` is `is_ok()` of the result.
unfoldable pub before_frame_return_result : Bool → Bool → KvUpdateTracker → Option KvUpdateTracker
unfolding has_active_frame
before_frame_return_result last_frame success t = do
  assert (last_frame || has_active_frame t)
  some (record t { frame_tracker = (Frame.pop_frame success t.frame_tracker).0 })

pub after_sstore : SStoreResult → KvUpdateTracker → KvUpdateTracker
unfolding record_discardable record_refund
after_sstore r t =
    if r.is_original_eq_present
    then (if r.is_original_eq_new then t else record_discardable 1 t)
    else (if r.is_original_eq_new then record_refund 1 t else t)
