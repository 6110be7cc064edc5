-- ===== src/Limit/DataSize.antt =====
-- crates/mega-evm/src/limit/data_size.rs: the bytes that a transaction generates.
pub mod Depth
pub mod Slots
pub mod Start
use mega_evm.Prelude.{
  ℕ, ◌+◌, Bool, true, false, ◌&&◌, ◌||◌, not, if◌then◌else◌, ltb, Option, none, some, List, [], ◌∷◌,
  ◌>>=◌, ◌>>◌, assert, add64, mul64, u64_max, length,
}
use mega_evm.Spec.{MegaSpecId, is_enabled}
use mega_evm.Limit.Check.{LimitKind, LimitCheck}
use mega_evm.Limit.Events.{Address, TxData, FrameInput, FrameData, SStoreResult}
use mega_evm.Limit.CallFrame.{CallFrameInfo}
use mega_evm.Limit.Frame.{FrameLimitTracker}
use mega_evm.Limit.Frame

abbrev pub base_tx_size : ℕ
base_tx_size = 110

abbrev pub authorization_size : ℕ
authorization_size = 101

abbrev pub log_topic_size : ℕ
log_topic_size = 32

abbrev pub salt_key_size : ℕ
salt_key_size = 8

abbrev pub salt_value_delta_account_info_size : ℕ
salt_value_delta_account_info_size = 32

abbrev pub salt_value_delta_storage_slot_size : ℕ
salt_value_delta_storage_slot_size = 32

abbrev pub account_info_write_size : ℕ
account_info_write_size = salt_key_size + salt_value_delta_account_info_size

abbrev pub storage_slot_write_size : ℕ
storage_slot_write_size = salt_key_size + salt_value_delta_storage_slot_size

pub record DataSizeTracker : Type 0 where
  pub rex4_enabled : Bool
  pub frame_tracker : FrameLimitTracker CallFrameInfo

unfoldable pub new : MegaSpecId → ℕ → DataSizeTracker
new spec tx_limit = record {
  rex4_enabled = is_enabled spec MegaSpecId.rex4;
  frame_tracker = Frame.new tx_limit;
}

unfoldable pub push_frame : CallFrameInfo → DataSizeTracker → Option DataSizeTracker
push_frame info t = do
  pushed ←
      (if t.rex4_enabled
        then Frame.push_frame info t.frame_tracker
        else some (Frame.push_frame_with_limit u64_max info t.frame_tracker))
  some (record t { frame_tracker = pushed })

unfoldable pub has_active_frame : DataSizeTracker → Bool
has_active_frame t = Frame.has_active_frame t.frame_tracker

unfoldable pub record_discardable : ℕ → DataSizeTracker → DataSizeTracker
record_discardable size t = record t {
  frame_tracker = Frame.record_discardable size t.frame_tracker;
}

pub record_refund : ℕ → DataSizeTracker → DataSizeTracker
record_refund size t = record t { frame_tracker = Frame.record_refund size t.frame_tracker }

record_tx_persistent : ℕ → DataSizeTracker → DataSizeTracker
record_tx_persistent size t = record t {
  frame_tracker = Frame.record_tx_persistent size t.frame_tracker;
}

pub tx_limit : DataSizeTracker → ℕ
tx_limit t = t.frame_tracker.tx_entry.limit

pub tx_usage : DataSizeTracker → Option ℕ
tx_usage t = Frame.net_usage t.frame_tracker

unfoldable pub reset : DataSizeTracker → DataSizeTracker
reset t = record t { frame_tracker = Frame.reset t.frame_tracker }

unfoldable pub check_limit : DataSizeTracker → Option LimitCheck
unfolding tx_usage tx_limit
check_limit t =
    if t.rex4_enabled
    then Frame.exceeds_current_frame_limit LimitKind.data_size t.frame_tracker
    else do
      used ← tx_usage t
      some (
          if ltb (tx_limit t) used
          then LimitCheck.exceeds_limit LimitKind.data_size (tx_limit t) used false
          else LimitCheck.within_limit)

-- `iter.sum::<u64>()`.
sum64 : List ℕ → ℕ
sum64 [] = 0
sum64 (n ∷ ns) = add64 n (sum64 ns)

access_list_size : Option (List ℕ) → ℕ
access_list_size none = 0
access_list_size (some sizes) = sum64 sizes

-- One authority account update for each authorization that recovers an address.
record_authorities : List Bool → DataSizeTracker → DataSizeTracker
unfolding record_tx_persistent
record_authorities [] t = t
record_authorities (has_authority ∷ rest) t =
    record_authorities rest
      (if has_authority then record_tx_persistent account_info_write_size t else t)

pub before_tx_start : TxData → DataSizeTracker → DataSizeTracker
unfolding record_tx_persistent record_authorities access_list_size sum64
before_tx_start tx t =
    let size =
      add64 (add64 (add64 base_tx_size tx.input_len) (access_list_size tx.access_sizes))
        (mul64 (length tx.authorities) authorization_size) in
    record_tx_persistent account_info_write_size
      (record_authorities tx.authorities (record_tx_persistent size t))

unfoldable pub push_empty_frame : DataSizeTracker → Option DataSizeTracker
unfolding push_frame
push_empty_frame t = push_frame (record { target_address = none; target_updated = false }) t

-- `self.frame_tracker.frame_mut().is_some_and(|entry| !entry.info.target_updated)`.
pub parent_not_updated : DataSizeTracker → Bool
parent_not_updated t = elim t.frame_tracker.frame_stack [
  | [] ↦ false
  | entry ∷ _ ↦ not entry.info.target_updated
]

unfoldable pub before_frame_init : FrameInput → DataSizeTracker → Option DataSizeTracker
unfolding push_frame record_discardable parent_not_updated
before_frame_init (FrameInput.call target has_transfer _ _) t = do
  let parent_needs_update = has_transfer && parent_not_updated t
  t' ← push_frame (record { target_address = some target; target_updated = has_transfer }) t
  some (
      if has_transfer
      then record_discardable account_info_write_size
          (if parent_needs_update then record_discardable account_info_write_size t' else t')
      else t')
before_frame_init (FrameInput.create _) t = do
  let parent_needs_update = parent_not_updated t
  t' ← push_frame (record { target_address = none; target_updated = true }) t
  some (if parent_needs_update then record_discardable account_info_write_size t' else t')
before_frame_init FrameInput.empty t = none

-- `assert!(entry.info.target_address.is_none())`.
is_none : Option Address → Bool
is_none none = true
is_none (some _) = false

-- The created address goes into the top frame, with its account update.
set_created_address :
    Address → FrameLimitTracker CallFrameInfo → Option (FrameLimitTracker CallFrameInfo)
unfolding is_none
set_created_address address t = elim t.frame_stack [
  | [] ↦ some t
  | entry ∷ rest ↦ do
    assert (is_none entry.info.target_address)
    some (record t {
      frame_stack =
          record entry {
            info = record {
              target_address = some address;
              target_updated = entry.info.target_updated;
            };
            discardable_usage = add64 entry.discardable_usage account_info_write_size;
          }
          ∷ rest;
    })
]

unfoldable pub after_frame_init_on_frame : FrameData → DataSizeTracker → Option DataSizeTracker
unfolding set_created_address
after_frame_init_on_frame FrameData.call_frame t = some t
after_frame_init_on_frame (FrameData.create_frame none) t = none
after_frame_init_on_frame (FrameData.create_frame (some address)) t = do
  created ← set_created_address address t.frame_tracker
  some (record t { frame_tracker = created })

-- `output_len` is the length of the returned output when the action is a return.
unfoldable pub after_frame_run : FrameData → Option ℕ → DataSizeTracker → DataSizeTracker
unfolding record_discardable
after_frame_run FrameData.call_frame action t = t
after_frame_run (FrameData.create_frame _) none t = t
after_frame_run (FrameData.create_frame _) (some output_len) t = record_discardable output_len t

-- `last_frame` is the const parameter `LAST_FRAME`, `success` is `is_ok()` of the result.
unfoldable pub before_frame_return_result : Bool → Bool → DataSizeTracker → Option DataSizeTracker
unfolding has_active_frame
before_frame_return_result last_frame success t = do
  assert (last_frame || has_active_frame t)
  some (record t { frame_tracker = (Frame.pop_frame success t.frame_tracker).0 })

pub after_sstore : SStoreResult → DataSizeTracker → DataSizeTracker
unfolding record_discardable record_refund
after_sstore r t =
    if r.is_original_eq_present
    then (if r.is_original_eq_new then t else record_discardable storage_slot_write_size t)
    else (if r.is_original_eq_new then record_refund storage_slot_write_size t else t)

pub after_log : ℕ → ℕ → DataSizeTracker → DataSizeTracker
unfolding record_discardable
after_log num_topics data_size t =
    record_discardable (add64 (mul64 num_topics log_topic_size) data_size) t
