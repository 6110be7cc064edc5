-- ===== src/Tests/Trackers.antt =====
-- One slot written three times, and the compute gas of a frame under detention.
use mega_evm.Prelude.{
  ◌↔◌, min, ℕ, ◌+◌, ◌-◌, ◌≤◌, ◌≡◌, refl, Bool, ◌||◌, true, false, some, List, [], ◌∷◌, arith,
}
use mega_evm.Limit.Events.{SStoreResult, TxData}
use mega_evm.Limit.CallFrame.{CallFrameInfo}
use mega_evm.Limit.Entry.{FrameLimitEntry}
use mega_evm.Limit.Frame.{has_active_frame as frame_is_active}
use mega_evm.Limit.Frame.Slots.{SlotWrites, owed}
use mega_evm.Limit.Frame.Totals.{Fits, total_used, total_refund}
use mega_evm.Limit.DataSize
use mega_evm.Limit.DataSize.{DataSizeTracker, storage_slot_write_size}
use mega_evm.Limit.DataSize.Slots as DataSlots
use mega_evm.Limit.DataSize.Start.{size_of, before_tx_start-usage}
use mega_evm.Limit.ComputeGas.{
  ComputeGasTracker, set_detained_limit, current_call_remaining, check_limit,
  before_frame_return_result, tx_usage, has_active_frame,
}
use mega_evm.Limit.ComputeGas.Detention.{usage, left_by, set_detained_limit-remaining}
use mega_evm.Limit.ComputeGas.Check.{reported, TopWithin, check_limit-eq}
use mega_evm.Limit.Check.{LimitCheck}
use mega_evm.Limit.ComputeGas.Persistence.{AllPersistent, before_frame_return_result-usage}

-- A slot that holds 7 at the start of the transaction is written from `present` to `new`.
abbrev write : ℕ → ℕ → Bool → Bool → SStoreResult
write present new same_present same_new = record {
  original_value = 7;
  present_value = present;
  new_value = new;
  is_original_eq_present = same_present;
  is_original_eq_new = same_new;
}

-- It becomes 8, then 7 again, then 9.
abbrev three_writes : List SStoreResult
three_writes = write 7 8 true false ∷ write 8 7 false true ∷ write 7 9 true false ∷ []

three_writes-SlotWrites : SlotWrites 7 7 three_writes 9
three_writes-SlotWrites =
    (refl, refl, ground arith, (refl, refl, ground arith, (refl, refl, ground arith, refl)))

abbrev a_tx : FrameLimitEntry (Unit {0})
a_tx = record { limit = 1000; persistent_usage = 150; discardable_usage = 0; refund = 0; info = tt }

abbrev a_call : FrameLimitEntry CallFrameInfo
a_call = record {
  limit = 1000;
  persistent_usage = 0;
  discardable_usage = 60;
  refund = 0;
  info = record { target_address = some 5; target_updated = false };
}

data_sstores-net_example :
    (e' : FrameLimitEntry CallFrameInfo) × (DataSlots.sstores three_writes (record {
      rex4_enabled = true;
      frame_tracker = record { tx_entry = a_tx; frame_stack = a_call ∷ [] };
    })
      ≡ record {
        rex4_enabled = true;
        frame_tracker = record { tx_entry = a_tx; frame_stack = e' ∷ [] };
      })
    × (e'.limit ≡ a_call.limit)
    × (e'.persistent_usage ≡ a_call.persistent_usage)
    × (e'.discardable_usage + a_call.refund
        ≡ a_call.discardable_usage
          + e'.refund
          + owed storage_slot_write_size (DataSlots.is_charged 7 9))
data_sstores-net_example =
    DataSlots.data_sstores-net true 7 9 three_writes a_call [] a_tx three_writes-SlotWrites
      (omega arith) (omega arith)

-- A frame under a budget, with what is recorded as persistent.
abbrev a_frame : FrameLimitEntry (Unit {0})
a_frame = record {
  limit = 980;
  persistent_usage = 400;
  discardable_usage = 0;
  refund = 0;
  info = tt;
}

abbrev gas : ComputeGasTracker
gas = record {
  rex1_enabled = true;
  rex4_enabled = true;
  detained_limit = 900;
  frame_tracker = record { tx_entry = a_tx; frame_stack = a_frame ∷ [] };
}

gas-Fits : Fits gas.frame_tracker
gas-Fits = record { used_fits = omega arith; refund_fits = omega arith }

gas-has_frame : (false || has_active_frame gas) ≡ true
unfolding has_active_frame frame_is_active
gas-has_frame = refl

set_detained_limit-remaining_example :
    (t' : ComputeGasTracker) × (before : ℕ) × (r : ℕ) × (set_detained_limit 100 gas ≡ some t')
    × (current_call_remaining gas ≡ some before)
    × (current_call_remaining t' ≡ some r)
    × (r ≡ min before (left_by 100 gas))
    × (r ≤ 100)
    × (t'.detained_limit ≤ gas.detained_limit)
    × (t'.frame_tracker ≡ gas.frame_tracker)
set_detained_limit-remaining_example = set_detained_limit-remaining 100 gas gas-Fits

check_limit-eq_example :
    (check_limit gas ≡ some (reported gas))
    × ((check_limit gas ≡ some LimitCheck.within_limit)
        ↔ ((usage gas ≤ 900) × (true ≡ true → TopWithin (a_frame ∷ []))))
check_limit-eq_example = check_limit-eq gas gas-Fits

before_frame_return_result-usage_example :
    (t' : ComputeGasTracker) × (before_frame_return_result false false gas ≡ some t')
    × (tx_usage t' ≡ tx_usage gas)
    × AllPersistent t'.frame_tracker.frame_stack
    × (t'.detained_limit ≡ gas.detained_limit)
before_frame_return_result-usage_example =
    before_frame_return_result-usage false false gas gas-Fits (refl, refl, tt) gas-has_frame

-- A transaction of 50 bytes of input, two items in its access list, and two authorizations, of
-- which one recovers an address.
abbrev a_start : TxData
a_start = record {
  input_len = 50;
  access_sizes = some (52 ∷ 20 ∷ []);
  authorities = true ∷ false ∷ [];
}

abbrev fresh_tracker : DataSizeTracker
fresh_tracker = record {
  rex4_enabled = true;
  frame_tracker = record {
    tx_entry = record {
      limit = 1000;
      persistent_usage = 0;
      discardable_usage = 0;
      refund = 0;
      info = tt;
    };
    frame_stack = [];
  };
}

before_tx_start-usage_example :
    DataSize.tx_usage (DataSize.before_tx_start a_start fresh_tracker)
    ≡ some (
        total_used fresh_tracker.frame_tracker
        + size_of a_start
        - total_refund fresh_tracker.frame_tracker)
before_tx_start-usage_example =
    before_tx_start-usage a_start fresh_tracker (omega arith) (omega arith)
