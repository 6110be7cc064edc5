-- ===== src/Evm/Instructions/Limited.antt =====
-- `additional_limit_ext` of crates/mega-evm/src/evm/instructions.rs: SSTORE and the logs, recorded
-- in the trackers of the additional limits after they have run.
use mega_evm.Prelude.{ℕ}
use mega_evm.Limit.Events.{SStoreResult}
use mega_evm.Limit.Additional.{on_sstore, on_log}
use mega_evm.Evm.Instructions.Machine.{Types, Instruction, Vm, run_inner, with_element, with_usize}
use mega_evm.Evm.Instructions.Compute.{or_halt}
use mega_evm.Evm.Instructions.Storage as Storage

module _ {T : Types} (V : Vm T) where
  open V use {target_address, inspect_storage, is_original_eq_present, is_original_eq_new}

  -- The record of a slot's values with the answers of revm's tests.
  unfoldable pub loaded_data : ℕ → ℕ → ℕ → SStoreResult
  loaded_data original_value present_value new_value = record {
    original_value = original_value;
    present_value = present_value;
    new_value = new_value;
    is_original_eq_present = is_original_eq_present original_value present_value new_value;
    is_original_eq_new = is_original_eq_new original_value present_value new_value;
  }

  unfoldable pub sstore : Instruction T → Instruction T
  unfolding loaded_data run_inner or_halt Storage.with_slot Storage.sstore
  sstore original = Storage.with_slot V (λ index original_value present_value new_value.
      run_inner V (Storage.sstore V original)
        (or_halt V (on_sstore (loaded_data original_value present_value new_value))))

  unfoldable pub log : ℕ → Instruction T → Instruction T
  unfolding run_inner with_element with_usize or_halt Storage.log
  log num_topics original = with_element V 1 (λ word.
      with_usize V word (λ len.
        run_inner V (Storage.log V num_topics original) (or_halt V (on_log num_topics len))))
