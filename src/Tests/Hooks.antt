-- ===== src/Tests/Hooks.antt =====
-- The hooks of limit.rs at one state, over a concrete stand-in for revm's types.
use mega_evm.Prelude.{arith, ℕ, ◌≡◌, refl, Bool, true, false, some, List, [], ◌∷◌, u64_max, ◌==◌}
use mega_evm.Spec.{MegaSpecId, is_enabled}
use mega_evm.Limit.Frame.{has_active_frame, exceeds_current_frame_limit, net_usage}
use mega_evm.Limit.Check.{LimitKind, LimitCheck, as_u8}
use mega_evm.Limit.CallFrame.{CallFrameInfo}
use mega_evm.Limit.Entry.{FrameLimitEntry}
use mega_evm.Limit.Revm.{Revm, FrameResult}
use mega_evm.Limit.StateGrowth
use mega_evm.Limit.DataSize
use mega_evm.Limit.KvUpdate
use mega_evm.Limit.ComputeGas
use mega_evm.Limit.RuntimeLimits.{rex4}
use mega_evm.Limit.Additional.{AdditionalLimit, check_limit}
use mega_evm.Limit.Additional.Returns.{before_frame_return_result}
use mega_evm.Limit.Additional.Order.{check_limit-first_exceeded}
use mega_evm.Limit.Additional.Propagation.{HasFrames}
use mega_evm.Limit.Additional.Exceeded.{AllFit, AllPopped, before_frame_return_result-exceeded}

-- Results 0 (a stop), 1 (a revert) and 2 (out of gas); bytes by their kind and limit.
abbrev toy_revm : Revm
toy_revm = record {
  InstructionResult = ℕ;
  revert = 1;
  out_of_gas = 2;
  is_ok = λ r. r == 0;
  Bytes = List ℕ;
  no_bytes = [];
  bytes_len = λ b. elim b [ [] ↦ 0 | _ ∷ _ ↦ 68 ];
  mega_limit_exceeded = λ kind limit. kind ∷ limit ∷ [];
  Gas = ℕ;
  new_gas = λ limit. limit;
  gas_remaining = λ g. g;
  OpHaltReason = Bool;
  is_basic_out_of_gas = λ h. h;
}

abbrev entry_of : ℕ → ℕ → FrameLimitEntry (Unit {0})
entry_of limit usage = record {
  limit = limit;
  persistent_usage = 0;
  discardable_usage = usage;
  refund = 0;
  info = tt;
}

abbrev call_entry : ℕ → ℕ → FrameLimitEntry CallFrameInfo
call_entry limit usage = record {
  limit = limit;
  persistent_usage = 0;
  discardable_usage = usage;
  refund = 0;
  info = record { target_address = some 5; target_updated = true };
}

-- A call in a call has written more data than its budget of 98.
abbrev state_with : LimitCheck → AdditionalLimit
state_with found = record {
  has_exceeded_limit = found;
  rescued_gas = 0;
  limits = rex4;
  state_growth = record {
    spec = MegaSpecId.rex4;
    frame_tracker = record {
      tx_entry = entry_of 1000 0;
      frame_stack = entry_of 98 0 ∷ entry_of 100 0 ∷ [];
    };
  };
  data_size = record {
    rex4_enabled = true;
    frame_tracker = record {
      tx_entry = entry_of 100 150;
      frame_stack = call_entry 98 120 ∷ call_entry 100 0 ∷ [];
    };
  };
  kv_update = record {
    rex4_enabled = true;
    frame_tracker = record {
      tx_entry = entry_of 100 0;
      frame_stack = call_entry 98 3 ∷ call_entry 100 0 ∷ [];
    };
  };
  compute_gas = record {
    rex1_enabled = true;
    rex4_enabled = true;
    detained_limit = u64_max;
    frame_tracker = record {
      tx_entry = entry_of 1000 0;
      frame_stack = entry_of 980 0 ∷ entry_of 1000 0 ∷ [];
    };
  };
}

state_with-HasFrames : (found : LimitCheck) → HasFrames (state_with found)
unfolding StateGrowth.has_active_frame DataSize.has_active_frame KvUpdate.has_active_frame
    ComputeGas.has_active_frame has_active_frame
state_with-HasFrames found = record {
  growth_active = refl;
  data_active = refl;
  kv_active = refl;
  gas_active = refl;
}

abbrev frame_exceed : LimitCheck
frame_exceed = LimitCheck.exceeds_limit LimitKind.data_size 98 120 true

abbrev tx_exceed : LimitCheck
tx_exceed = LimitCheck.exceeds_limit LimitKind.compute_gas 1000 1200 false

abbrev created : FrameResult toy_revm
created = FrameResult.create_result (record { result = 0; output = []; gas = 500 }) (some 77)

state_with-AllFit : (found : LimitCheck) → AllFit (state_with found)
state_with-AllFit found = record {
  growth_fits = omega arith;
  data_fits = omega arith;
  kv_fits = omega arith;
  gas_fits = omega arith;
}

before_frame_return_result-exceeded_example :
    (a' : AdditionalLimit) × (before_frame_return_result toy_revm false created
        (state_with frame_exceed)
      ≡ some (
        a',
        FrameResult.create_result
            (record { result = 1; output = as_u8 LimitKind.data_size ∷ 98 ∷ []; gas = 500 })
            (some 77),
      ))
    × (a'.has_exceeded_limit ≡ LimitCheck.within_limit)
    × AllPopped true (state_with frame_exceed) a'
    × (a'.rescued_gas ≡ 0)
    × (a'.limits ≡ rex4)
before_frame_return_result-exceeded_example =
    before_frame_return_result-exceeded toy_revm false created (state_with frame_exceed)
      LimitKind.data_size 98 120 true refl (state_with-HasFrames frame_exceed)
      (state_with-AllFit frame_exceed)

data_check : DataSize.check_limit (state_with LimitCheck.within_limit).data_size ≡ some frame_exceed
unfolding DataSize.check_limit exceeds_current_frame_limit
data_check = refl

kv_check :
    KvUpdate.check_limit (state_with LimitCheck.within_limit).kv_update
    ≡ some LimitCheck.within_limit
unfolding KvUpdate.check_limit exceeds_current_frame_limit
kv_check = refl

gas_check :
    ComputeGas.check_limit (state_with LimitCheck.within_limit).compute_gas
    ≡ some LimitCheck.within_limit
unfolding ComputeGas.check_limit exceeds_current_frame_limit net_usage
gas_check = refl

growth_check :
    StateGrowth.check_limit (state_with LimitCheck.within_limit).state_growth
    ≡ some LimitCheck.within_limit
unfolding StateGrowth.check_limit is_enabled exceeds_current_frame_limit
growth_check = refl

check_limit-first_exceeded_example :
    check_limit (state_with LimitCheck.within_limit) ≡ some (frame_exceed, state_with frame_exceed)
check_limit-first_exceeded_example =
    check_limit-first_exceeded (state_with LimitCheck.within_limit) frame_exceed
      LimitCheck.within_limit LimitCheck.within_limit LimitCheck.within_limit data_check kv_check
      gas_check growth_check
