-- ===== src/Tests/Instructions.antt =====
-- The opcodes of two contracts: one that calls with value, one that writes a slot and reads the
-- block's time.
use mega_evm.Prelude.{
  ℕ, ◌+◌, ◌-◌, ◌≡◌, refl, true, false, ◌&&◌, ltb, if◌then◌else◌, some, none, [], ◌∷◌, arith, Option,
  ◌==◌,
}
use mega_evm.Spec.{MegaSpecId, is_enabled}
use mega_evm.Limit.Revm.{Revm}
use mega_evm.Limit.Events.{DbResult}
use mega_evm.Access.Tracker.{disable_access}
use mega_evm.Access.Tracker as Tracker
use mega_evm.External.Gas.{sstore_set_gas, load_bucket_cost_multiplier}
use mega_evm.Evm.Context.{MegaContext, sstore_set_storage_gas}
use mega_evm.Evm.Instructions.Machine.{
  Types, Action, Interpreter, Context, Instruction, Vm, inspect, has_failed, on_interpreter,
}
use mega_evm.Evm.Instructions.Table.{CallOp, Opcode, storage_call, transfer_check, step}
use mega_evm.Evm.Instructions.Table.Calls.{stipend_of, step-forwards}
use mega_evm.Evm.Instructions.Table.Slots.{step-sstore-poor}
use mega_evm.Evm.Instructions.Volatile.{targets_beneficiary, access_disabled}
use mega_evm.Limit.Additional.{record_compute_gas}
use mega_evm.Limit.Frame.{net_usage, record_persistent, exceeds_current_frame_limit}
use mega_evm.Limit.DataSize as DataSize
use mega_evm.Limit.KvUpdate as KvUpdate
use mega_evm.Limit.StateGrowth as StateGrowth
use mega_evm.Limit.ComputeGas as ComputeGas
use mega_evm.Evm.Instructions.Compute.{wrap_op_compute_gas}
use mega_evm.Evm.Instructions.Storage as Storage
use mega_evm.Evm.Instructions.Forward.{check_call_has_transfer}
use mega_evm.Evm.Instructions.Forward.Bounds.{ErasesCost, IsCapped}
use mega_evm.Tests.Evm.{context, trackers}

-- Results: 0 goes on, 1 reverts, 2 is out of gas, and from 2 on they are errors.
abbrev pub toy_revm : Revm
toy_revm = record {
  InstructionResult = ℕ;
  revert = 1;
  out_of_gas = 2;
  is_ok = λ r. r == 0;
  Bytes = ℕ;
  no_bytes = 0;
  bytes_len = λ b. b;
  mega_limit_exceeded = λ kind limit. limit;
  Gas = ℕ;
  new_gas = λ limit. limit;
  gas_remaining = λ gas. gas;
  OpHaltReason = ℕ;
  is_basic_out_of_gas = λ r. r == 0;
}

abbrev toy : Types
toy = record { revm = toy_revm; Inputs = ℕ; Rest = ℕ; Journal = ℕ; DbError = ℕ }

abbrev halted : ℕ → Interpreter toy → Option (Interpreter toy)
halted result i = some (record i { action = some (Action.return_action result 0 i.gas) })

-- What an action returns; a new frame returns nothing.
abbrev result_of : Action toy → Option ℕ
result_of (Action.return_action r _ _) = some r
result_of _ = none

abbrev vm : Vm toy
vm = record {
  stack_underflow = 3;
  fatal_external_error = 4;
  invalid_operand_oog = 5;
  is_error = λ r. ltb 1 r;
  instruction_result = result_of;
  set_action = λ a i. some (record i { action = some a });
  halt = halted;
  halt_oog = halted 2;
  erase_cost = λ n gas. gas + n;
  record_cost = λ n gas. if ltb gas n then none else some (gas - n);
  as_usize = λ n. some n;
  into_address = λ n. n;
  target_address = λ rest. rest;
  memory_slice = λ offset len rest. some 0;
  keccak256 = λ code. 0;
  create_address = λ creator nonce. 0;
  create2_address = λ creator salt code_hash. 0;
  call_stipend = 2300;
  log_topic_gas = 375;
  log_data_gas = 8;
  is_original_eq_present = λ o p n. o == p;
  is_original_eq_new = λ o p n. o == n;
  disabled_revert_data = λ ty. 7;
  depth = λ journal. journal;
  inspect_account = λ spec target journal. (journal, DbResult.ok (0, false));
  inspect_storage = λ spec target index journal. (journal, DbResult.ok (0, 0));
}

abbrev interpreter : Interpreter toy
interpreter = record { gas = 100_000; stack = 5 ∷ 12 ∷ 50 ∷ []; action = none; rest = 12 }

abbrev before_call : Context toy
before_call = record { interpreter = interpreter; host = context; journal = 1 }

-- revm's CALL with value 5: it takes the gas and forwards 90,000 with the stipend.
abbrev instruction : Opcode → Instruction toy
instruction (Opcode.call_like _) =
    on_interpreter vm
      (λ i. some (record i { gas = 1000; action = some (Action.new_call 92_300 0) }))
instruction _ = some

erases : ErasesCost vm
erases n g h = refl

abbrev after_call : Context toy
after_call = record {
  interpreter = record interpreter { gas = 1000; action = some (Action.new_call 92_300 0) };
  host = record context { additional_limit = trackers 6700 };
  journal = 1;
}

called : storage_call vm instruction some CallOp.call before_call ≡ some after_call
unfolding storage_call Storage.wrap_call_with_storage_gas wrap_op_compute_gas record_compute_gas
    DataSize.check_limit KvUpdate.check_limit StateGrowth.check_limit ComputeGas.check_limit
    ComputeGas.record_gas_used net_usage record_persistent is_enabled exceeds_current_frame_limit
    inspect
called = refl

fine : has_failed vm after_call.interpreter ≡ false
unfolding has_failed
fine = refl

-- The call goes to 50, and 99 is the beneficiary.
other_callee : (targets_beneficiary vm 1 before_call && access_disabled vm before_call) ≡ false
unfolding targets_beneficiary inspect
other_callee = refl

rex_in_rex4 : is_enabled MegaSpecId.rex4 MegaSpecId.rex ≡ true
unfolding is_enabled
rex_in_rex4 = refl

stipend_sent : stipend_of vm instruction some CallOp.call before_call ≡ 2300
unfolding transfer_check check_call_has_transfer
stipend_sent = refl

-- Of 91,000 the child gets 89,180 and the stipend, and the parent keeps 1,820.
step-forwards_example :
    (after : Interpreter toy) × (step vm instruction some MegaSpecId.rex4
        (Opcode.call_like CallOp.call)
        before_call
      ≡ some (record after_call { interpreter = after }))
    × IsCapped vm
        (stipend_of vm instruction some CallOp.call before_call)
        92_300
        0
        after_call.interpreter
        after
step-forwards_example =
    step-forwards vm instruction some MegaSpecId.rex4 CallOp.call before_call after_call 92_300 0
      erases rex_in_rex4 other_callee called fine refl (rw stipend_sent (omega arith)) (omega arith)

abbrev disabled_context : MegaContext ℕ
disabled_context = record context {
  volatile_data_tracker = disable_access 1 context.volatile_data_tracker;
}

abbrev disabled_call : Context toy
disabled_call = record before_call {
  interpreter = record interpreter { stack = 5 ∷ 99 ∷ 50 ∷ [] };
  host = disabled_context;
}

-- A slot costs 20,000 in a bucket of 256; here there are 100 of gas.
abbrev poor_interpreter : Interpreter toy
poor_interpreter = record interpreter { gas = 100; stack = 7 ∷ 3 ∷ [] }

abbrev before_write : Context toy
before_write = record { interpreter = poor_interpreter; host = context; journal = 1 }

abbrev halted_interpreter : Interpreter toy
halted_interpreter = record poor_interpreter { action = some (Action.return_action 2 0 100) }

-- The host with the price of bucket 0 looked up.
abbrev priced_host : MegaContext ℕ
priced_host = record context {
  dynamic_storage_gas_cost = record (context.dynamic_storage_gas_cost) {
    bucket_cost_multipliers = (0, 2) ∷ [];
  };
}

priced : sstore_set_storage_gas 12 3 context ≡ (priced_host, some 20_000)
unfolding sstore_set_storage_gas sstore_set_gas load_bucket_cost_multiplier is_enabled
priced = refl

slot_on_top : inspect 0 before_write.interpreter.stack ≡ some 3
unfolding inspect
slot_on_top = refl

value_below : inspect 1 before_write.interpreter.stack ≡ some 7
unfolding inspect
value_below = refl

out_of_gas-failed : has_failed vm halted_interpreter ≡ true
unfolding has_failed
out_of_gas-failed = refl

mini_rex_in_rex4 : is_enabled MegaSpecId.rex4 MegaSpecId.mini_rex ≡ true
unfolding is_enabled
mini_rex_in_rex4 = refl

step-sstore-poor_example :
    (step vm instruction some MegaSpecId.rex4 Opcode.sstore before_write
      ≡ some (record { interpreter = halted_interpreter; host = priced_host; journal = 1 }))
    × (priced_host.additional_limit ≡ context.additional_limit)
    × (priced_host.volatile_data_tracker ≡ context.volatile_data_tracker)
step-sstore-poor_example =
    step-sstore-poor vm instruction some MegaSpecId.rex4 before_write 3 7 20_000 1 priced_host
      halted_interpreter mini_rex_in_rex4 slot_on_top value_below refl refl refl priced refl refl
      out_of_gas-failed
