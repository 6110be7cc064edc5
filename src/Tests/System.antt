-- ===== src/Tests/System.antt =====
-- Calls of the access control contract, and of the keyless deployment inside a sandbox.
use mega_evm.Prelude.{ℕ, ◌≡◌, refl, true, false, ◌||◌, ◌==◌, leb, none, some}
use mega_evm.Spec.{MegaSpecId, is_enabled}
use mega_evm.Limit.Revm.{FrameResult}
use mega_evm.Access.Tracker.{disable_access, volatile_access_disabled}
use mega_evm.System.Intercept.{
  CallInputs, Bindings, Host, transfers, synthetic, dispatch, access_control_address,
  keyless_deploy_address,
}
use mega_evm.System.Intercept.AccessControl.{IsPlain, dispatch-disable-query}
use mega_evm.System.Intercept.Sandboxed.{Execute, dispatch-sandboxed}
use mega_evm.Tests.Evm.{context}
use mega_evm.Tests.Instructions.{toy_revm}

-- Input 1 disables, 2 enables and 3 asks; 4 asks for the compute gas, and 5 deploys.
abbrev pub bindings : Bindings toy_revm ℕ
bindings = record {
  return_ = 0;
  send_hint = λ input. none;
  keyless_deploy = λ input. some (input, 9);
  is_disable_volatile = λ input. input == 1;
  is_enable_volatile = λ input. input == 2;
  is_volatile_query = λ input. input == 3;
  is_remaining_query = λ input. input == 4;
  encode_bool = λ b. elim b [ true ↦ 1 | false ↦ 0 ];
  encode_u64 = λ n. n;
  non_zero_transfer = 77;
  disabled_by_parent = 78;
  on_hint = λ caller topic hint world. world;
}

abbrev host : Host ℕ ℕ
host = record {
  spec = MegaSpecId.rex4;
  disable_sandbox = true;
  oracle_env = 0;
  volatile_data_tracker = context.volatile_data_tracker;
  additional_limit = context.additional_limit;
  rest = 0;
}

abbrev pub call_of : ℕ → ℕ → CallInputs toy_revm
call_of target input = record {
  target_address = target;
  caller = 11;
  transfer_value = some 0;
  input = input;
  gas_limit = 1000;
  return_memory_offset = (0, 0);
}

-- Two executions of a deployment that differ.
abbrev execution : ℕ → Execute toy_revm ℕ ℕ
execution answer h inputs tx_bytes gas_limit = some (
  h,
  FrameResult.call_result (record { result = answer; output = tx_bytes; gas = gas_limit })
      inputs.return_memory_offset,
)

call-IsPlain : (input : ℕ) → IsPlain bindings (execution 0) (call_of access_control_address input)
unfolding transfers
call-IsPlain input = record { to = refl; free = refl }

rex2_enabled : is_enabled host.spec MegaSpecId.rex2 ≡ true
unfolding is_enabled
rex2_enabled = refl

rex4_enabled : is_enabled host.spec MegaSpecId.rex4 ≡ true
unfolding is_enabled
rex4_enabled = refl

dispatch-disable-query_example :
    let tracker = disable_access 2 host.volatile_data_tracker in
    let h' : Host ℕ ℕ = record host { volatile_data_tracker = tracker } in
    let answer =
      bindings.encode_bool (leb 2 4 || volatile_access_disabled 4 host.volatile_data_tracker) in
    (dispatch bindings (execution 0) (call_of access_control_address 1) 2 host
      ≡ some (h', some (synthetic bindings (execution 0) 0 0 (call_of access_control_address 1))))
    × (dispatch bindings (execution 0) (call_of access_control_address 3) 4 h'
        ≡ some (
          h',
          some (synthetic bindings (execution 0) 0 answer (call_of access_control_address 3)),
        ))
dispatch-disable-query_example =
    dispatch-disable-query bindings (execution 0) (call_of access_control_address 1)
      (call_of access_control_address 3) 2 4 host rex2_enabled rex4_enabled (call-IsPlain 1)
      (call-IsPlain 3) refl refl refl refl

dispatch-sandboxed_example :
    dispatch bindings (execution 0) (call_of keyless_deploy_address 5) 0 host
    ≡ dispatch bindings (execution 1) (call_of keyless_deploy_address 5) 0 host
dispatch-sandboxed_example =
    dispatch-sandboxed bindings (execution 0) (execution 1) (call_of keyless_deploy_address 5) 0
      host refl
