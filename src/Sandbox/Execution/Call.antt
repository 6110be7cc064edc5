-- ===== src/Sandbox/Execution/Call.antt =====
-- crates/mega-evm/src/sandbox/execution.rs: the call of the contract that deploys without a key.
-- `none` as a result is a panic.
use mega_evm.Prelude.{
  ℕ, Bool, true, false, not, ◌==◌, ltb, if◌then◌else◌, Option, none, some, ◌>>=◌, ◌++◌, u64_max,
}
use mega_evm.Spec.{MegaSpecId, is_enabled}
use mega_evm.Constants.Rex2.{keyless_deploy_overhead_gas}
use mega_evm.Limit.Check.{LimitCheck}
use mega_evm.Limit.Events.{Address, DbResult}
use mega_evm.Limit.Revm.{Revm, FrameResult}
use mega_evm.Limit.Additional.{record_compute_gas}
use mega_evm.Limit.Additional.Frames.{mark_frame_result_as_exceeding_limit}
use mega_evm.Limit.ComputeGas as ComputeGas
use mega_evm.Evm.State.{EvmState, merge_evm_state_optional_status}
use mega_evm.Sandbox.Error.{KeylessDeployError, encode_error_result}
use mega_evm.Sandbox.State.{AccountInfo}
use mega_evm.Sandbox.Execution.{
  SandboxTx, Outside, Host, Keyless, ◌=>>◌, SandboxOutcome, decode_keyless_tx, recover_signer,
  calculate_keyless_deploy_address, or_internal, ensure, get_account_nonce,
  execute_keyless_deploy_sandbox,
}

-- `CallInputs`, with the transferred value.
pub record KeylessCall : Type 0 where
  pub gas_limit : ℕ
  pub value : ℕ
  pub return_memory_offset : ℕ × ℕ

-- The answer to the charge of the overhead: the call ends here, or goes on with the gas left.
pub data Charged (R : Revm) : Type 0 where
  refused : FrameResult R → Charged R
  charged : R.Gas → Charged R

module _ {R : Revm} (O : Outside R) where
  open O use {return_, new_spent, record_cost, encode_return, default_account, abi}
  open R use {Bytes, Gas, revert, out_of_gas, no_bytes, new_gas}

  -- `make_error!`.
  unfoldable pub make_error : ℕ × ℕ → Gas → KeylessDeployError R → FrameResult R
  unfolding encode_error_result
  make_error range gas error =
      FrameResult.call_result
        (record { result = revert; output = encode_error_result abi error; gas = gas }) range

  -- `make_halt!`.
  unfoldable pub make_halt : ℕ × ℕ → Gas → FrameResult R
  make_halt range gas =
      FrameResult.call_result
        (record { result = out_of_gas; output = no_bytes; gas = new_spent (O.gas_limit gas) }) range

  -- The end of a call whose compute gas is over the limit; within it, the code is `unreachable!`.
  unfoldable pub refuse_compute_gas : ℕ × ℕ → Gas → LimitCheck → Option (FrameResult R)
  unfolding make_error make_halt mark_frame_result_as_exceeding_limit
  refuse_compute_gas range gas LimitCheck.within_limit = none
  refuse_compute_gas range gas (LimitCheck.exceeds_limit _ limit used true) =
      some (make_error range gas (KeylessDeployError.insufficient_compute_gas limit used))
  refuse_compute_gas range gas (LimitCheck.exceeds_limit _ limit used false) =
      some (mark_frame_result_as_exceeding_limit R out_of_gas no_bytes (make_halt range gas))

  -- Step 1: the overhead, as gas of the call and from Rex3 on as compute gas.
  unfoldable pub charge_overhead : KeylessCall → Host → Option (Host × Charged R)
  unfolding is_enabled make_halt refuse_compute_gas record_compute_gas ComputeGas.check_limit
  charge_overhead call h =
      let gas = new_gas call.gas_limit in
      elim (record_cost keyless_deploy_overhead_gas gas) [
        | none ↦ some (h, Charged.refused (make_halt call.return_memory_offset gas))
        | some left ↦
            if is_enabled h.spec MegaSpecId.rex3
            then (do
              (within, limit) ← record_compute_gas keyless_deploy_overhead_gas h.additional_limit
              let h' = record h { additional_limit = limit }
              (if within then some (h', Charged.charged left) else (do
                check ← ComputeGas.check_limit limit.compute_gas
                result ← refuse_compute_gas call.return_memory_offset left check
                some (h', Charged.refused result))))
            else some (h, Charged.charged left)
      ]

  -- `gas_limit_override.try_into().unwrap_or(u64::MAX)`.
  abbrev pub saturate : ℕ → ℕ
  saturate n = if ltb u64_max n then u64_max else n

  -- Step 7: no code at the address of the deployment in the database.
  unfoldable pub check_no_code : Address → Host → Keyless R Bool
  check_no_code deploy_address h = or_internal O (h.database.basic deploy_address) =>> λ found.
      elim found [
        | none ↦ DbResult.ok true
        | some info ↦
            ensure (info.code_hash == h.database.keccak_empty)
              KeylessDeployError.contract_already_exists
      ]

  -- Steps 2 to 7: the sandbox's transaction and the address of the deployment.
  unfoldable pub accept_keyless_deploy :
      KeylessCall → Bytes → ℕ → Host → Keyless R (SandboxTx R × Address)
  unfolding decode_keyless_tx recover_signer calculate_keyless_deploy_address get_account_nonce
      check_no_code
  accept_keyless_deploy call tx_bytes gas_limit_override h =
      ensure (call.value == 0) KeylessDeployError.no_ether_transfer =>> λ _.
      decode_keyless_tx O tx_bytes =>> λ tx.
      ensure (tx.nonce == 0) (KeylessDeployError.non_zero_tx_nonce tx.nonce) =>> λ _.
      ensure (not (ltb (saturate gas_limit_override) tx.gas_limit))
        (KeylessDeployError.gas_limit_too_low tx.gas_limit (saturate gas_limit_override))
      =>> λ _. recover_signer O tx =>> λ signer. get_account_nonce O signer h =>> λ signer_nonce.
          ensure (not (ltb 1 signer_nonce)) (KeylessDeployError.signer_nonce_too_high signer_nonce)
          =>> λ _. check_no_code (calculate_keyless_deploy_address O signer) h =>> λ _.
              DbResult.ok (
                record {
                  caller = signer;
                  value = tx.value;
                  gas_limit = saturate gas_limit_override;
                  gas_price = tx.gas_price;
                  keyless_tx = tx;
                  enveloped_tx = tx_bytes;
                },
                calculate_keyless_deploy_address O signer,
              )

  unfoldable pub apply_sandbox_state : EvmState AccountInfo → Host → Option Host
  unfolding merge_evm_state_optional_status
  apply_sandbox_state state h = do
    merged ← merge_evm_state_optional_status default_account false h.state state
    some (record h { state = merged })

  -- The gas used that an error of an execution names.
  unfoldable pub error_gas_used : KeylessDeployError R → ℕ
  error_gas_used (KeylessDeployError.execution_reverted gas_used _) = gas_used
  error_gas_used (KeylessDeployError.execution_halted gas_used _) = gas_used
  error_gas_used (KeylessDeployError.empty_code_deployed gas_used) = gas_used
  error_gas_used _ = 0

  -- `make_success!` and `make_execution_failure!`.
  unfoldable pub make_return : ℕ × ℕ → Gas → ℕ → Address → Bytes → FrameResult R
  make_return range gas gas_used address error_data =
      FrameResult.call_result
        (record { result = return_; output = encode_return gas_used address error_data; gas = gas })
        range

  -- Step 8.
  unfoldable pub finish_keyless_deploy :
      ℕ × ℕ → Gas → Address → Keyless R (SandboxOutcome R) → Host → Option (Host × FrameResult R)
  unfolding apply_sandbox_state error_gas_used make_return make_error encode_error_result
  finish_keyless_deploy range gas deploy_address (DbResult.err e) h =
      some (h, make_error range gas e)
  finish_keyless_deploy range gas deploy_address
        (DbResult.ok (SandboxOutcome.success state gas_used created logs)) h =
      do
        h' ← apply_sandbox_state state h
        (if created == deploy_address
            then some (
              record h' { logs = h'.logs ++ logs },
              make_return range gas gas_used created no_bytes,
            )
            else some (h', make_error range gas KeylessDeployError.address_mismatch))
  finish_keyless_deploy range gas deploy_address (DbResult.ok (SandboxOutcome.failure state error))
        h =
      do
        h' ← apply_sandbox_state state h
        some (h', make_return range gas (error_gas_used error) 0 (encode_error_result abi error))

  -- The call after its overhead.
  unfoldable pub run_keyless_deploy :
      KeylessCall → Bytes → ℕ → Gas → Host → Option (Host × FrameResult R)
  unfolding accept_keyless_deploy make_error execute_keyless_deploy_sandbox finish_keyless_deploy
  run_keyless_deploy call tx_bytes gas_limit_override gas h =
      elim (accept_keyless_deploy call tx_bytes gas_limit_override h) [
        | DbResult.err e ↦ some (h, make_error call.return_memory_offset gas e)
        | DbResult.ok (tx, deploy_address) ↦
            finish_keyless_deploy call.return_memory_offset gas deploy_address
              (execute_keyless_deploy_sandbox O tx h) h
      ]

  unfoldable pub execute_keyless_deploy_call :
      KeylessCall → Bytes → ℕ → Host → Option (Host × FrameResult R)
  unfolding charge_overhead run_keyless_deploy
  execute_keyless_deploy_call call tx_bytes gas_limit_override h = do
    (h', answer) ← charge_overhead call h
    elim answer [
      | Charged.refused result ↦ some (h', result)
      | Charged.charged gas ↦ run_keyless_deploy call tx_bytes gas_limit_override gas h'
    ]
