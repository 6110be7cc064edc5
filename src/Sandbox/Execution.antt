-- ===== src/Sandbox/Execution.antt =====
-- crates/mega-evm/src/sandbox/execution.rs and tx.rs: a contract deployed by a transaction without
-- a key, as the sandbox runs it.
pub mod Call
pub mod Persists
use Prim.Native.String.{String}
use mega_evm.Prelude.{
  ℕ, ◌+◌, ◌*◌, ◌^◌, Bool, true, false, not, ◌==◌, ltb, if◌then◌else◌, Option, none, some, ◌>>=◌,
  List, [], ◌∷◌, ◌++◌, u64_max, u64_mod,
}
use mega_evm.Prelude.Maps.{get}
use mega_evm.Spec.{MegaSpecId, is_enabled}
use mega_evm.Constants.Rex2.{keyless_deploy_overhead_gas}
use mega_evm.Limit.Check.{LimitCheck, exceeded_limit, is_frame_local}
use mega_evm.Limit.Events.{Address, DbResult}
use mega_evm.Limit.Revm.{Revm, InterpreterResult, FrameResult}
use mega_evm.Limit.Additional.{AdditionalLimit, record_compute_gas}
use mega_evm.Limit.Additional.Frames.{MegaHaltReason, mark_frame_result_as_exceeding_limit}
use mega_evm.Limit.ComputeGas as ComputeGas
use mega_evm.Evm.State.{Account, EvmState, merge_evm_state_optional_status}
use mega_evm.Sandbox.Error.{KeylessDeployError, Abi, encode_error_result}
use mega_evm.Sandbox.State as Sandbox
use mega_evm.Sandbox.State.{AccountInfo, ErasedDatabase, SandboxDb}

-- `Signed<TxLegacy>`, with the answers of its accessors and of the recovery of its signer.
pub record KeylessTx : Type 0 where
  pub is_create : Bool
  pub chain_id : Option ℕ
  pub nonce : ℕ
  pub gas_limit : ℕ
  pub gas_price : ℕ
  pub value : ℕ
  pub signer : Option Address

-- `MegaTransaction` of the sandbox; the data and the envelope are the transaction's bytes.
pub record SandboxTx (R : Revm) : Type 0 where
  pub caller : Address
  pub value : ℕ
  pub gas_limit : ℕ
  pub gas_price : ℕ
  pub keyless_tx : KeylessTx
  pub enveloped_tx : R.Bytes

-- `ExecutionResult` with the state; a create's output has its code and, if it made one, its
-- address. A log is a number.
pub data Transacted (R : Revm) : Type 0 where
  success : ℕ → Option (List ℕ × Option Address) → List ℕ → EvmState AccountInfo → Transacted R
  reverted : ℕ → R.Bytes → EvmState AccountInfo → Transacted R
  halted : ℕ → MegaHaltReason R → EvmState AccountInfo → Transacted R

-- revm, alloy and the bindings, and the EVM of a sandbox, which shares the environments of its
-- parent if the flag is set.
pub record Outside (R : Revm) : Type 0 where
  pub return_ : R.InstructionResult
  pub new_spent : ℕ → R.Gas
  pub record_cost : ℕ → R.Gas → Option R.Gas
  pub gas_limit : R.Gas → ℕ
  pub rlp_decode_signed : R.Bytes → Option KeylessTx
  pub create_address : Address → ℕ → Address
  pub encode_return : ℕ → Address → R.Bytes → R.Bytes
  pub transact : Bool → SandboxDb String → SandboxTx R → DbResult String (Transacted R)
  pub default_account : Account AccountInfo
  pub abi : Abi R

-- What a deployment uses of `MegaContext`.
pub record Host : Type 0 where
  pub spec : MegaSpecId
  pub additional_limit : AdditionalLimit
  pub state : EvmState AccountInfo
  pub database : ErasedDatabase String
  pub logs : List ℕ

-- `Result<A, KeylessDeployError>`.
abbrev pub Keyless {ℓ} : Revm → Type ℓ → Type ℓ
Keyless R A = DbResult (KeylessDeployError R) A

infixl 5 ◌=>>◌
unfoldable pub ◌=>>◌ {ℓ κ} :
    {R : Revm} {A : Type ℓ} {B : Type κ} → Keyless R A → (A → Keyless R B) → Keyless R B
DbResult.ok a =>> f = f a
DbResult.err e =>> f = DbResult.err e

-- `if !test { return Err(error) }`.
abbrev pub ensure : {R : Revm} → Bool → KeylessDeployError R → Keyless R Bool
ensure test error = if test then DbResult.ok true else DbResult.err error

-- `ok_or(error)?`.
abbrev pub ok_or {ℓ} : {R : Revm} {A : Type ℓ} → KeylessDeployError R → Option A → Keyless R A
ok_or error none = DbResult.err error
ok_or error (some a) = DbResult.ok a

-- `SandboxOutcome`, with the fields of `SandboxResult`.
pub data SandboxOutcome (R : Revm) : Type 0 where
  success : EvmState AccountInfo → ℕ → Address → List ℕ → SandboxOutcome R
  failure : EvmState AccountInfo → KeylessDeployError R → SandboxOutcome R

module _ {R : Revm} (O : Outside R) where
  open O use {
    return_, new_spent, record_cost, rlp_decode_signed, create_address, encode_return, transact,
    default_account, abi,
  }
  open R use {Bytes, Gas, revert, out_of_gas, no_bytes, new_gas}

  unfoldable pub decode_keyless_tx : Bytes → Keyless R KeylessTx
  decode_keyless_tx bytes = elim (rlp_decode_signed bytes) [
    | none ↦ DbResult.err KeylessDeployError.malformed_encoding
    | some tx ↦
        if not tx.is_create
        then DbResult.err KeylessDeployError.not_contract_creation
        else elim tx.chain_id [
          | some _ ↦ DbResult.err KeylessDeployError.not_pre_eip155
          | none ↦ DbResult.ok tx
        ]
  ]

  unfoldable pub recover_signer : KeylessTx → Keyless R Address
  recover_signer tx = elim tx.signer [
    | none ↦ DbResult.err KeylessDeployError.invalid_signature
    | some signer ↦ DbResult.ok signer
  ]

  unfoldable pub calculate_keyless_deploy_address : Address → Address
  calculate_keyless_deploy_address signer = create_address signer 0

  -- `.map_err(|e| InternalError(e.to_string()))`.
  abbrev pub or_internal {ℓ} : {A : Type ℓ} → DbResult String A → Keyless R A
  or_internal (DbResult.ok a) = DbResult.ok a
  or_internal (DbResult.err e) = DbResult.err (KeylessDeployError.internal_error e)

  unfoldable pub get_account_nonce : Address → Host → Keyless R ℕ
  unfolding get
  get_account_nonce address h = elim (get address h.state) [
    | some account ↦ DbResult.ok account.info.nonce
    | none ↦ or_internal (h.database.basic address) =>> λ found. elim found [
      | none ↦ DbResult.ok 0
      | some info ↦ DbResult.ok info.nonce
    ]
  ]

  unfoldable pub process_sandbox_transact_result :
      DbResult String (Transacted R) → Keyless R (SandboxOutcome R)
  process_sandbox_transact_result (DbResult.err e) =
      DbResult.err (KeylessDeployError.internal_error e)
  process_sandbox_transact_result
        (DbResult.ok (Transacted.success gas_used (some ([], some created)) logs state)) =
      DbResult.ok (SandboxOutcome.failure state (KeylessDeployError.empty_code_deployed gas_used))
  process_sandbox_transact_result
        (DbResult.ok (Transacted.success gas_used (some (_ ∷ _, some created)) logs state)) =
      DbResult.ok (SandboxOutcome.success state gas_used created logs)
  process_sandbox_transact_result (DbResult.ok (Transacted.success _ _ _ _)) =
      DbResult.err KeylessDeployError.no_contract_created
  process_sandbox_transact_result (DbResult.ok (Transacted.reverted gas_used output state)) =
      DbResult.ok
        (SandboxOutcome.failure state (KeylessDeployError.execution_reverted gas_used output))
  process_sandbox_transact_result (DbResult.ok (Transacted.halted gas_used reason state)) =
      DbResult.ok
        (SandboxOutcome.failure state (KeylessDeployError.execution_halted gas_used reason))

  -- The cost in 256 bits.
  unfoldable pub total_cost : SandboxTx R → Option ℕ
  total_cost tx =
      let cost = tx.gas_limit * tx.gas_price + tx.value in
      if ltb cost (2 ^ 256) then some cost else none

  -- `signer_account.balance`, 0 if there is no account.
  abbrev pub balance_or_zero : Option AccountInfo → ℕ
  balance_or_zero none = 0
  balance_or_zero (some info) = info.balance

  unfoldable pub execute_keyless_deploy_sandbox : SandboxTx R → Host → Keyless R (SandboxOutcome R)
  unfolding Sandbox.new Sandbox.with_nonce_override Sandbox.basic total_cost is_enabled
      process_sandbox_transact_result
  execute_keyless_deploy_sandbox tx h =
      let sandbox_db = Sandbox.with_nonce_override tx.caller (Sandbox.new h.state h.database) in
      or_internal (Sandbox.basic tx.caller sandbox_db) =>> λ account.
      ok_or KeylessDeployError.insufficient_balance (total_cost tx) =>> λ cost.
      ensure (not (ltb (balance_or_zero account) cost)) KeylessDeployError.insufficient_balance
      =>> λ _.
          process_sandbox_transact_result
            (transact (is_enabled h.spec MegaSpecId.rex4) sandbox_db tx)
