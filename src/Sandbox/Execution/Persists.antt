-- ===== src/Sandbox/Execution/Persists.antt =====
-- crates/mega-evm/src/sandbox/execution.rs: what holds after the sandbox of a deployment has run.
use Prim.Native.String.{String}
use mathlib.Core.Path.{subst}
use mega_evm.Prelude.{
  ℕ, ◌≡◌, refl, Bool, true, false, ◌==◌, Option, none, some, [], ◌∷◌, ◌++◌, arith,
}
use mega_evm.Prelude.Maps.{Distinct}
use mega_evm.Spec.{MegaSpecId, is_enabled}
use mega_evm.Limit.Events.{Address, DbResult}
use mega_evm.Limit.Revm.{Revm, InterpreterResult, FrameResult}
use mega_evm.Constants.Rex2.{keyless_deploy_overhead_gas}
use mega_evm.Limit.Check.{LimitCheck, exceeded_limit}
use mega_evm.Limit.ComputeGas as ComputeGas
use mega_evm.Limit.Additional as Additional
use mega_evm.Limit.Additional.{AdditionalLimit, record_compute_gas}
use mega_evm.Evm.State.{EvmState, merge_evm_state_optional_status}
use mega_evm.Evm.State.Merge.{AllEip6780, merge_evm_state-get}
use mega_evm.Sandbox.Error.{encode_error_result}
use mega_evm.Sandbox.State.{AccountInfo, SandboxDb}
use mega_evm.Sandbox.Execution.{
  SandboxTx, Transacted, Outside, Host, Keyless, ◌=>>◌, SandboxOutcome,
  process_sandbox_transact_result, execute_keyless_deploy_sandbox, calculate_keyless_deploy_address,
}
use mega_evm.Sandbox.Execution.Call.{
  KeylessCall, Charged, error_gas_used, refuse_compute_gas, make_return, charge_overhead,
  accept_keyless_deploy, apply_sandbox_state, finish_keyless_deploy, run_keyless_deploy,
  execute_keyless_deploy_call,
}

-- The predicate holds of the value, if there is one.
unfoldable pub Holds {ℓ κ} : {R : Revm} {A : Type ℓ} → (A → Type κ) → Keyless R A → Type κ
Holds P (DbResult.ok a) = P a
Holds P (DbResult.err e) = Unit

Holds-bind {ℓ κ μ} :
    {R : Revm} {A : Type ℓ} {B : Type κ} (P : B → Type μ) (r : Keyless R A) (f : A → Keyless R B)
    → ((a : A) → Holds P (f a))
    → Holds P (r =>> f)
unfolding ◌=>>◌ Holds
Holds-bind P (DbResult.ok a) f h = h a
Holds-bind P (DbResult.err e) f h = tt

Holds-ok {ℓ κ} :
    (R : Revm) {A : Type ℓ} (P : A → Type κ) (a : A) → P a → Holds {R = R} P (DbResult.ok a)
unfolding Holds
Holds-ok R P a p = p

Holds-value {ℓ κ} :
    {R : Revm} {A : Type ℓ} (P : A → Type κ) (r : Keyless R A) (a : A)
    → Holds P r
    → r ≡ DbResult.ok a
    → P a
unfolding Holds
Holds-value P r a p e = subst (Holds P) e p

-- The state that an execution leaves.
abbrev pub state_of : {R : Revm} → Transacted R → EvmState AccountInfo
state_of (Transacted.success _ _ _ state) = state
state_of (Transacted.reverted _ _ state) = state
state_of (Transacted.halted _ _ state) = state

-- Each account and slot once, and what self-destructs was created in the same transaction.
abbrev pub IsClean : EvmState AccountInfo → Type 0
IsClean state = Distinct state × AllEip6780 state

-- The address of a created contract is that of the caller at nonce 0, which the sandbox shows.
abbrev pub CreatesAt : {R : Revm} → Address → Transacted R → Type 0
CreatesAt address (Transacted.success _ (some (_, some created)) _ _) = created ≡ address
CreatesAt address _ = Unit

-- What revm guarantees of a transaction's execution.
pub record IsEvm {R : Revm} (O : Outside R) : Type 0 where
  pub clean :
      (shared : Bool) (db : SandboxDb String) (tx : SandboxTx R) (t : Transacted R)
      → O.transact shared db tx ≡ DbResult.ok t
      → IsClean (state_of t)
  pub creates_at :
      (shared : Bool) (db : SandboxDb String) (tx : SandboxTx R) (t : Transacted R)
      → O.transact shared db tx ≡ DbResult.ok t
      → CreatesAt (O.create_address tx.caller 0) t

abbrev pub outcome_state : {R : Revm} → SandboxOutcome R → EvmState AccountInfo
outcome_state (SandboxOutcome.success state _ _ _) = state
outcome_state (SandboxOutcome.failure state _) = state

abbrev IsDeployedAt : {R : Revm} → Address → SandboxOutcome R → Type 0
IsDeployedAt address (SandboxOutcome.success _ _ created _) = created ≡ address
IsDeployedAt address (SandboxOutcome.failure _ _) = Unit

abbrev IsSound : {R : Revm} → Address → SandboxOutcome R → Type 0
IsSound address outcome = IsClean (outcome_state outcome) × IsDeployedAt address outcome

module _ {R : Revm} (O : Outside R) where
  -- The answer to a call is a return with this gas, in a state that merges this one.
  abbrev pub Persists :
      EvmState AccountInfo → R.Gas → ℕ × ℕ → Host → Option (Host × FrameResult R) → Type 0
  Persists state gas range h answer =
      (h' : Host) × (r : InterpreterResult R) × (answer
        ≡ some (h', FrameResult.call_result r range))
      × (r.result ≡ O.return_)
      × (r.gas ≡ gas)
      × (merge_evm_state_optional_status O.default_account false h.state state ≡ some h'.state)

  process_sandbox_transact_result-IsSound :
      (address : Address) (r : DbResult String (Transacted R))
      → ((t : Transacted R) → r ≡ DbResult.ok t → IsClean (state_of t) × CreatesAt address t)
      → Holds (IsSound address) (process_sandbox_transact_result O r)
  unfolding Holds process_sandbox_transact_result
  process_sandbox_transact_result-IsSound address (DbResult.err e) h = tt
  process_sandbox_transact_result-IsSound address
        (DbResult.ok (Transacted.success g (some ([], some created)) logs state)) h =
      ((h _ refl).0, tt)
  process_sandbox_transact_result-IsSound address
        (DbResult.ok (Transacted.success g (some (byte ∷ code, some created)) logs state)) h =
      h _ refl
  process_sandbox_transact_result-IsSound address
        (DbResult.ok (Transacted.success g (some ([], none)) logs state)) h =
      tt
  process_sandbox_transact_result-IsSound address
        (DbResult.ok (Transacted.success g (some (byte ∷ code, none)) logs state)) h =
      tt
  process_sandbox_transact_result-IsSound address
        (DbResult.ok (Transacted.success g none logs state)) h =
      tt
  process_sandbox_transact_result-IsSound address (DbResult.ok (Transacted.reverted g output state))
        h =
      ((h _ refl).0, tt)
  process_sandbox_transact_result-IsSound address (DbResult.ok (Transacted.halted g reason state))
        h =
      ((h _ refl).0, tt)

  execute_keyless_deploy_sandbox-IsSound :
      (tx : SandboxTx R) (h : Host)
      → IsEvm O
      → Holds (IsSound (O.create_address tx.caller 0)) (execute_keyless_deploy_sandbox O tx h)
  unfolding execute_keyless_deploy_sandbox
  execute_keyless_deploy_sandbox-IsSound tx h evm = Holds-bind _ _ _ λ account.
      Holds-bind _ _ _ λ cost. Holds-bind _ _ _ λ _.
        process_sandbox_transact_result-IsSound _ _
          λ t e. (evm.clean _ _ tx t e, evm.creates_at _ _ tx t e)

  accept_keyless_deploy-deploys :
      (call : KeylessCall) (bytes : R.Bytes) (gas_limit_override : ℕ) (h : Host)
      → Holds
          (λ (tx, deploy_address). deploy_address ≡ O.create_address tx.caller 0)
          (accept_keyless_deploy O call bytes gas_limit_override h)
  unfolding accept_keyless_deploy calculate_keyless_deploy_address
  accept_keyless_deploy-deploys call bytes gas_limit_override h = Holds-bind _ _ _ λ _.
      Holds-bind _ _ _ λ tx. Holds-bind _ _ _ λ _. Holds-bind _ _ _ λ _. Holds-bind _ _ _ λ signer.
        Holds-bind _ _ _ λ nonce. Holds-bind _ _ _ λ _. Holds-bind _ _ _ λ _. Holds-ok _ _ _ refl

  finish_keyless_deploy-Persists :
      (range : ℕ × ℕ) (gas : R.Gas) (deploy_address : Address) (outcome : SandboxOutcome R)
      (h : Host)
      → IsSound deploy_address outcome
      → Persists
          (outcome_state outcome)
          gas
          range
          h
          (finish_keyless_deploy O range gas deploy_address (DbResult.ok outcome) h)
  unfolding finish_keyless_deploy apply_sandbox_state make_return
  finish_keyless_deploy-Persists range gas deploy_address
        (SandboxOutcome.success state gas_used created logs) h ((distinct, eip6780), e) =
      let (m, returns, _) =
        merge_evm_state-get O.default_account false h.state state distinct eip6780 in
      let same : (created == deploy_address) ≡ true = ground arith in
      (
        record h { state = m; logs = h.logs ++ logs },
        record {
          result = O.return_;
          output = O.encode_return gas_used created R.no_bytes;
          gas = gas;
        },
        rw (returns, same),
        refl,
        refl,
        returns,
      )
  finish_keyless_deploy-Persists range gas deploy_address (SandboxOutcome.failure state error) h
        ((distinct, eip6780), _) =
      let (m, returns, _) =
        merge_evm_state-get O.default_account false h.state state distinct eip6780 in
      let output = O.encode_return (error_gas_used O error) 0 (encode_error_result O.abi error) in
      (
        record h { state = m },
        record { result = O.return_; output = output; gas = gas },
        rw returns,
        refl,
        refl,
        returns,
      )

  run_keyless_deploy-Persists :
      (call : KeylessCall) (bytes : R.Bytes) (gas_limit_override : ℕ) (h : Host) (gas : R.Gas)
      (tx : SandboxTx R) (deploy_address : Address) (outcome : SandboxOutcome R)
      → IsEvm O
      → accept_keyless_deploy O call bytes gas_limit_override h ≡ DbResult.ok (tx, deploy_address)
      → execute_keyless_deploy_sandbox O tx h ≡ DbResult.ok outcome
      → Persists
          (outcome_state outcome)
          gas
          call.return_memory_offset
          h
          (run_keyless_deploy O call bytes gas_limit_override gas h)
  unfolding run_keyless_deploy
  run_keyless_deploy-Persists call bytes gas_limit_override h gas tx deploy_address outcome evm
        accepts runs =
      let deploys : deploy_address ≡ O.create_address tx.caller 0 =
        Holds-value _ _ _ (accept_keyless_deploy-deploys call bytes gas_limit_override h) accepts in
      let sound : IsSound deploy_address outcome =
        rw deploys (Holds-value _ _ _ (execute_keyless_deploy_sandbox-IsSound tx h evm) runs) in
      rw (run_keyless_deploy, accepts, runs)
        (finish_keyless_deploy-Persists call.return_memory_offset gas deploy_address outcome h
          sound)

  -- If revm's executions leave states that obey EIP-6780 with each account and slot once, and create
  -- a contract at the address of the caller at nonce 0: once the overhead is charged, the checks before the
  -- sandbox pass, and the sandbox has run to an outcome, a success or a failure, the call returns
  -- rather than reverts, with the gas that the overhead left, and the sandbox's state is merged.
  pub execute_keyless_deploy_call-Persists :
      (call : KeylessCall) (bytes : R.Bytes) (gas_limit_override : ℕ) (h h' : Host) (gas : R.Gas)
      (tx : SandboxTx R) (deploy_address : Address) (outcome : SandboxOutcome R)
      → IsEvm O
      → charge_overhead O call h ≡ some (h', Charged.charged gas)
      → accept_keyless_deploy O call bytes gas_limit_override h' ≡ DbResult.ok (tx, deploy_address)
      → execute_keyless_deploy_sandbox O tx h' ≡ DbResult.ok outcome
      → Persists
          (outcome_state outcome)
          gas
          call.return_memory_offset
          h'
          (execute_keyless_deploy_call O call bytes gas_limit_override h)
  unfolding execute_keyless_deploy_call
  execute_keyless_deploy_call-Persists call bytes gas_limit_override h h' gas tx deploy_address
        outcome evm charges accepts runs =
      rw charges (
        run_keyless_deploy-Persists call bytes gas_limit_override h' gas tx deploy_address outcome
          evm accepts runs)

  record_compute_gas-exceeded_limit :
      (gas : ℕ) (a : AdditionalLimit)
      → exceeded_limit a.has_exceeded_limit ≡ true
      → record_compute_gas gas a
        ≡ some (false, record a { compute_gas = ComputeGas.record_gas_used gas a.compute_gas })
  unfolding record_compute_gas Additional.check_limit
  record_compute_gas-exceeded_limit gas a exceeded =
      rw (record_compute_gas, Additional.check_limit, exceeded, exceeded)

  -- From Rex3 on, where a limit was exceeded before the call, and the overhead is paid and leaves
  -- the compute gas within its limit: the call panics, as the code's `unreachable!` is reached.
  pub execute_keyless_deploy_call_panics :
      (call : KeylessCall) (bytes : R.Bytes) (gas_limit_override : ℕ) (h : Host) (gas : R.Gas)
      → is_enabled h.spec MegaSpecId.rex3 ≡ true
      → O.record_cost keyless_deploy_overhead_gas (R.new_gas call.gas_limit) ≡ some gas
      → exceeded_limit h.additional_limit.has_exceeded_limit ≡ true
      → ComputeGas.check_limit
          (ComputeGas.record_gas_used keyless_deploy_overhead_gas h.additional_limit.compute_gas)
        ≡ some LimitCheck.within_limit
      → execute_keyless_deploy_call O call bytes gas_limit_override h ≡ none
  unfolding execute_keyless_deploy_call charge_overhead refuse_compute_gas
  execute_keyless_deploy_call_panics call bytes gas_limit_override h gas rex3 paid exceeded within =
      let records =
        record_compute_gas-exceeded_limit keyless_deploy_overhead_gas h.additional_limit exceeded in
      rw (charge_overhead, paid, rex3, records, within)
