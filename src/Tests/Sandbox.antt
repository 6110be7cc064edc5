-- ===== src/Tests/Sandbox.antt =====
-- A keyless deployment by signer 5 at address 705, and one whose data size was exceeded before.
use Prim.Native.String.{String}
use mathlib.Core.Path.{subst}
use mega_evm.Prelude.{ℕ, ◌+◌, ◌-◌, ◌≡◌, refl, true, false, ltb, if◌then◌else◌, none, some, [], ◌∷◌}
use mega_evm.Prelude.Maps.{get}
use mega_evm.Spec.{MegaSpecId, is_enabled}
use mega_evm.Limit.Check.{LimitKind, LimitCheck}
use mega_evm.Limit.Events.{DbResult}
use mega_evm.Limit.Additional.{AdditionalLimit}
use mega_evm.Limit.Frame as Frame
use mega_evm.Limit.ComputeGas as ComputeGas
use mega_evm.Evm.State as Evm
use mega_evm.Evm.State.Merge.{IsEip6780, AllEip6780-nil, AllEip6780-cons}
use mega_evm.Sandbox.State.{AccountInfo}
use mega_evm.Sandbox.Execution.{
  KeylessTx, SandboxTx, Transacted, Outside, Host, SandboxOutcome, ◌=>>◌,
  execute_keyless_deploy_sandbox,
}
use mega_evm.Sandbox.Execution.Call.{
  KeylessCall, Charged, charge_overhead, accept_keyless_deploy, execute_keyless_deploy_call,
}
use mega_evm.Sandbox.Execution.Persists.{
  IsClean, IsEvm, state_of, CreatesAt, Persists, execute_keyless_deploy_call-Persists,
  execute_keyless_deploy_call_panics,
}
use mega_evm.Tests.Evm.{trackers}
use mega_evm.Tests.Instructions.{toy_revm}

abbrev info : ℕ → AccountInfo
info balance = record { balance = balance; nonce = 1; code_hash = 0; code = none }

abbrev plain : ℕ → Evm.Account AccountInfo
plain balance = record {
  info = info balance;
  storage = [];
  status = record {
    created = false;
    created_local = false;
    self_destructed = false;
    self_destructed_local = false;
    touched = true;
    loaded_as_not_existing = false;
    cold = false;
  };
}

-- The signer has paid, and the contract is there.
abbrev deployed : ℕ → Evm.EvmState AccountInfo
deployed caller = (caller, plain 40) ∷ []

abbrev keyless_tx : KeylessTx
keyless_tx = record {
  is_create = true;
  chain_id = none;
  nonce = 0;
  gas_limit = 10;
  gas_price = 2;
  value = 3;
  signer = some 5;
}

abbrev outside : Outside toy_revm
outside = record {
  return_ = 0;
  new_spent = λ limit. 0;
  record_cost = λ cost gas. if ltb gas cost then none else some (gas - cost);
  gas_limit = λ gas. gas;
  rlp_decode_signed = λ bytes. some keyless_tx;
  create_address = λ signer nonce. signer + 700;
  encode_return = λ gas_used address output. gas_used + address + output;
  transact = λ shared db tx. DbResult.ok (
      Transacted.success 20 (some (96 ∷ [], some (tx.caller + 700))) (1 ∷ []) (deployed tx.caller));
  default_account = plain 0;
  abi = record { encode = λ e arguments. 1; decode = λ e output. none; basic_out_of_gas = 0 };
}

plain-IsEip6780 : (balance : ℕ) → IsEip6780 (plain balance)
plain-IsEip6780 balance = record { created = λ h. h; distinct = tt }

deployed-IsClean : (caller : ℕ) → IsClean (deployed caller)
unfolding get
deployed-IsClean caller =
    ((refl, tt), AllEip6780-cons caller (plain 40) [] (plain-IsEip6780 40) (AllEip6780-nil [] refl))

-- The predicate holds of the answer, if there is one.
abbrev Succeeds : (Transacted toy_revm → Type 0) → DbResult String (Transacted toy_revm) → Type 0
Succeeds P (DbResult.ok t) = P t
Succeeds P (DbResult.err e) = Unit

outside-IsEvm : IsEvm outside
outside-IsEvm = record {
  clean = λ shared db tx t e.
      subst (Succeeds (λ t. IsClean (state_of t))) e (deployed-IsClean tx.caller);
  creates_at = λ shared db tx t e. subst (Succeeds (CreatesAt (tx.caller + 700))) e refl;
}

abbrev call : KeylessCall
call = record { gas_limit = 150_000; value = 0; return_memory_offset = (0, 96) }

abbrev host : MegaSpecId → AdditionalLimit → Host
host spec limit = record {
  spec = spec;
  additional_limit = limit;
  state = (5, plain 60) ∷ [];
  database = record {
    basic = λ address. DbResult.ok none;
    storage = λ address index. DbResult.ok 0;
    block_hash = λ number. DbResult.ok 0;
    code_by_hash = λ hash. DbResult.ok [];
    keccak_empty = 0;
  };
  logs = [];
}

abbrev before : Host
before = host MegaSpecId.rex2 (trackers 0)

abbrev sandbox_tx : SandboxTx toy_revm
sandbox_tx = record {
  caller = 5;
  value = 3;
  gas_limit = 20;
  gas_price = 2;
  keyless_tx = keyless_tx;
  enveloped_tx = 9;
}

before-charge : charge_overhead outside call before ≡ some (before, Charged.charged 50_000)
unfolding charge_overhead
before-charge = refl

before-accept : accept_keyless_deploy outside call 9 20 before ≡ DbResult.ok (sandbox_tx, 705)
unfolding accept_keyless_deploy ◌=>>◌
before-accept = refl

before-execute :
    execute_keyless_deploy_sandbox outside sandbox_tx before
    ≡ DbResult.ok (SandboxOutcome.success (deployed 5) 20 705 (1 ∷ []))
unfolding execute_keyless_deploy_sandbox ◌=>>◌
before-execute = refl

execute_keyless_deploy_call-Persists_example :
    Persists outside
      (deployed 5)
      50_000
      (0, 96)
      before
      (execute_keyless_deploy_call outside call 9 20 before)
execute_keyless_deploy_call-Persists_example =
    execute_keyless_deploy_call-Persists outside call 9 20 before before 50_000 sandbox_tx 705
      (SandboxOutcome.success (deployed 5) 20 705 (1 ∷ [])) outside-IsEvm before-charge
      before-accept before-execute

-- The data of the transaction alone is over its limit.
abbrev latched : Host
latched = host MegaSpecId.rex3 (record (trackers 0) {
  has_exceeded_limit = LimitCheck.exceeds_limit LimitKind.data_size 10_000 10_001 false;
})

latched-within :
    ComputeGas.check_limit (ComputeGas.record_gas_used 100_000 latched.additional_limit.compute_gas)
    ≡ some LimitCheck.within_limit
unfolding ComputeGas.check_limit ComputeGas.record_gas_used Frame.net_usage Frame.record_persistent
latched-within = refl

execute_keyless_deploy_call_panics_example :
    execute_keyless_deploy_call outside call 9 20 latched ≡ none
unfolding is_enabled
execute_keyless_deploy_call_panics_example =
    execute_keyless_deploy_call_panics outside call 9 20 latched 50_000 refl refl refl
      latched-within
