-- ===== src/Tests/State.antt =====
-- Two accounts that delegate to each other, a merge with a self-destructed account, names of
-- versions, halt reasons, errors of a keyless deployment and calls of the access control contract.
use mega_evm.Prelude.{
  ℕ, ◌*◌, ◌/◌, ◌%◌, ◌≡◌, ◌↔◌, refl, Bool, true, false, ◌==◌, if◌then◌else◌, none, some, [], ◌∷◌,
  arith,
}
use mega_evm.Prelude.Maps.{get, merged, Distinct}
use mega_evm.Spec.{MegaSpecId}
use mega_evm.Spec.Names.{name, from_str, from_str_iff}
use mega_evm.Limit.Events.{DbResult}
use mega_evm.Limit.Additional.Frames.{MegaHaltReason}
use mega_evm.Evm.Inspect.{Address, Account, Bytecode, Database, State, inspect_account_delegated}
use mega_evm.Evm.Inspect.Cold.{WarmsNothing, inspect_account_delegated-cold}
use mega_evm.Evm.State as Evm
use mega_evm.Evm.State.Merge.{
  IsEip6780, AllEip6780, AllEip6780-nil, AllEip6780-cons, cold_after, merge_evm_state-merged,
}
use mega_evm.Evm.HaltReason.{Conversions, IsInverse, from_eth, try_from, try_from_iff}
use mega_evm.Tests.Instructions.{toy_revm}

from_str_iff_example :
    (from_str "MiniRex" ≡ some MegaSpecId.mini_rex) ↔ ("MiniRex" ≡ name MegaSpecId.mini_rex)
from_str_iff_example = from_str_iff "MiniRex" MegaSpecId.mini_rex

abbrev address1 : Address
address1 = record { word = 1; small = omega arith }

abbrev address2 : Address
address2 = record { word = 2; small = omega arith }

abbrev delegating : Address → Account
delegating target = record {
  info = record { nonce = 1; code_hash = 5; code = some (Bytecode.eip7702 target) };
  storage = λ key. none;
  is_cold = false;
}

-- 1 delegates to 2, and 2 to 1.
abbrev cycle : State
cycle = λ n.
    if n == 1
    then some (delegating address2)
    else if n == 2
    then some (delegating address1)
    else none

abbrev empty_account : Account
empty_account = record {
  info = record { nonce = 0; code_hash = 0; code = none };
  storage = λ key. none;
  is_cold = false;
}

abbrev database : Database ℕ
database = record {
  basic = λ address. DbResult.err 4;
  code_by_hash = λ hash. DbResult.ok Bytecode.other;
  storage_value = λ address key. DbResult.ok 0;
  keccak_empty = 0;
  account_of = λ info. record empty_account { info = info };
  new_not_existing = empty_account;
  new_slot = λ value. record { original_value = value; present_value = value; is_cold = false };
}

inspect_account_delegated-cold_example :
    (answer : State × DbResult ℕ Address) × (inspect_account_delegated database MegaSpecId.rex3
        address1 cycle
      ≡ some answer)
    × WarmsNothing cycle (answer.0)
inspect_account_delegated-cold_example =
    inspect_account_delegated-cold database MegaSpecId.rex3 address1 cycle

-- Flags: created, self-destructed, cold.
abbrev status : Bool → Bool → Bool → Evm.AccountStatus
status created destructed cold = record {
  created = created;
  created_local = created;
  self_destructed = destructed;
  self_destructed_local = destructed;
  touched = false;
  loaded_as_not_existing = false;
  cold = cold;
}

abbrev account : Bool → Bool → Bool → Evm.Account ℕ
account created destructed cold = record {
  info = 7;
  storage = (3, record { original_value = 0; present_value = 9; is_cold = false }) ∷ [];
  status = status created destructed cold;
}

abbrev blank : Evm.Account ℕ
blank = record { info = 0; storage = []; status = status false false false }

-- Account 1 is there and is destructed; account 2 is new.
abbrev first : Evm.EvmState ℕ
first = (1, account false false false) ∷ []

abbrev second : Evm.EvmState ℕ
second = (1, account true true false) ∷ (2, account false false false) ∷ []

account-IsEip6780 :
    (created destructed : Bool)
    → (destructed ≡ true → created ≡ true)
    → IsEip6780 (account created destructed false)
unfolding get
account-IsEip6780 created destructed h = record { created = h; distinct = (refl, tt) }

second-Distinct : Distinct second
unfolding get
second-Distinct = (refl, (refl, tt))

second-AllEip6780 : AllEip6780 second
second-AllEip6780 =
    AllEip6780-cons 1 (account true true false) ((2, account false false false) ∷ [])
      (account-IsEip6780 true true (λ h. refl))
      (AllEip6780-cons 2 (account false false false) [] (account-IsEip6780 false false (λ h. h))
        (AllEip6780-nil [] refl))

merge_evm_state-merged_example :
    (result : Evm.EvmState ℕ) × (Evm.merge_evm_state_optional_status blank true first second
      ≡ some result)
    × ((n : ℕ) → get n result ≡ merged (Evm.merge_account blank true) (get n first) (get n second))
    × ((n : ℕ) (found : Evm.Account ℕ)
        → get n result ≡ some found
        → found.status.cold ≡ cold_after blank (get n first))
merge_evm_state-merged_example =
    merge_evm_state-merged blank true first second refl second-Distinct second-AllEip6780

-- A reason of the OP stack is twice one of Ethereum, or 1.
abbrev conversions : Conversions toy_revm
conversions = record {
  EthHaltReason = ℕ;
  op_base = λ n. n * 2;
  op_try_into = λ n. if n % 2 == 0 then DbResult.ok (n / 2) else DbResult.err n;
}

conversions-IsInverse : IsInverse conversions
conversions-IsInverse = record {
  undoes = λ n. ground arith;
  only_base = λ n eth h. ground arith;
  hands_back = λ n back h. ground arith;
}

try_from_iff_example :
    ((try_from conversions (MegaHaltReason.base 8) ≡ DbResult.ok 4)
      ↔ (MegaHaltReason.base 8 ≡ from_eth conversions 4))
    × ((back : MegaHaltReason toy_revm)
        → try_from conversions (MegaHaltReason.base 8) ≡ DbResult.err back
        → back ≡ MegaHaltReason.base 8)
try_from_iff_example = try_from_iff conversions conversions-IsInverse (MegaHaltReason.base 8) 4
