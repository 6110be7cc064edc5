-- ===== src/Evm/Instructions/Table/Disabled.antt =====
-- Which opcodes the table of REX4 in crates/mega-evm/src/evm/instructions.rs guards against reads of
-- volatile data, and what it does with them while that is disabled.
use mega_evm.Prelude.{◌≡◌, true}
use mega_evm.Access.Volatile.{VolatileDataAccessType}
use mega_evm.Evm.Instructions.Machine.{Types, Context, Vm}
use mega_evm.Evm.Instructions.Volatile.{targets_beneficiary, targets_oracle, sload}
use mega_evm.Evm.Instructions.Table.{CallOp, Opcode}

-- The opcodes of the block's environment, with what they read.
pub data BlockEnv : Opcode → VolatileDataAccessType → Type 0 where
  timestamp : BlockEnv Opcode.timestamp VolatileDataAccessType.timestamp
  number : BlockEnv Opcode.number VolatileDataAccessType.block_number
  coinbase : BlockEnv Opcode.coinbase VolatileDataAccessType.coinbase
  difficulty : BlockEnv Opcode.difficulty VolatileDataAccessType.difficulty
  gaslimit : BlockEnv Opcode.gaslimit VolatileDataAccessType.gas_limit
  basefee : BlockEnv Opcode.basefee VolatileDataAccessType.base_fee
  blockhash : BlockEnv Opcode.blockhash VolatileDataAccessType.block_hash
  blobbasefee : BlockEnv Opcode.blobbasefee VolatileDataAccessType.blob_base_fee
  blobhash : BlockEnv Opcode.blobhash VolatileDataAccessType.blob_hash

-- The opcodes that load the account on the top of the stack.
pub data LoadsAccount : Opcode → Type 0 where
  balance : LoadsAccount Opcode.balance
  extcodesize : LoadsAccount Opcode.extcodesize
  extcodecopy : LoadsAccount Opcode.extcodecopy
  extcodehash : LoadsAccount Opcode.extcodehash

module _ {T : Types} (V : Vm T) where
  -- The opcodes that the table of REX4 guards, with what they are about to read: those of the
  -- block's environment; BALANCE, EXTCODESIZE, EXTCODECOPY, EXTCODEHASH, the four calls and
  -- SELFDESTRUCT if their target is the beneficiary; and SLOAD in the contract of the oracle. Not
  -- guarded is SELFBALANCE, which reads the balance of the running contract.
  pub data IsGuarded (c : Context T) : Opcode → VolatileDataAccessType → Type 0 where
    environment : (op : Opcode) (ty : VolatileDataAccessType) → BlockEnv op ty → IsGuarded c op ty
    account :
        (op : Opcode)
        → LoadsAccount op
        → targets_beneficiary V 0 c ≡ true
        → IsGuarded c op VolatileDataAccessType.beneficiary
    callee :
        (op : CallOp)
        → targets_beneficiary V 1 c ≡ true
        → IsGuarded c (Opcode.call_like op) VolatileDataAccessType.beneficiary
    heir :
        targets_beneficiary V 0 c ≡ true
        → IsGuarded c Opcode.selfdestruct VolatileDataAccessType.beneficiary
    storage : targets_oracle V c ≡ true → IsGuarded c Opcode.sload VolatileDataAccessType.oracle
