-- ===== src/Evm/Instructions/Table.antt =====
-- The tables of crates/mega-evm/src/evm/instructions.rs: the handler of each opcode in each EVM
-- version, and what a handler runs.
pub mod Calls
pub mod Slots
pub mod Disabled
use mega_evm.Prelude.{ℕ, Bool, true, false}
use mega_evm.Spec.{MegaSpecId}
use mega_evm.Access.Volatile.{VolatileDataAccessType}
use mega_evm.Evm.Instructions.Machine.{Types, Context, Instruction, Vm}
use mega_evm.Evm.Instructions.Compute.{wrap_op_compute_gas}
use mega_evm.Evm.Instructions.Storage as Storage
use mega_evm.Evm.Instructions.Limited as Limited
use mega_evm.Evm.Instructions.Forward.{wrap_gas_cap, check_call_has_transfer, no_transfer}
use mega_evm.Evm.Instructions.Volatile as Volatile

pub data CallOp : Type 0 where
  call call_code delegate_call static_call : CallOp

-- The opcodes. A push, a duplicate, a swap and a log have their number, a create whether it is
-- CREATE2; `unassigned` is a byte with no opcode.
pub data Opcode : Type 0 where
  stop add mul sub div sdiv mod_ smod addmod mulmod exp signextend : Opcode
  lt gt slt sgt eq iszero and_ or_ xor not_ byte shl shr sar clz keccak256 : Opcode
  address balance origin caller callvalue calldataload calldatasize calldatacopy : Opcode
  codesize codecopy gasprice extcodesize extcodecopy extcodehash : Opcode
  returndatasize returndatacopy blockhash coinbase timestamp number difficulty : Opcode
  gaslimit chainid selfbalance basefee blobbasefee blobhash : Opcode
  pop mload mstore mstore8 sload sstore jump jumpi pc msize gas jumpdest : Opcode
  tload tstore mcopy : Opcode
  push dup swap log : ℕ → Opcode
  create_like : Bool → Opcode
  call_like : CallOp → Opcode
  invalid return_ revert selfdestruct unassigned : Opcode

-- The handlers, by their outermost layer.
pub data Handler : Type 0 where
  mainnet : Opcode → Handler
  unknown control_invalid : Handler
  compute_gas : Opcode → Handler
  limited_sstore : Handler
  limited_log : ℕ → Handler
  forward_call : CallOp → Handler
  forward_create : Bool → Handler
  volatile_always : VolatileDataAccessType → Opcode → Handler
  volatile_account : Opcode → Handler
  volatile_sload : Handler
  volatile_call : CallOp → Handler

-- `mini_rex::instruction_table`.
unfoldable pub mini_rex : Opcode → Handler
mini_rex Opcode.unassigned = Handler.unknown
mini_rex Opcode.balance = Handler.volatile_account Opcode.balance
mini_rex Opcode.extcodesize = Handler.volatile_account Opcode.extcodesize
mini_rex Opcode.extcodecopy = Handler.volatile_account Opcode.extcodecopy
mini_rex Opcode.extcodehash = Handler.volatile_account Opcode.extcodehash
mini_rex Opcode.blockhash =
    Handler.volatile_always VolatileDataAccessType.block_hash Opcode.blockhash
mini_rex Opcode.coinbase = Handler.volatile_always VolatileDataAccessType.coinbase Opcode.coinbase
mini_rex Opcode.timestamp =
    Handler.volatile_always VolatileDataAccessType.timestamp Opcode.timestamp
mini_rex Opcode.number = Handler.volatile_always VolatileDataAccessType.block_number Opcode.number
mini_rex Opcode.difficulty =
    Handler.volatile_always VolatileDataAccessType.difficulty Opcode.difficulty
mini_rex Opcode.gaslimit = Handler.volatile_always VolatileDataAccessType.gas_limit Opcode.gaslimit
mini_rex Opcode.basefee = Handler.volatile_always VolatileDataAccessType.base_fee Opcode.basefee
mini_rex Opcode.blobbasefee =
    Handler.volatile_always VolatileDataAccessType.blob_base_fee Opcode.blobbasefee
mini_rex Opcode.blobhash = Handler.volatile_always VolatileDataAccessType.blob_hash Opcode.blobhash
mini_rex Opcode.sstore = Handler.limited_sstore
mini_rex (Opcode.log n) = Handler.limited_log n
mini_rex (Opcode.create_like is_create2) = Handler.forward_create is_create2
mini_rex (Opcode.call_like CallOp.call) = Handler.forward_call CallOp.call
mini_rex Opcode.selfdestruct = Handler.control_invalid
mini_rex opcode = Handler.compute_gas opcode

unfoldable pub rex : Opcode → Handler
unfolding mini_rex
rex (Opcode.call_like CallOp.call_code) = Handler.forward_call CallOp.call_code
rex (Opcode.call_like CallOp.delegate_call) = Handler.forward_call CallOp.delegate_call
rex (Opcode.call_like CallOp.static_call) = Handler.forward_call CallOp.static_call
rex opcode = mini_rex opcode

unfoldable pub rex2 : Opcode → Handler
unfolding rex
rex2 Opcode.selfdestruct = Handler.compute_gas Opcode.selfdestruct
rex2 opcode = rex opcode

unfoldable pub rex3 : Opcode → Handler
unfolding rex2
rex3 Opcode.sload = Handler.volatile_sload
rex3 opcode = rex2 opcode

unfoldable pub rex4 : Opcode → Handler
unfolding rex3
rex4 (Opcode.call_like op) = Handler.volatile_call op
rex4 Opcode.selfdestruct = Handler.volatile_account Opcode.selfdestruct
rex4 opcode = rex3 opcode

-- `MegaInstructions::new`.
unfoldable pub instruction_table : MegaSpecId → Opcode → Handler
unfolding mini_rex rex rex2 rex3 rex4
instruction_table MegaSpecId.equivalence = Handler.mainnet
instruction_table MegaSpecId.mini_rex = mini_rex
instruction_table MegaSpecId.rex = rex
instruction_table MegaSpecId.rex1 = rex
instruction_table MegaSpecId.rex2 = rex2
instruction_table MegaSpecId.rex3 = rex3
instruction_table MegaSpecId.rex4 = rex4

-- What a handler runs, given revm's instruction for each opcode and for a byte that is none.
module _ {T : Types} (V : Vm T) (original : Opcode → Instruction T) (unknown : Instruction T) where
  -- The calls of `storage_gas_ext`; the Boolean is the macro's `has_transfer_logic`.
  unfoldable pub storage_call : CallOp → Instruction T
  unfolding Storage.wrap_call_with_storage_gas
  storage_call CallOp.call =
      Storage.wrap_call_with_storage_gas V true (original (Opcode.call_like CallOp.call))
  storage_call CallOp.call_code =
      Storage.wrap_call_with_storage_gas V true (original (Opcode.call_like CallOp.call_code))
  storage_call CallOp.delegate_call =
      Storage.wrap_call_with_storage_gas V false (original (Opcode.call_like CallOp.delegate_call))
  storage_call CallOp.static_call =
      Storage.wrap_call_with_storage_gas V false (original (Opcode.call_like CallOp.static_call))

  -- The calls and creates of `forward_gas_ext`.
  unfoldable pub transfer_check : CallOp → Context T → Bool
  unfolding check_call_has_transfer no_transfer
  transfer_check CallOp.call = check_call_has_transfer V
  transfer_check CallOp.call_code = check_call_has_transfer V
  transfer_check CallOp.delegate_call = no_transfer V
  transfer_check CallOp.static_call = no_transfer V

  unfoldable pub call_forwarding : CallOp → Instruction T
  unfolding transfer_check wrap_gas_cap storage_call
  call_forwarding op = wrap_gas_cap V (transfer_check op) (storage_call op)

  unfoldable pub create_forwarding : Bool → Instruction T
  unfolding wrap_gas_cap no_transfer Storage.create
  create_forwarding is_create2 =
      wrap_gas_cap V (no_transfer V)
        (Storage.create V is_create2 (original (Opcode.create_like is_create2)))

  unfoldable pub run : Handler → Instruction T
  unfolding call_forwarding create_forwarding wrap_op_compute_gas Limited.sstore Limited.log
      Volatile.detain_gas_unconditional Volatile.detain_gas_conditional Volatile.sload
      Volatile.call_volatile_check
  run (Handler.mainnet opcode) = original opcode
  run Handler.unknown = unknown
  run Handler.control_invalid = original Opcode.invalid
  run (Handler.compute_gas opcode) = wrap_op_compute_gas V (original opcode)
  run Handler.limited_sstore = Limited.sstore V (original Opcode.sstore)
  run (Handler.limited_log n) = Limited.log V n (original (Opcode.log n))
  run (Handler.forward_call op) = call_forwarding op
  run (Handler.forward_create is_create2) = create_forwarding is_create2
  run (Handler.volatile_always access_type opcode) =
      Volatile.detain_gas_unconditional V access_type (original opcode)
  run (Handler.volatile_account opcode) = Volatile.detain_gas_conditional V (original opcode)
  run Handler.volatile_sload = Volatile.sload V (original Opcode.sload)
  run (Handler.volatile_call op) = Volatile.call_volatile_check V (call_forwarding op)

  -- The instruction at an opcode.
  unfoldable pub step : MegaSpecId → Opcode → Instruction T
  unfolding run instruction_table
  step spec opcode = run (instruction_table spec opcode)
