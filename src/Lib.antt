-- ===== src/Lib.antt =====
-- MegaETH EVM (crates/mega-evm): an EVM over revm that meters four more resources of a
-- transaction (data size, key-value updates, compute gas, state growth), limits what is read of
-- volatile data, prices storage by the state's capacity, and limits what a block takes.
--
-- The parts, with the code that each file models:
-- - Spec, Constants: crates/mega-evm/src/evm/spec.rs and crates/mega-evm/src/constants.rs, the
--   versions of the EVM and their numbers.
-- - Limit: the resources of one transaction. Limit/Entry and Limit/Frame are
--   crates/mega-evm/src/limit/frame_limit.rs, a stack of budgets, one for each call frame
--   (`pop_frame` merges a frame into the one below). Limit/DataSize, KvUpdate, StateGrowth and
--   ComputeGas are the four trackers in the files of those names, each over that stack; their
--   operations are the hooks of `TxRuntimeLimit`. Limit/Additional is `AdditionalLimit` of
--   crates/mega-evm/src/limit/limit.rs, which calls the four in turn and turns an exceeded limit
--   into a revert or a halt: Additional/Frames has what happens before a frame starts,
--   Additional/Returns what happens while it runs and when it returns. Limit/RuntimeLimits is
--   crates/mega-evm/src/evm/limit.rs; Limit/Check is crates/mega-evm/src/limit/mod.rs;
--   Limit/Events and Limit/Revm hold what the code reads of revm's values.
-- - Access: crates/mega-evm/src/access/volatile.rs and crates/mega-evm/src/access/tracker.rs,
--   what volatile data was read, the cap on compute gas that follows, and the call depth from
--   which reading is disabled.
-- - External: crates/mega-evm/src/external/gas.rs and crates/mega-evm/src/external/salt.rs,
--   storage gas by the capacity of SALT buckets.
-- - Block: crates/mega-evm/src/block/hardfork.rs (Hardfork/Config has the configuration of a
--   chain), crates/mega-evm/src/block/limit.rs and the limiter's part of
--   crates/mega-evm/src/block/executor.rs.
-- - Evm: crates/mega-evm/src/evm/execution.rs is in three files: Evm/Handler has what is checked
--   and charged before a transaction runs, Evm/Frames the start, run and return of each frame
--   (`frame_init` in Frames/Start, `frame_run` and `frame_return_result` in Frames/Run, and what
--   an inspector watches in Frames/Inspector), in the order in which revm's loop calls them
--   (Frames/Loop), and Evm/Execution the handler round the loop (`execution`,
--   `last_frame_result`, `execution_result`). Evm/Context is of
--   crates/mega-evm/src/evm/context.rs and crates/mega-evm/src/evm/host.rs what each block and
--   transaction resets, and crates/mega-evm/src/system/tx.rs. Evm/Inspect is `JournalInspectTr`
--   of host.rs, the look at accounts through their delegations; Evm/State is
--   crates/mega-evm/src/evm/state.rs, the merge of two states; Evm/HaltReason the conversions of
--   crates/mega-evm/src/evm/result.rs. Evm/Instructions is
--   crates/mega-evm/src/evm/instructions.rs: one file for each layer of a handler (Compute,
--   Storage, Limited, Forward, Volatile), from `compute_gas_ext` outwards, and Table for the
--   handlers of each version; Machine has what they use of revm's interpreter.
-- - System: crates/mega-evm/src/system/intercept.rs, calls of system contracts that are answered
--   without a frame. Sandbox: crates/mega-evm/src/sandbox, the deployment by a transaction
--   without a key: State its database, Execution the run in the sandbox and Call the call that
--   starts it (`execute_keyless_deploy_call`), Error its errors.
-- - Prelude: shared helpers. Tests: the theorems at concrete inputs.
--
-- Conventions. A `u64` is a natural number, with the wrap-around of a release build written out
-- (`add64`, `mul64`, `sub64`); `saturating_sub` is the subtraction that stops at 0. A panic is
-- `none` of `Option`. A `&mut self` method takes the state and returns it. Stacks are lists whose
-- head is the top, but for the interpreter's, whose top is the last element as in revm; hash maps
-- are association lists, and the journal a function of the address. Loops are structural
-- recursion on a list, but for `follow` of Evm/Inspect, which runs on fuel: two rounds for each
-- of the 2^160 addresses are enough, since a round goes to an address that no round before it has
-- visited.
--
-- Types of revm that the code only passes on are fields of the record `Revm`, and the SALT
-- environment is the record `SaltEnv`; the theorems hold for each such record. What revm
-- validates and computes before the handler's own steps is an argument of them. revm's
-- interpreter is the record `Vm`, and its instruction for each opcode an argument of the table;
-- the Solidity bindings are the records `Abi` and `Bindings`. revm's EVM with its stack of frames
-- is the record `Inner`, with what the code relies on of it in `IsRevm`; op-revm's handler is the
-- record `Op`, and the inspector the record `Inspector`. revm's loop over the frames is the
-- relation `Step`. Not modelled: the deployment of the system contracts, the conversions of
-- versions to those of revm, and all input and output, since they are woven into revm. The EVM
-- inside a sandbox is an argument (`transact`).
pub mod Prelude
pub mod Spec
pub mod Constants
pub mod Limit
pub mod Access
pub mod Block
pub mod Evm
pub mod Sandbox
pub mod System
pub mod External
pub mod Tests
