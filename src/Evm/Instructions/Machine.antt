-- ===== src/Evm/Instructions/Machine.antt =====
-- What crates/mega-evm/src/evm/instructions.rs uses of revm's interpreter, and the context that an
-- instruction runs in. `none` as a context is a panic.
pub mod Laws
use mega_evm.Prelude.{
  ℕ, ◌-◌, Bool, false, if◌then◌else◌, leb, Option, none, some, ◌>>=◌, List, [], ◌∷◌, suc, zero,
  length,
}
use mega_evm.Spec.{MegaSpecId}
use mega_evm.Limit.Events.{Address, DbResult}
use mega_evm.Limit.Revm.{Revm}
use mega_evm.Access.Volatile.{VolatileDataAccessType}
use mega_evm.Evm.Context.{MegaContext}

-- Types of revm whose insides the instructions do not look into. `Inputs` is a new frame's inputs
-- without the gas limit; `Rest` the interpreter without its gas, stack and action; `Journal` and
-- `DbError` are the database's side of the host.
pub record Types : Type 1 where
  pub revm : Revm
  pub Inputs : Type 0
  pub Rest : Type 0
  pub Journal : Type 0
  pub DbError : Type 0

-- `InterpreterAction`, with a new frame's gas limit.
pub data Action (T : Types) : Type 0 where
  new_call : ℕ → T.Inputs → Action T
  new_create : ℕ → T.Inputs → Action T
  new_empty : Action T
  return_action : T.revm.InstructionResult → T.revm.Bytes → T.revm.Gas → Action T

-- `Interpreter`. The stack's top is the last element of its data.
pub record Interpreter (T : Types) : Type 0 where
  pub gas : T.revm.Gas
  pub stack : List ℕ
  pub action : Option (Action T)
  pub rest : T.Rest

-- `InstructionContext`.
pub record Context (T : Types) : Type 0 where
  pub interpreter : Interpreter T
  pub host : MegaContext T.DbError
  pub journal : T.Journal

-- An instruction may panic.
abbrev pub Instruction : Types → Type 0
Instruction T = Context T → Option (Context T)

-- revm's functions and constants, and the two inspections of the journal: of an account, its nonce
-- and whether it counts as empty; of a slot, its original and its present value.
pub record Vm (T : Types) : Type 0 where
  pub stack_underflow : T.revm.InstructionResult
  pub fatal_external_error : T.revm.InstructionResult
  pub invalid_operand_oog : T.revm.InstructionResult
  pub is_error : T.revm.InstructionResult → Bool
  pub instruction_result : Action T → Option T.revm.InstructionResult
  pub set_action : Action T → Interpreter T → Option (Interpreter T)
  pub halt : T.revm.InstructionResult → Interpreter T → Option (Interpreter T)
  pub halt_oog : Interpreter T → Option (Interpreter T)
  pub erase_cost : ℕ → T.revm.Gas → T.revm.Gas
  pub record_cost : ℕ → T.revm.Gas → Option T.revm.Gas
  pub as_usize : ℕ → Option ℕ
  pub into_address : ℕ → Address
  pub target_address : T.Rest → Address
  pub memory_slice : ℕ → ℕ → T.Rest → Option T.revm.Bytes
  pub keccak256 : T.revm.Bytes → ℕ
  pub create_address : Address → ℕ → Address
  pub create2_address : Address → ℕ → ℕ → Address
  pub call_stipend : ℕ
  pub log_topic_gas : ℕ
  pub log_data_gas : ℕ
  pub is_original_eq_present : ℕ → ℕ → ℕ → Bool
  pub is_original_eq_new : ℕ → ℕ → ℕ → Bool
  pub disabled_revert_data : VolatileDataAccessType → T.revm.Bytes
  pub depth : T.Journal → ℕ
  pub inspect_account : MegaSpecId → Address → T.Journal → T.Journal × DbResult T.DbError (ℕ × Bool)
  pub inspect_storage :
      MegaSpecId → Address → ℕ → T.Journal → T.Journal × DbResult T.DbError (ℕ × ℕ)

-- The element of a list at an index.
unfoldable pub get_elem? : List ℕ → ℕ → Option ℕ
get_elem? [] _ = none
get_elem? (x ∷ xs) zero = some x
get_elem? (x ∷ xs) (suc n) = get_elem? xs n

-- `StackInspectTr::inspect`.
unfoldable pub inspect : ℕ → List ℕ → Option ℕ
unfolding get_elem?
inspect n data_ = if leb (length data_) n then none else get_elem? data_ (length data_ - 1 - n)

module _ {T : Types} (V : Vm T) where
  open V use {
    is_error, instruction_result, record_cost, halt, halt_oog, as_usize, stack_underflow,
    fatal_external_error, invalid_operand_oog,
  }

  -- Runs a step of the interpreter, and leaves the host as it is.
  abbrev pub on_interpreter :
      (Interpreter T → Option (Interpreter T)) → Context T → Option (Context T)
  on_interpreter step c = do
    interpreter ← step c.interpreter
    some (record c { interpreter = interpreter })

  -- `context.interpreter.halt(result)`.
  abbrev pub halt_with : T.revm.InstructionResult → Instruction T
  halt_with result = on_interpreter (halt result)

  -- `instruction_result().is_some_and(|result| result.is_error())`.
  unfoldable pub has_failed : Interpreter T → Bool
  has_failed i = elim i.action [
    | none ↦ false
    | some a ↦ elim (instruction_result a) [ none ↦ false | some r ↦ is_error r ]
  ]

  -- `run_inner_instruction_or_abort!`, and what comes after it.
  unfoldable pub run_inner : Instruction T → Instruction T → Instruction T
  unfolding has_failed
  run_inner inner next c = do c' ← inner c; (if has_failed c'.interpreter then some c' else next c')

  -- `gas!`, and what comes after it.
  unfoldable pub charge : ℕ → Instruction T → Instruction T
  charge cost next c = elim (record_cost cost c.interpreter.gas) [
    | none ↦ on_interpreter halt_oog c
    | some gas ↦ next (record c { interpreter = record (c.interpreter) { gas = gas } })
  ]

  -- `let Ok(_) = … else { halt(FatalExternalError); return }` on an inspection of the journal: an
  -- error is stashed in the host.
  unfoldable pub or_fatal {ℓ} :
      {A : Type ℓ} → T.Journal × DbResult T.DbError A → (A → Instruction T) → Instruction T
  or_fatal (journal, DbResult.ok a) next c = next a (record c { journal = journal })
  or_fatal (journal, DbResult.err e) next c =
      halt_with fatal_external_error
        (record c { journal = journal; host = record (c.host) { error = some e } })

  -- The same on a price that the host answers.
  unfoldable pub priced_or_fatal :
      MegaContext T.DbError × Option ℕ → (ℕ → Instruction T) → Instruction T
  priced_or_fatal (host, some gas) next c = next gas (record c { host = host })
  priced_or_fatal (host, none) next c = halt_with fatal_external_error (record c { host = host })

  -- `let Some(_) = stack.inspect::<N>() else { halt(StackUnderflow); return }`.
  unfoldable pub with_element : ℕ → (ℕ → Instruction T) → Instruction T
  with_element n next c = elim (inspect n c.interpreter.stack) [
    | none ↦ halt_with stack_underflow c
    | some x ↦ next x c
  ]

  -- `as_usize_or_fail!`, and what comes after it.
  unfoldable pub with_usize : ℕ → (ℕ → Instruction T) → Instruction T
  with_usize n next c = elim (as_usize n) [
    | none ↦ halt_with invalid_operand_oog c
    | some m ↦ next m c
  ]
