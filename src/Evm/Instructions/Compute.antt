-- ===== src/Evm/Instructions/Compute.antt =====
-- `compute_gas_ext` of crates/mega-evm/src/evm/instructions.rs: each of revm's instructions, with
-- the gas that it uses recorded as compute gas.
use mega_evm.Prelude.{ℕ, ◌-◌, Bool, Option, some, ◌>>=◌, if◌then◌else◌}
use mega_evm.Limit.Additional.{AdditionalLimit, record_compute_gas}
use mega_evm.Limit.Additional.Frames.{exceeding_instruction_result}
use mega_evm.Evm.Instructions.Machine.{
  Types, Action, Interpreter, Instruction, Vm, run_inner, halt_with,
}

module _ {T : Types} (V : Vm T) where
  open T use {revm}
  open revm use {gas_remaining}

  -- The gas limit that an action hands to a new frame.
  unfoldable pub forwarded_gas : Option (Action T) → ℕ
  forwarded_gas (some (Action.new_call gas_limit _)) = gas_limit
  forwarded_gas (some (Action.new_create gas_limit _)) = gas_limit
  forwarded_gas _ = 0

  -- A hook of the additional limit that asks to go on: if not, the interpreter halts.
  unfoldable pub or_halt : (AdditionalLimit → Option (Bool × AdditionalLimit)) → Instruction T
  unfolding exceeding_instruction_result
  or_halt hook c = do
    (within, limit) ← hook c.host.additional_limit
    let c' = record c { host = record (c.host) { additional_limit = limit } }
    (if within then some c' else halt_with V (exceeding_instruction_result T.revm limit) c')

  -- The gas that an instruction used, less what it forwards.
  unfoldable pub gas_used : ℕ → Interpreter T → ℕ
  unfolding forwarded_gas
  gas_used gas_before i = gas_before - gas_remaining i.gas - forwarded_gas i.action

  -- `wrap_op_compute_gas!`.
  unfoldable pub wrap_op_compute_gas : Instruction T → Instruction T
  unfolding run_inner or_halt gas_used
  wrap_op_compute_gas original c =
      run_inner V original
        (λ c'.
          or_halt (record_compute_gas (gas_used (gas_remaining c.interpreter.gas) c'.interpreter))
            c')
        c
