-- ===== src/Evm/Instructions/Forward.antt =====
-- `forward_gas_ext` of crates/mega-evm/src/evm/instructions.rs: calls and creates that keep 2% of
-- the gas in the parent frame. `u128` has its wrap-around written out where it subtracts.
pub mod Bounds
use mega_evm.Prelude.{
  ℕ, ◌+◌, ◌-◌, ◌*◌, ◌/◌, ◌%◌, min, Bool, false, not, ◌==◌, if◌then◌else◌, none, some, u64_mod,
  u128_mod,
}
use mega_evm.Evm.Instructions.Machine.{
  Types, Action, Interpreter, Context, Instruction, Vm, run_inner, inspect,
}

-- `a - b` on `u128`.
abbrev pub sub128 : ℕ → ℕ → ℕ
sub128 a b = (a + u128_mod - b) % u128_mod

-- Of the child's gas, the stipend in it and the parent's remaining gas: the gas to return to the
-- parent and the child's new gas.
unfoldable pub cap_forwarded : ℕ → ℕ → ℕ → ℕ × ℕ
cap_forwarded child_gas stipend remaining =
    let forwarded_gas = sub128 child_gas stipend in
    let parent_original_gas_left = remaining + forwarded_gas in
    let forwarded_gas_cap = sub128 parent_original_gas_left (parent_original_gas_left * 2 / 100) in
    let capped_forwarded_gas = min forwarded_gas forwarded_gas_cap in
    let gas_to_return = sub128 forwarded_gas capped_forwarded_gas in
    (gas_to_return % u64_mod, (capped_forwarded_gas + stipend) % u64_mod)

module _ {T : Types} (V : Vm T) where
  open V use {erase_cost, call_stipend}
  open T use {revm}
  open revm use {gas_remaining}

  unfoldable pub check_call_has_transfer : Context T → Bool
  unfolding inspect
  check_call_has_transfer c = elim (inspect 2 c.interpreter.stack) [
    | none ↦ false
    | some value ↦ not (value == 0)
  ]

  unfoldable pub no_transfer : Context T → Bool
  no_transfer c = false

  -- The interpreter once the gas of its new frame is capped.
  unfoldable pub cap_new_frame : ℕ → Interpreter T → Interpreter T
  unfolding cap_forwarded
  cap_new_frame stipend i = elim i.action [
    | some (Action.new_call child_gas inputs) ↦
        let (returned, new_child_gas) = cap_forwarded child_gas stipend (gas_remaining i.gas) in
        record i {
          gas = erase_cost returned i.gas;
          action = some (Action.new_call new_child_gas inputs);
        }
    | some (Action.new_create child_gas inputs) ↦
        let (returned, new_child_gas) = cap_forwarded child_gas 0 (gas_remaining i.gas) in
        record i {
          gas = erase_cost returned i.gas;
          action = some (Action.new_create new_child_gas inputs);
        }
    | _ ↦ i
  ]

  -- `wrap_gas_cap!`.
  unfoldable pub wrap_gas_cap : (Context T → Bool) → Instruction T → Instruction T
  unfolding run_inner cap_new_frame
  wrap_gas_cap has_transfer_logic wrapped c =
      let stipend = if has_transfer_logic c then call_stipend else 0 in
      run_inner V wrapped
        (λ c'. some (record c' { interpreter = cap_new_frame stipend c'.interpreter })) c
