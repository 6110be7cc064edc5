-- ===== src/Evm/Instructions/Table/Calls.antt =====
-- The calls in the tables of crates/mega-evm/src/evm/instructions.rs from REX on.
use mega_evm.Prelude.{
  ℕ, ◌+◌, ◌≤◌, ◌<◌, ◌≡◌, refl, ◌∙◌, true, false, ◌&&◌, if◌then◌else◌, some, u64_mod,
}
use mega_evm.Spec.{MegaSpecId, is_enabled}
use mega_evm.Evm.Instructions.Machine.{
  Types, Action, Interpreter, Context, Instruction, Vm, has_failed,
}
use mega_evm.Evm.Instructions.Forward.{cap_new_frame}
use mega_evm.Evm.Instructions.Forward.Bounds.{
  ErasesCost, IsCapped, cap_new_frame-call, wrap_gas_cap-run,
}
use mega_evm.Evm.Instructions.Volatile.{targets_beneficiary, access_disabled, call_volatile_check}
use mega_evm.Evm.Instructions.Table.{
  CallOp, Opcode, storage_call, transfer_check, call_forwarding, run, step, instruction_table,
}

module _ {T : Types} (V : Vm T) (original : Opcode → Instruction T) (unknown : Instruction T) where
  -- From REX on, a call that is not refused runs its forwarding handler.
  step-call :
      (spec : MegaSpecId) (op : CallOp) (c : Context T)
      → is_enabled spec MegaSpecId.rex ≡ true
      → (targets_beneficiary V 1 c && access_disabled V c) ≡ false
      → step V original unknown spec (Opcode.call_like op) c
        ≡ call_forwarding V original unknown op c
  unfolding step run instruction_table call_volatile_check is_enabled
  step-call MegaSpecId.equivalence op c e free = cc
  step-call MegaSpecId.mini_rex op c e free = cc
  step-call MegaSpecId.rex CallOp.call c e free = refl
  step-call MegaSpecId.rex CallOp.call_code c e free = refl
  step-call MegaSpecId.rex CallOp.delegate_call c e free = refl
  step-call MegaSpecId.rex CallOp.static_call c e free = refl
  step-call MegaSpecId.rex1 CallOp.call c e free = refl
  step-call MegaSpecId.rex1 CallOp.call_code c e free = refl
  step-call MegaSpecId.rex1 CallOp.delegate_call c e free = refl
  step-call MegaSpecId.rex1 CallOp.static_call c e free = refl
  step-call MegaSpecId.rex2 CallOp.call c e free = refl
  step-call MegaSpecId.rex2 CallOp.call_code c e free = refl
  step-call MegaSpecId.rex2 CallOp.delegate_call c e free = refl
  step-call MegaSpecId.rex2 CallOp.static_call c e free = refl
  step-call MegaSpecId.rex3 CallOp.call c e free = refl
  step-call MegaSpecId.rex3 CallOp.call_code c e free = refl
  step-call MegaSpecId.rex3 CallOp.delegate_call c e free = refl
  step-call MegaSpecId.rex3 CallOp.static_call c e free = refl
  step-call MegaSpecId.rex4 op c e free = rw free

  abbrev pub stipend_of : CallOp → Context T → ℕ
  stipend_of op c = if transfer_check V original unknown op c then V.call_stipend else 0

  -- From REX on, a call that is not refused for the disabled beneficiary, whose inner layers ran
  -- without failing and left a new call with its gas and the stipend of a call that sends value:
  -- the handler returns, with all as the inner layers left it but the interpreter's gas and its
  -- action. The child keeps the stipend and gets of the forwarded gas at most what leaves 2% of the
  -- parent's gas; and the gas of parent and child together stays the same.
  pub step-forwards :
      (spec : MegaSpecId) (op : CallOp) (c c' : Context T) (child : ℕ) (inputs : T.Inputs)
      → ErasesCost V
      → is_enabled spec MegaSpecId.rex ≡ true
      → (targets_beneficiary V 1 c && access_disabled V c) ≡ false
      → storage_call V original unknown op c ≡ some c'
      → has_failed V c'.interpreter ≡ false
      → c'.interpreter.action ≡ some (Action.new_call child inputs)
      → stipend_of op c ≤ child
      → T.revm.gas_remaining c'.interpreter.gas + child < u64_mod
      → (after : Interpreter T) × (step V original unknown spec (Opcode.call_like op) c
          ≡ some (record c' { interpreter = after }))
        × IsCapped V (stipend_of op c) child inputs c'.interpreter after
  unfolding call_forwarding
  step-forwards spec op c c' child inputs erases e free ran fine called h bound = (
    cap_new_frame V (stipend_of op c) c'.interpreter,
    step-call spec op c e free
        ∙ wrap_gas_cap-run V (transfer_check V original unknown op)
            (storage_call V original unknown op) c c' ran fine,
    cap_new_frame-call V (stipend_of op c) child inputs c'.interpreter erases called h bound,
  )
