-- ===== src/Evm/Instructions/Forward/Bounds.antt =====
-- The gas that a call or a create forwards, crates/mega-evm/src/evm/instructions.rs.
use mega_evm.Prelude.{
  ℕ, ◌+◌, ◌-◌, ◌*◌, ◌/◌, ◌≤◌, ◌<◌, min, ◌≡◌, ap, Bool, false, if◌then◌else◌, some, arith, u64_mod,
}
use mega_evm.Evm.Instructions.Machine.{
  Types, Action, Interpreter, Context, Instruction, Vm, run_inner, has_failed,
}
use mega_evm.Evm.Instructions.Forward.{cap_forwarded, cap_new_frame, wrap_gas_cap}

-- What a child may get, by the description: the forwarded gas, at most the parent's gas less 2%.
abbrev pub allowed : ℕ → ℕ → ℕ
allowed forwarded remaining =
    let total = remaining + forwarded in min forwarded (total - total * 2 / 100)

cap_forwarded-child :
    (child stipend remaining : ℕ)
    → stipend ≤ child
    → remaining + child < u64_mod
    → (cap_forwarded child stipend remaining).1 ≡ allowed (child - stipend) remaining + stipend
unfolding cap_forwarded
cap_forwarded-child child stipend remaining h bound = omega arith

cap_forwarded-returned :
    (child stipend remaining : ℕ)
    → stipend ≤ child
    → remaining + child < u64_mod
    → (cap_forwarded child stipend remaining).0
      ≡ child - stipend - allowed (child - stipend) remaining
unfolding cap_forwarded
cap_forwarded-returned child stipend remaining h bound = omega arith

-- What revm documents of `Gas::erase_cost`: it gives the gas back.
abbrev pub ErasesCost : {T : Types} → Vm T → Type 0
ErasesCost {T} V =
    (n : ℕ) (g : T.revm.Gas)
    → T.revm.gas_remaining g + n < u64_mod
    → T.revm.gas_remaining (V.erase_cost n g) ≡ T.revm.gas_remaining g + n

module _ {T : Types} (V : Vm T) where
  -- The frame that a new call leaves, once its gas is capped.
  abbrev pub IsCapped : ℕ → ℕ → T.Inputs → Interpreter T → Interpreter T → Type 0
  IsCapped stipend child inputs before after =
      let given = allowed (child - stipend) (T.revm.gas_remaining before.gas) + stipend in
      (after.action ≡ some (Action.new_call given inputs))
      × (T.revm.gas_remaining after.gas + given ≡ T.revm.gas_remaining before.gas + child)

  pub cap_new_frame-call :
      (stipend child : ℕ) (inputs : T.Inputs) (i : Interpreter T)
      → ErasesCost V
      → i.action ≡ some (Action.new_call child inputs)
      → stipend ≤ child
      → T.revm.gas_remaining i.gas + child < u64_mod
      → IsCapped stipend child inputs i (cap_new_frame V stipend i)
  unfolding cap_new_frame
  cap_new_frame-call stipend child inputs i erases called h bound =
      let r = T.revm.gas_remaining i.gas in
      let n = (cap_forwarded child stipend r).0 in
      let given = cap_forwarded-child child stipend r h bound in
      let returned : n ≡ child - stipend - allowed (child - stipend) r =
        cap_forwarded-returned child stipend r h bound in
      let left : T.revm.gas_remaining (V.erase_cost n i.gas) ≡ r + n =
        erases n i.gas (omega arith) in
      let total : T.revm.gas_remaining (V.erase_cost n i.gas)
            + (allowed (child - stipend) r + stipend)
          ≡ r + child =
        omega arith in
      rw called (ap (λ m. some (Action.new_call m inputs)) given, total)

  pub wrap_gas_cap-run :
      (transfers : Context T → Bool) (wrapped : Instruction T) (c c' : Context T)
      → wrapped c ≡ some c'
      → has_failed V c'.interpreter ≡ false
      → wrap_gas_cap V transfers wrapped c
        ≡ some (record c' {
          interpreter = cap_new_frame V (if transfers c then V.call_stipend else 0) c'.interpreter;
        })
  unfolding wrap_gas_cap run_inner
  wrap_gas_cap-run transfers wrapped c c' ran fine = rw (ran, fine)
