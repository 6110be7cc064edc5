-- ===== src/Evm/Instructions/Machine/Laws.antt =====
-- How the checks of crates/mega-evm/src/evm/instructions.rs go on when they pass, and when a charge
-- does not.
use mega_evm.Prelude.{ℕ, ◌≡◌, true, Option, some, none}
use mega_evm.Limit.Events.{DbResult}
use mega_evm.Evm.Context.{MegaContext}
use mega_evm.Evm.Instructions.Machine.{
  Types, Interpreter, Context, Instruction, Vm, has_failed, inspect, run_inner, charge, or_fatal,
  priced_or_fatal, with_element, with_usize,
}

module _ {T : Types} (V : Vm T) where
  pub with_element-some :
      (n x : ℕ) (next : ℕ → Instruction T) (c : Context T)
      → inspect n c.interpreter.stack ≡ some x
      → with_element V n next c ≡ next x c
  unfolding with_element
  with_element-some n x next c found = rw (with_element, found)

  pub with_usize-some :
      (n m : ℕ) (next : ℕ → Instruction T) (c : Context T)
      → V.as_usize n ≡ some m
      → with_usize V n next c ≡ next m c
  unfolding with_usize
  with_usize-some n m next c small = rw (with_usize, small)

  pub or_fatal-ok {ℓ} :
      {A : Type ℓ} (r : T.Journal × DbResult T.DbError A) (journal : T.Journal) (a : A)
      (next : A → Instruction T) (c : Context T)
      → r ≡ (journal, DbResult.ok a)
      → or_fatal V r next c ≡ next a (record c { journal = journal })
  unfolding or_fatal
  or_fatal-ok r journal a next c found = rw found

  pub priced_or_fatal-some :
      (r : MegaContext T.DbError × Option ℕ) (host : MegaContext T.DbError) (gas : ℕ)
      (next : ℕ → Instruction T) (c : Context T)
      → r ≡ (host, some gas)
      → priced_or_fatal V r next c ≡ next gas (record c { host = host })
  unfolding priced_or_fatal
  priced_or_fatal-some r host gas next c priced = rw priced

  pub charge-none :
      (cost : ℕ) (next : Instruction T) (c : Context T) (after : Interpreter T)
      → V.record_cost cost c.interpreter.gas ≡ none
      → V.halt_oog c.interpreter ≡ some after
      → charge V cost next c ≡ some (record c { interpreter = after })
  unfolding charge
  charge-none cost next c after poor oog = rw (charge, poor, oog)

  pub run_inner-failed :
      (inner next : Instruction T) (c c' : Context T)
      → inner c ≡ some c'
      → has_failed V c'.interpreter ≡ true
      → run_inner V inner next c ≡ some c'
  unfolding run_inner
  run_inner-failed inner next c c' ran failed = rw (ran, failed)
