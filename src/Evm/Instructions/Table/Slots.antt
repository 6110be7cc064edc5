-- ===== src/Evm/Instructions/Table/Slots.antt =====
-- SSTORE in the tables of crates/mega-evm/src/evm/instructions.rs.
use mega_evm.Prelude.{ℕ, ◌≡◌, refl, ap, sym, not, ◌∙◌, true, ◌&&◌, false, ◌==◌, some, none}
use mega_evm.Spec.{MegaSpecId, is_enabled}
use mega_evm.Limit.Events.{Address, DbResult}
use mega_evm.External.Gas.{DynamicGasCost}
use mega_evm.Evm.Context.{MegaContext, answer, sstore_set_storage_gas}
use mega_evm.Evm.Instructions.Machine.{
  Types, Interpreter, Context, Instruction, Vm, has_failed, inspect, run_inner, charge, or_fatal,
  with_element,
}
use mega_evm.Evm.Instructions.Machine.Laws.{
  with_element-some, or_fatal-ok, priced_or_fatal-some, charge-none, run_inner-failed,
}
use mega_evm.Evm.Instructions.Compute.{or_halt}
use mega_evm.Limit.Additional.{on_sstore}
use mega_evm.Evm.Instructions.Storage as Storage
use mega_evm.Evm.Instructions.Limited as Limited
use mega_evm.Evm.Instructions.Table.{Opcode, run, step, instruction_table}

module _ {T : Types} (V : Vm T) (original : Opcode → Instruction T) (unknown : Instruction T) where
  -- The look-up of a price changes the host's prices alone.
  answer-keeps :
      (r : DynamicGasCost T.DbError × DbResult T.DbError ℕ) (h host : MegaContext T.DbError)
      (price : ℕ)
      → answer r h ≡ (host, some price)
      → (host.additional_limit ≡ h.additional_limit)
        × (host.volatile_data_tracker ≡ h.volatile_data_tracker)
  answer-keeps (cost, DbResult.ok gas) h host price e =
      (ap (λ p. (p.0).additional_limit) (sym e), ap (λ p. (p.0).volatile_data_tracker) (sym e))
  answer-keeps (cost, DbResult.err _) h host price e = cc

  step-sstore :
      (spec : MegaSpecId) (c : Context T)
      → is_enabled spec MegaSpecId.mini_rex ≡ true
      → step V original unknown spec Opcode.sstore c ≡ Limited.sstore V (original Opcode.sstore) c
  unfolding step run instruction_table is_enabled
  step-sstore MegaSpecId.equivalence c e = cc
  step-sstore MegaSpecId.mini_rex c e = refl
  step-sstore MegaSpecId.rex c e = refl
  step-sstore MegaSpecId.rex1 c e = refl
  step-sstore MegaSpecId.rex2 c e = refl
  step-sstore MegaSpecId.rex3 c e = refl
  step-sstore MegaSpecId.rex4 c e = refl

  -- The price of a slot that goes from zero to a value, which the gas does not cover.
  charge_slot-poor :
      (c : Context T) (target : Address) (index new_value price : ℕ) (next : Instruction T)
      (host : MegaContext T.DbError) (after : Interpreter T)
      → (new_value == 0) ≡ false
      → sstore_set_storage_gas target index c.host ≡ (host, some price)
      → V.record_cost price c.interpreter.gas ≡ none
      → V.halt_oog c.interpreter ≡ some after
      → Storage.charge_slot V target index (not (new_value == 0)) next c
        ≡ some (record c { interpreter = after; host = host })
  unfolding Storage.charge_slot
  charge_slot-poor c target index new_value price next host after sets priced poor oog = rw sets (
      priced_or_fatal-some V _ host price (λ gas. charge V gas next) c priced
      ∙ charge-none V price next (record c { host = host }) after poor oog)

  with_slot-found :
      (next : ℕ → ℕ → ℕ → ℕ → Instruction T) (c : Context T) (index o p new_value : ℕ)
      (journal : T.Journal)
      → inspect 0 c.interpreter.stack ≡ some index
      → inspect 1 c.interpreter.stack ≡ some new_value
      → V.inspect_storage c.host.spec (V.target_address c.interpreter.rest) index c.journal
        ≡ (journal, DbResult.ok (o, p))
      → Storage.with_slot V next c ≡ next index o p new_value (record c { journal = journal })
  unfolding Storage.with_slot
  with_slot-found next c index o p new_value journal slot value look =
      with_element-some V 0 index
        (λ i c'.
          or_fatal V
            (V.inspect_storage c'.host.spec (V.target_address c'.interpreter.rest) i c'.journal)
            (λ (o', p'). with_element V 1 (next i o' p')) c')
        c slot
      ∙ or_fatal-ok V _ journal (o, p) (λ (o', p'). with_element V 1 (next index o' p')) c look
      ∙ with_element-some V 1 new_value (next index o p) (record c { journal = journal }) value

  poor-Storage :
      (c : Context T) (index new_value price : ℕ) (journal : T.Journal)
      (host : MegaContext T.DbError) (after : Interpreter T)
      → inspect 0 c.interpreter.stack ≡ some index
      → inspect 1 c.interpreter.stack ≡ some new_value
      → V.inspect_storage c.host.spec (V.target_address c.interpreter.rest) index c.journal
        ≡ (journal, DbResult.ok (0, 0))
      → (new_value == 0) ≡ false
      → sstore_set_storage_gas (V.target_address c.interpreter.rest) index c.host
        ≡ (host, some price)
      → V.record_cost price c.interpreter.gas ≡ none
      → V.halt_oog c.interpreter ≡ some after
      → Storage.sstore V (original Opcode.sstore) c
        ≡ some (record { interpreter = after; host = host; journal = journal })
  unfolding Storage.sstore
  poor-Storage c index new_value price journal host after slot value look sets priced poor oog =
      let c1 : Context T = record c { journal = journal } in
      with_slot-found
        (λ i o p n c'.
          Storage.charge_slot V (V.target_address c'.interpreter.rest) i
            (o == 0 && p == 0 && not (n == 0)) (Storage.inner_compute V (original Opcode.sstore))
            c')
        c index 0 0 new_value journal slot value look
      ∙ charge_slot-poor c1 (V.target_address c.interpreter.rest) index new_value price
          (Storage.inner_compute V (original Opcode.sstore)) host after sets priced poor oog

  -- From MiniRex on, an SSTORE that sets a slot whose original and present values are zero, whose
  -- storage gas the interpreter's gas does not cover, and revm's halt for that is an error: the
  -- handler returns with that halt. revm's instruction does not run, and neither the trackers nor
  -- the volatile data are touched: the host is as the look-up of the price leaves it.
  pub step-sstore-poor :
      (spec : MegaSpecId) (c : Context T) (index new_value price : ℕ) (journal : T.Journal)
      (host : MegaContext T.DbError) (after : Interpreter T)
      → is_enabled spec MegaSpecId.mini_rex ≡ true
      → inspect 0 c.interpreter.stack ≡ some index
      → inspect 1 c.interpreter.stack ≡ some new_value
      → V.inspect_storage c.host.spec (V.target_address c.interpreter.rest) index c.journal
        ≡ (journal, DbResult.ok (0, 0))
      → V.inspect_storage c.host.spec (V.target_address c.interpreter.rest) index journal
        ≡ (journal, DbResult.ok (0, 0))
      → (new_value == 0) ≡ false
      → sstore_set_storage_gas (V.target_address c.interpreter.rest) index c.host
        ≡ (host, some price)
      → V.record_cost price c.interpreter.gas ≡ none
      → V.halt_oog c.interpreter ≡ some after
      → has_failed V after ≡ true
      → (step V original unknown spec Opcode.sstore c
          ≡ some (record { interpreter = after; host = host; journal = journal }))
        × (host.additional_limit ≡ c.host.additional_limit)
        × (host.volatile_data_tracker ≡ c.host.volatile_data_tracker)
  unfolding Limited.sstore sstore_set_storage_gas
  step-sstore-poor spec c index new_value price journal host after e slot value look again sets
        priced poor oog failed =
      let c1 : Context T = record c { journal = journal } in
      let c2 : Context T = record { interpreter = after; host = host; journal = journal } in
      let ran =
        poor-Storage c1 index new_value price journal host after slot value again sets priced poor
          oog in
      let kept = answer-keeps _ c.host host price priced in
      (
        step-sstore spec c e
            ∙ with_slot-found
                (λ i o p n.
                  run_inner V (Storage.sstore V (original Opcode.sstore))
                    (or_halt V (on_sstore (Limited.loaded_data V o p n))))
                c index 0 0 new_value journal slot value look
            ∙ run_inner-failed V (Storage.sstore V (original Opcode.sstore))
                (or_halt V (on_sstore (Limited.loaded_data V 0 0 new_value))) c1 c2 ran failed,
        kept.0,
        kept.1,
      )
