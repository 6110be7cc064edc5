-- ===== src/Limit/Frame/Slots.antt =====
-- What a run of writes to one storage slot leaves in the counters of the top frame, for the
-- trackers of crates/mega-evm/src/limit, which each charge a slot once and refund it once.
use mega_evm.Prelude.{
  ℕ, ◌+◌, ◌*◌, ◌<◌, ◌≡◌, refl, ap, ◌∙◌, Bool, true, false, List, [], ◌∷◌, arith, u64_mod, length,
}
use mega_evm.Limit.Events.{SStoreResult, IsFaithful}
use mega_evm.Limit.Entry.{FrameLimitEntry}
use mega_evm.Limit.Frame.{FrameLimitTracker, record_discardable, record_refund}

-- A run of writes to a slot: each starts from the value that the last one left.
abbrev pub SlotWrites : ℕ → ℕ → List SStoreResult → ℕ → Type 0
SlotWrites original present [] final = present ≡ final
SlotWrites original present (r ∷ rs) final =
    (r.original_value ≡ original)
    × (r.present_value ≡ present)
    × IsFaithful r
    × SlotWrites original r.new_value rs final

pub data Effect : Type 0 where
  charge repay keep : Effect

-- A write charges a slot that becomes owed, repays one that no longer is, and else does nothing.
abbrev pub effect : Bool → Bool → Effect
effect false true = charge
effect true false = repay
effect false false = keep
effect true true = keep

abbrev pub owed : ℕ → Bool → ℕ
owed unit true = unit
owed unit false = 0

module _ {ℓ} {I : Type ℓ} where
  abbrev pub apply : ℕ → Effect → FrameLimitTracker I → FrameLimitTracker I
  apply unit charge t = record_discardable unit t
  apply unit repay t = record_refund unit t
  apply unit keep t = t

  abbrev pub apply_all : ℕ → List Effect → FrameLimitTracker I → FrameLimitTracker I
  apply_all unit [] t = t
  apply_all unit (x ∷ xs) t = apply_all unit xs (apply unit x t)

  -- The counters of `e'` are those of `e` but for what the slot owes before and after.
  pub record Settled (unit : ℕ) (before after : Bool) (e e' : FrameLimitEntry I) : Type 0 where
    pub same_limit : e'.limit ≡ e.limit
    pub same_persistent : e'.persistent_usage ≡ e.persistent_usage
    pub balance :
        e'.discardable_usage + e.refund + owed unit before
        ≡ e.discardable_usage + e'.refund + owed unit after

  apply-Settled :
      (unit : ℕ) (before after : Bool) (e : FrameLimitEntry I) (below : List (FrameLimitEntry I))
      (tx : FrameLimitEntry (Unit {0}))
      → e.discardable_usage + unit < u64_mod
      → e.refund + unit < u64_mod
      → (e' : FrameLimitEntry I) × (apply unit
            (effect before after)
            (record { tx_entry = tx; frame_stack = e ∷ below })
          ≡ record { tx_entry = tx; frame_stack = e' ∷ below })
        × Settled unit before after e e'
        × (e'.discardable_usage < e.discardable_usage + unit + 1)
        × (e'.refund < e.refund + unit + 1)
  unfolding record_discardable record_refund
  apply-Settled unit true true e below tx hd hr = (e, refl, omega arith, omega arith, omega arith)
  apply-Settled unit false false e below tx hd hr = (e, refl, omega arith, omega arith, omega arith)
  apply-Settled unit false true e below tx hd hr = (_, refl, omega arith, omega arith, omega arith)
  apply-Settled unit true false e below tx hd hr = (_, refl, omega arith, omega arith, omega arith)

-- The effects of a run of writes, for a tracker to which `is_owed v` says that a slot holding `v`
-- is charged for.
abbrev pub slot_effects : (ℕ → Bool) → ℕ → List SStoreResult → List Effect
slot_effects is_owed present [] = []
slot_effects is_owed present (r ∷ rs) =
    effect (is_owed present) (is_owed r.new_value) ∷ slot_effects is_owed r.new_value rs

module _ {ℓ} {I : Type ℓ} where
  Settled-trans :
      (unit : ℕ) (a b c : Bool) (e e' e'' : FrameLimitEntry I)
      → Settled unit a b e e'
      → Settled unit b c e' e''
      → Settled unit a c e e''
  Settled-trans unit a b c e e' e'' h k = record {
    same_limit = omega arith;
    same_persistent = omega arith;
    balance = omega arith;
  }

  pub apply_all-Settled :
      (unit : ℕ) (is_owed : ℕ → Bool) (original present final : ℕ) (rs : List SStoreResult)
      (e : FrameLimitEntry I) (below : List (FrameLimitEntry I)) (tx : FrameLimitEntry (Unit {0}))
      → SlotWrites original present rs final
      → e.discardable_usage + unit * length rs < u64_mod
      → e.refund + unit * length rs < u64_mod
      → (e' : FrameLimitEntry I) × (apply_all unit
            (slot_effects is_owed present rs)
            (record { tx_entry = tx; frame_stack = e ∷ below })
          ≡ record { tx_entry = tx; frame_stack = e' ∷ below })
        × Settled unit (is_owed present) (is_owed final) e e'
  apply_all-Settled unit is_owed original present final [] e below tx w hd hr =
      (e, refl, record { same_limit = refl; same_persistent = refl; balance = rw w })
  apply_all-Settled unit is_owed original present final (r ∷ rs) e below tx w hd hr =
      let before = is_owed present in
      let after = is_owed r.new_value in
      let (e', run, s, bd, br) =
        apply-Settled unit before after e below tx (omega arith) (omega arith) in
      let (e'', rest, s') =
        apply_all-Settled unit is_owed original r.new_value final rs e' below tx w.3 (omega arith)
          (omega arith) in
      (
        e'',
        ap (apply_all unit (slot_effects is_owed r.new_value rs)) run ∙ rest,
        Settled-trans unit before after (is_owed final) e e' e'' s s',
      )
