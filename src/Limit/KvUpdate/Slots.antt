-- ===== src/Limit/KvUpdate/Slots.antt =====
-- Runs of writes to one slot, in kv_update.rs.
use mega_evm.Prelude.{
  ℕ, ◌+◌, ◌*◌, ◌<◌, ◌≡◌, refl, ap, ◌∙◌, Bool, not, ◌==◌, List, [], ◌∷◌, arith, u64_mod, length,
}
use mega_evm.Limit.CallFrame.{CallFrameInfo}
use mega_evm.Limit.Events.{SStoreResult, IsFaithful}
use mega_evm.Limit.Entry.{FrameLimitEntry}
use mega_evm.Limit.Frame.Slots.{
  SlotWrites, effect, slot_effects, owed, apply, apply_all, apply_all-Settled,
}
use mega_evm.Limit.KvUpdate.{KvUpdateTracker, after_sstore}

-- `after_sstore` for each write in turn.
abbrev sstores : List SStoreResult → KvUpdateTracker → KvUpdateTracker
sstores [] t = t
sstores (r ∷ rs) t = sstores rs (after_sstore r t)

-- A slot is charged for while it differs from its value at the start of the transaction.
abbrev is_charged : ℕ → ℕ → Bool
is_charged original v = not (original == v)

after_sstore_lem :
    (original : ℕ) (r : SStoreResult) (t : KvUpdateTracker)
    → r.original_value ≡ original
    → IsFaithful r
    → after_sstore r t ≡ record t {
      frame_tracker =
          apply 1
            (effect (is_charged original r.present_value) (is_charged original r.new_value))
            t.frame_tracker;
    }
unfolding after_sstore
after_sstore_lem original r t o f = ground (arith, f.present_iff, f.new_iff)

sstores_lem :
    (original present final : ℕ) (rs : List SStoreResult) (t : KvUpdateTracker)
    → SlotWrites original present rs final
    → sstores rs t ≡ record t {
      frame_tracker = apply_all 1 (slot_effects (is_charged original) present rs) t.frame_tracker;
    }
sstores_lem original present final [] t w = refl
sstores_lem original present final (r ∷ rs) t w =
    ap (sstores rs) (after_sstore_lem original r t w.0 w.2)
    ∙ sstores_lem original r.new_value final rs _ w.3
    ∙ rw w.1

-- A run of writes to one slot in a frame, from the slot's value at the start of the transaction,
-- counts one update in all if the slot ends with another value and none if it ends with that value:
-- the discardable usage less the refund grows by just that. The limit and the persistent usage of
-- the frame, and all else of the tracker, stay.
kv_sstores-net :
    (rex4_enabled : Bool) (original final : ℕ) (rs : List SStoreResult)
    (e : FrameLimitEntry CallFrameInfo) (below : List (FrameLimitEntry CallFrameInfo))
    (tx : FrameLimitEntry (Unit {0}))
    → SlotWrites original original rs final
    → e.discardable_usage + 1 * length rs < u64_mod
    → e.refund + 1 * length rs < u64_mod
    → (e' : FrameLimitEntry _) × (sstores rs (record {
      rex4_enabled = rex4_enabled;
      frame_tracker = record { tx_entry = tx; frame_stack = e ∷ below };
    })
        ≡ record {
          rex4_enabled = rex4_enabled;
          frame_tracker = record { tx_entry = tx; frame_stack = e' ∷ below };
        })
      × (e'.limit ≡ e.limit)
      × (e'.persistent_usage ≡ e.persistent_usage)
      × (e'.discardable_usage + e.refund
          ≡ e.discardable_usage + e'.refund + owed 1 (is_charged original final))
kv_sstores-net rex4_enabled original final rs e below tx w hd hr =
    let (e', run, s) =
      apply_all-Settled 1 (is_charged original) original original final rs e below tx w hd hr in
    let t : KvUpdateTracker = record {
      rex4_enabled = rex4_enabled;
      frame_tracker = record { tx_entry = tx; frame_stack = e ∷ below };
    } in
    (
      e',
      sstores_lem original original final rs t w
          ∙ ap (λ f. record { rex4_enabled = rex4_enabled; frame_tracker = f }) run,
      s.same_limit,
      s.same_persistent,
      grind (arith, s.balance),
    )
