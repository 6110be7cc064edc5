-- ===== src/Block/Hardfork/Config.antt =====
-- crates/mega-evm/src/block/hardfork.rs, `MegaHardforkConfig`: the hardforks of a chain, each with
-- its condition. Hardforks of all crates are compared by `name()`; a name is a number here, and the
-- conditions, of another crate, are a type with the two values that the code sets.
pub mod Lookup
use mega_evm.Prelude.{
  ℕ, zero, suc, Bool, not, ◌==◌, if◌then◌else◌, Option, none, some, List, [], ◌∷◌, ◌++◌,
}
use mega_evm.Block.Hardfork.{MegaHardfork}

-- `ForkCondition`: `Never` and `Timestamp(0)` are the values that the configuration writes.
pub record ForkConditions : Type 1 where
  pub ForkCondition : Type 0
  pub never : ForkCondition
  pub from_timestamp_zero : ForkCondition

-- `name()` of the hardforks of this crate; those of others are numbers from 8 on.
abbrev pub name : MegaHardfork → ℕ
name MegaHardfork.mini_rex = 0
name MegaHardfork.mini_rex1 = 1
name MegaHardfork.mini_rex2 = 2
name MegaHardfork.rex = 3
name MegaHardfork.rex1 = 4
name MegaHardfork.rex2 = 5
name MegaHardfork.rex3 = 6
name MegaHardfork.rex4 = 7

-- `option.map(|i| i + 1)` in the search for a position.
next : Option ℕ → Option ℕ
next none = none
next (some i) = some (suc i)

-- `self.hardforks[index] = entry`; the index is one that `position` found.
set_at {ℓ} : {A : Type ℓ} → ℕ → A → List A → List A
set_at i x [] = []
set_at zero x (y ∷ ys) = x ∷ ys
set_at (suc i) x (y ∷ ys) = y ∷ set_at i x ys

module _ (F : ForkConditions) where
  open F use {ForkCondition, never, from_timestamp_zero}

  abbrev pub MegaHardforkConfig : Type 0
  MegaHardforkConfig = List (ℕ × ForkCondition)

  position : ℕ → MegaHardforkConfig → Option ℕ
  unfolding next
  position h [] = none
  position h ((k, _) ∷ rest) = let later = position h rest in if k == h then some 0 else next later

  pub insert : ℕ → ForkCondition → MegaHardforkConfig → MegaHardforkConfig
  unfolding position set_at
  insert h condition config = elim (position h config) [
    | some index ↦ set_at index (h, condition) config
    | none ↦ config ++ ((h, condition) ∷ [])
  ]

  pub get : ℕ → MegaHardforkConfig → Option ForkCondition
  get h [] = none
  get h ((k, condition) ∷ rest) = let later = get h rest in if k == h then some condition else later

  -- `retain`.
  pub without : ℕ → MegaHardforkConfig → MegaHardforkConfig
  without h [] = []
  without h ((k, condition) ∷ rest) =
      let kept = without h rest in if not (k == h) then (k, condition) ∷ kept else kept

  pub mega_fork_activation : MegaHardfork → MegaHardforkConfig → ForkCondition
  unfolding get
  mega_fork_activation fork config = elim (get (name fork) config) [
    | some condition ↦ condition
    | none ↦ never
  ]

  pub with_all_activated : MegaHardforkConfig → MegaHardforkConfig
  unfolding insert
  with_all_activated config = insert (name MegaHardfork.rex4) from_timestamp_zero (
      insert (name MegaHardfork.rex3) from_timestamp_zero (
        insert (name MegaHardfork.rex2) from_timestamp_zero (
          insert (name MegaHardfork.rex1) from_timestamp_zero (
            insert (name MegaHardfork.rex) from_timestamp_zero (
              insert (name MegaHardfork.mini_rex2) from_timestamp_zero (
                insert (name MegaHardfork.mini_rex1) from_timestamp_zero
                  (insert (name MegaHardfork.mini_rex) from_timestamp_zero config)))))))
