-- ===== src/Block/Hardfork.antt =====
-- crates/mega-evm/src/block/hardfork.rs: which hardfork and which version of the EVM a timestamp
-- selects. `active` is `mega_fork_activation(fork).active_at_timestamp(timestamp)` of the chain.
pub mod Selection
pub mod Config
use mega_evm.Prelude.{ℕ, Bool, ◌||◌, ◌&&◌, not, ◌==◌, if◌then◌else◌, Option, none, some}
use mega_evm.Spec.{MegaSpecId}

pub data MegaHardfork : Type 0 where
  mini_rex mini_rex1 mini_rex2 rex rex1 rex2 rex3 rex4 : MegaHardfork

-- `MegaHardfork::spec_id`.
unfoldable pub spec_id : MegaHardfork → MegaSpecId
spec_id MegaHardfork.mini_rex = MegaSpecId.mini_rex
spec_id MegaHardfork.mini_rex1 = MegaSpecId.equivalence
spec_id MegaHardfork.mini_rex2 = MegaSpecId.mini_rex
spec_id MegaHardfork.rex = MegaSpecId.rex
spec_id MegaHardfork.rex1 = MegaSpecId.rex1
spec_id MegaHardfork.rex2 = MegaSpecId.rex2
spec_id MegaHardfork.rex3 = MegaSpecId.rex3
spec_id MegaHardfork.rex4 = MegaSpecId.rex4

module _ (active : MegaHardfork → ℕ → Bool) where
  pub first_hardfork_block : MegaHardfork → ℕ → ℕ × ℕ → Bool
  first_hardfork_block fork parent_timestamp (number, timestamp) =
      active fork timestamp && (number == 1 || not (active fork parent_timestamp))

  pub hardfork : ℕ → Option MegaHardfork
  hardfork timestamp =
      if active MegaHardfork.rex4 timestamp
      then some MegaHardfork.rex4
      else if active MegaHardfork.rex3 timestamp
      then some MegaHardfork.rex3
      else if active MegaHardfork.rex2 timestamp
      then some MegaHardfork.rex2
      else if active MegaHardfork.rex1 timestamp
      then some MegaHardfork.rex1
      else if active MegaHardfork.rex timestamp
      then some MegaHardfork.rex
      else if active MegaHardfork.mini_rex2 timestamp
      then some MegaHardfork.mini_rex2
      else if active MegaHardfork.mini_rex1 timestamp
      then some MegaHardfork.mini_rex1
      else if active MegaHardfork.mini_rex timestamp
      then some MegaHardfork.mini_rex
      else none

  -- `MegaHardforks::spec_id`.
  pub chain_spec_id : ℕ → MegaSpecId
  chain_spec_id timestamp =
      if active MegaHardfork.rex4 timestamp
      then MegaSpecId.rex4
      else if active MegaHardfork.rex3 timestamp
      then MegaSpecId.rex3
      else if active MegaHardfork.rex2 timestamp
      then MegaSpecId.rex2
      else if active MegaHardfork.rex1 timestamp
      then MegaSpecId.rex1
      else if active MegaHardfork.rex timestamp
      then MegaSpecId.rex
      else if active MegaHardfork.mini_rex2 timestamp
      then MegaSpecId.mini_rex
      else if active MegaHardfork.mini_rex1 timestamp
      then MegaSpecId.equivalence
      else if active MegaHardfork.mini_rex timestamp
      then MegaSpecId.mini_rex
      else MegaSpecId.equivalence
