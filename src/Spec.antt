-- ===== src/Spec.antt =====
-- crates/mega-evm/src/evm/spec.rs: the versions of the EVM and their order.
pub mod Names
use mega_evm.Prelude.{ℕ, Bool, leb}

pub data MegaSpecId : Type 0 where
  equivalence mini_rex rex rex1 rex2 rex3 rex4 : MegaSpecId

-- `spec as u8`.
abbrev pub discriminant : MegaSpecId → ℕ
discriminant MegaSpecId.equivalence = 0
discriminant MegaSpecId.mini_rex = 1
discriminant MegaSpecId.rex = 2
discriminant MegaSpecId.rex1 = 3
discriminant MegaSpecId.rex2 = 4
discriminant MegaSpecId.rex3 = 5
discriminant MegaSpecId.rex4 = 6

unfoldable pub is_enabled : MegaSpecId → MegaSpecId → Bool
is_enabled spec other = leb (discriminant other) (discriminant spec)
