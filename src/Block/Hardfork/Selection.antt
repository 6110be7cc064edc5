-- ===== src/Block/Hardfork/Selection.antt =====
-- The two selections of crates/mega-evm/src/block/hardfork.rs agree.
use mega_evm.Prelude.{ℕ, ◌≡◌, Bool, Option, none, some, arith}
use mega_evm.Spec.{MegaSpecId}
use mega_evm.Block.Hardfork.{MegaHardfork, spec_id, hardfork, chain_spec_id}

-- The version of the EVM for a block without a hardfork of this chain, and with one.
abbrev pub spec_of : Option MegaHardfork → MegaSpecId
spec_of none = MegaSpecId.equivalence
spec_of (some fork) = spec_id fork

-- At every timestamp and for every activation of the forks, the version of the EVM that the chain
-- selects is that of the hardfork that it selects, and `EQUIVALENCE` where it selects none.
pub chain_spec_id-hardfork :
    (active : MegaHardfork → ℕ → Bool) (timestamp : ℕ)
    → chain_spec_id active timestamp ≡ spec_of (hardfork active timestamp)
unfolding chain_spec_id hardfork spec_id
chain_spec_id-hardfork active timestamp = ground arith
