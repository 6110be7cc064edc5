-- ===== src/Tests/Access.antt =====
-- A frame at depth 3 disables volatile access, its subtree runs, and it returns.
use mega_evm.Prelude.{◌≡◌, refl, true, false, none, List, [], ◌∷◌, arith}
use mega_evm.Access.Volatile.{VolatileDataAccessType}
use mega_evm.Access.Tracker.{
  VolatileDataAccessTracker, oracle_contract_address, disable_access, volatile_access_disabled,
  enable_access, enable_access_if_returning,
}
use mega_evm.Access.Tracker.Disabling.{InSubtree, disable_access-subtree, disable_access-returned}
use mega_evm.Access.Tracker.Cap.{
  Access, mark_all, any, is_block_access, is_oracle_access, lower, when, mark_all-compute_gas_limit,
}

abbrev tracker : VolatileDataAccessTracker
tracker = record {
  volatile_data_accessed = 0;
  compute_gas_limit = none;
  block_env_access_limit = 20_000_000;
  oracle_access_limit = 1_000_000;
  disable_depth = none;
}

-- A child at depth 4 disables too, tries to enable from depth 5, and returns to depth 3.
abbrev after_subtree : VolatileDataAccessTracker
after_subtree =
    enable_access_if_returning 3 (enable_access 5 (disable_access 4 (disable_access 3 tracker))).0

subtree_run : InSubtree 3 (disable_access 3 tracker) after_subtree
subtree_run = InSubtree.disables 4 (omega arith) (
    InSubtree.enables 5 (omega arith)
      (InSubtree.returns 3 (omega arith) (InSubtree.stay after_subtree)))

not_disabled : volatile_access_disabled 2 tracker ≡ false
unfolding volatile_access_disabled
not_disabled = refl

disable_access-subtree_example : volatile_access_disabled 7 after_subtree ≡ true
disable_access-subtree_example =
    disable_access-subtree 3 7 tracker after_subtree subtree_run (omega arith)

disable_access-returned_example :
    volatile_access_disabled 7 (enable_access_if_returning 2 after_subtree) ≡ false
disable_access-returned_example =
    disable_access-returned 2 7 tracker after_subtree not_disabled subtree_run

-- A timestamp, an ordinary call, the oracle and the beneficiary.
abbrev four_accesses : List Access
four_accesses =
    Access.block_env VolatileDataAccessType.timestamp
    ∷ Access.call_to 77
    ∷ Access.call_to oracle_contract_address
    ∷ Access.beneficiary
    ∷ []

mark_all-compute_gas_limit_example :
    (mark_all four_accesses tracker).compute_gas_limit
    ≡ lower tracker.compute_gas_limit (
        lower
          (when (any is_block_access four_accesses) tracker.block_env_access_limit)
          (when (any is_oracle_access four_accesses) tracker.oracle_access_limit))
mark_all-compute_gas_limit_example = mark_all-compute_gas_limit four_accesses tracker
