-- ===== src/Access/Tracker/Cap.antt =====
-- The cap on compute gas in crates/mega-evm/src/access/tracker.rs after any accesses.
use mega_evm.Prelude.{
  ℕ, min, ◌≡◌, ◌∙◌, Bool, true, false, ◌||◌, ◌==◌, List, [], ◌∷◌, some, none, arith, Option,
}
use mega_evm.Access.Volatile.{VolatileDataAccessType}
use mega_evm.Access.Tracker.{
  Address, oracle_contract_address, VolatileDataAccessTracker, mark_block_env_accessed,
  mark_beneficiary_balance_accessed, check_and_mark_oracle_access,
}

pub data Access : Type 0 where
  block_env : VolatileDataAccessType → Access
  beneficiary : Access
  call_to : Address → Access

abbrev pub mark : Access → VolatileDataAccessTracker → VolatileDataAccessTracker
mark (block_env ty) t = mark_block_env_accessed ty t
mark beneficiary t = mark_beneficiary_balance_accessed t
mark (call_to address) t = (check_and_mark_oracle_access address t).0

abbrev pub mark_all : List Access → VolatileDataAccessTracker → VolatileDataAccessTracker
mark_all [] t = t
mark_all (a ∷ as') t = mark_all as' (mark a t)

-- Whether an access is to the block environment or the beneficiary, and whether to the oracle.
abbrev pub is_block_access : Access → Bool
is_block_access (block_env _) = true
is_block_access beneficiary = true
is_block_access (call_to _) = false

abbrev pub is_oracle_access : Access → Bool
is_oracle_access (block_env _) = false
is_oracle_access beneficiary = false
is_oracle_access (call_to address) = address == oracle_contract_address

abbrev pub any : (Access → Bool) → List Access → Bool
any p [] = false
any p (a ∷ as') = p a || any p as'

-- The smaller of two caps, where `none` is no cap.
abbrev pub lower : Option ℕ → Option ℕ → Option ℕ
lower none b = b
lower (some a) none = some a
lower (some a) (some b) = some (min a b)

abbrev pub when : Bool → ℕ → Option ℕ
when true cap = some cap
when false cap = none

mark_lem :
    (a : Access) (t : VolatileDataAccessTracker)
    → let t' = mark a t in
      (t'.compute_gas_limit
        ≡ lower t.compute_gas_limit (
            lower
              (when (is_block_access a) t.block_env_access_limit)
              (when (is_oracle_access a) t.oracle_access_limit)))
      × (t'.block_env_access_limit ≡ t.block_env_access_limit)
      × (t'.oracle_access_limit ≡ t.oracle_access_limit)
unfolding mark_block_env_accessed mark_beneficiary_balance_accessed check_and_mark_oracle_access
mark_lem (block_env ty) t = ground arith
mark_lem beneficiary t = ground arith
mark_lem (call_to address) t = ground arith

lower_merge :
    (cap : Option ℕ) (env oracle : ℕ) (a b c d : Bool)
    → lower (lower cap (lower (when a env) (when b oracle))) (lower (when c env) (when d oracle))
      ≡ lower cap (lower (when (a || c) env) (when (b || d) oracle))
lower_merge cap env oracle a b c d = ground arith

-- Whatever accesses are marked and in whatever order, the cap is the least of the cap that was
-- there, the block environment's if any access was to the block environment or the beneficiary,
-- and the oracle's if any was to the oracle contract.
pub mark_all-compute_gas_limit :
    (accesses : List Access) (t : VolatileDataAccessTracker)
    → (mark_all accesses t).compute_gas_limit
      ≡ lower t.compute_gas_limit (
          lower
            (when (any is_block_access accesses) t.block_env_access_limit)
            (when (any is_oracle_access accesses) t.oracle_access_limit))
mark_all-compute_gas_limit [] t = ground arith
mark_all-compute_gas_limit (a ∷ as') t =
    let (cap, env, oracle) = mark_lem a t in
    mark_all-compute_gas_limit as' (mark a t)
    ∙ rw (cap, env, oracle)
        (lower_merge t.compute_gas_limit t.block_env_access_limit t.oracle_access_limit
          (is_block_access a) (is_oracle_access a) (any is_block_access as')
          (any is_oracle_access as'))
