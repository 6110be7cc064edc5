-- ===== src/Evm/Execution/Reasons.antt =====
-- crates/mega-evm/src/evm/execution.rs: the halt reasons that a transaction over a limit is given.
use mega_evm.Prelude.{ℕ, Bool, true, Option, some}
use mega_evm.Limit.Check.{LimitKind}
use mega_evm.Limit.Revm.{Revm}
use mega_evm.Limit.ComputeGas as ComputeGas
use mega_evm.Limit.Additional.{AdditionalLimit}
use mega_evm.Limit.Additional.Frames.{MegaHaltReason}

-- The reason that belongs to a kind of limit.
abbrev pub reason_of : {R : Revm} → LimitKind → ℕ → ℕ → MegaHaltReason R
reason_of LimitKind.data_size limit used = MegaHaltReason.data_limit_exceeded limit used
reason_of LimitKind.kv_update limit used = MegaHaltReason.kv_update_limit_exceeded limit used
reason_of LimitKind.compute_gas limit used = MegaHaltReason.compute_gas_limit_exceeded limit used
reason_of LimitKind.state_growth limit used = MegaHaltReason.state_growth_limit_exceeded limit used

-- The reason that is reported: that gas was detained, if volatile data was read and the compute gas
-- is over the detained limit, which is below the transaction's; else the reason of the limit.
abbrev pub reported :
    {R : Revm} → Option ℕ → Bool → AdditionalLimit → ℕ → MegaHaltReason R → MegaHaltReason R
reported (some access_type) true a used reason =
    MegaHaltReason.volatile_data_access_out_of_gas access_type a.compute_gas.detained_limit used
reported _ _ a used reason = reason
