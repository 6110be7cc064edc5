-- ===== src/Limit/Additional/Order.antt =====
-- The order and the memory of `AdditionalLimit.check_limit` in crates/mega-evm/src/limit/limit.rs.
use mega_evm.Prelude.{◌≡◌, some, arith}
use mega_evm.Limit.Check.{LimitCheck}
use mega_evm.Limit.StateGrowth
use mega_evm.Limit.DataSize
use mega_evm.Limit.KvUpdate
use mega_evm.Limit.ComputeGas
use mega_evm.Limit.Additional.{AdditionalLimit, check_limit}

-- The first of the checks that is exceeded.
abbrev pub first_exceeded : LimitCheck → LimitCheck → LimitCheck
first_exceeded LimitCheck.within_limit other = other
first_exceeded (LimitCheck.exceeds_limit k l u f) other = LimitCheck.exceeds_limit k l u f

-- When the four checks return, so does the whole: an exceed that is already known stays, and
-- else the first of data size, KV updates, compute gas and state growth that is exceeded is
-- reported. What is reported is kept, and nothing else of the state changes.
pub check_limit-first_exceeded :
    (a : AdditionalLimit) (d k c s : LimitCheck)
    → DataSize.check_limit a.data_size ≡ some d
    → KvUpdate.check_limit a.kv_update ≡ some k
    → ComputeGas.check_limit a.compute_gas ≡ some c
    → StateGrowth.check_limit a.state_growth ≡ some s
    → let found =
        first_exceeded a.has_exceeded_limit
          (first_exceeded d (first_exceeded k (first_exceeded c s))) in
      check_limit a ≡ some (found, record a { has_exceeded_limit = found })
unfolding check_limit
check_limit-first_exceeded a d k c s hd hk hc hs = rw (hd, hk, hc, hs) (ground arith)
