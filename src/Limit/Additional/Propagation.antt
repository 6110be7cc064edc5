-- ===== src/Limit/Additional/Propagation.antt =====
-- How an exceeded limit travels through the hooks of crates/mega-evm/src/limit/limit.rs.
use mega_evm.Prelude.{ℕ, ◌≡◌, Bool, true, false, some, arith}
use mega_evm.Limit.Check.{LimitKind, LimitCheck, as_u8}
use mega_evm.Limit.Revm.{Revm, FrameResult, interpreter_result}
use mega_evm.Limit.Frame.{pop_frame}
use mega_evm.Limit.StateGrowth
use mega_evm.Limit.DataSize
use mega_evm.Limit.KvUpdate
use mega_evm.Limit.ComputeGas
use mega_evm.Limit.Additional.{AdditionalLimit, check_limit}
use mega_evm.Limit.Additional.Frames.{revert_data, mark_frame_result_as_exceeding_limit}
use mega_evm.Limit.Additional.Returns.{before_frame_return_result}

-- Each tracker has a frame to pop.
pub record HasFrames (a : AdditionalLimit) : Type 0 where
  pub growth_active : StateGrowth.has_active_frame a.state_growth ≡ true
  pub data_active : DataSize.has_active_frame a.data_size ≡ true
  pub kv_active : KvUpdate.has_active_frame a.kv_update ≡ true
  pub gas_active : ComputeGas.has_active_frame a.compute_gas ≡ true

pub check_limit_known :
    (a : AdditionalLimit) (k : LimitKind) (l u : ℕ) (f : Bool)
    → a.has_exceeded_limit ≡ LimitCheck.exceeds_limit k l u f
    → check_limit a ≡ some (LimitCheck.exceeds_limit k l u f, a)
unfolding check_limit
check_limit_known a k l u f h = ground arith

pop_growth :
    (last success : Bool) (t : StateGrowth.StateGrowthTracker)
    → StateGrowth.has_active_frame t ≡ true
    → StateGrowth.before_frame_return_result last success t
      ≡ some (record t { frame_tracker = (pop_frame success t.frame_tracker).0 })
unfolding StateGrowth.before_frame_return_result
pop_growth last success t h = ground arith

pop_data :
    (last success : Bool) (t : DataSize.DataSizeTracker)
    → DataSize.has_active_frame t ≡ true
    → DataSize.before_frame_return_result last success t
      ≡ some (record t { frame_tracker = (pop_frame success t.frame_tracker).0 })
unfolding DataSize.before_frame_return_result
pop_data last success t h = ground arith

pop_kv :
    (last success : Bool) (t : KvUpdate.KvUpdateTracker)
    → KvUpdate.has_active_frame t ≡ true
    → KvUpdate.before_frame_return_result last success t
      ≡ some (record t { frame_tracker = (pop_frame success t.frame_tracker).0 })
unfolding KvUpdate.before_frame_return_result
pop_kv last success t h = ground arith

pop_gas :
    (last success : Bool) (t : ComputeGas.ComputeGasTracker)
    → ComputeGas.has_active_frame t ≡ true
    → ComputeGas.before_frame_return_result last success t
      ≡ some (record t { frame_tracker = (pop_frame success t.frame_tracker).0 })
unfolding ComputeGas.before_frame_return_result
pop_gas last success t h = ground arith

-- The state after the four trackers have popped a frame.
abbrev pub popped : Bool → AdditionalLimit → AdditionalLimit
popped success a = record a {
  state_growth = record a.state_growth {
    frame_tracker = (pop_frame success a.state_growth.frame_tracker).0;
  };
  data_size = record a.data_size {
    frame_tracker = (pop_frame success a.data_size.frame_tracker).0;
  };
  kv_update = record a.kv_update {
    frame_tracker = (pop_frame success a.kv_update.frame_tracker).0;
  };
  compute_gas = record a.compute_gas {
    frame_tracker = (pop_frame success a.compute_gas.frame_tracker).0;
  };
}

module _ (R : Revm) where
  open R use {revert, out_of_gas, is_ok, no_bytes, mega_limit_exceeded}

  -- A frame-local exceed ends with its frame, also the top-level one: while every tracker has a
  -- frame, the returning frame is popped from all four, the exceed is forgotten, and the result is
  -- a revert with the kind and the limit as data. The gas, the rescued gas and the address or
  -- memory range stay.
  pub before_frame_return_result-frame_local :
      (last : Bool) (r : FrameResult R) (a : AdditionalLimit) (k : LimitKind) (l u : ℕ)
      → a.has_exceeded_limit ≡ LimitCheck.exceeds_limit k l u true
      → HasFrames a
      → before_frame_return_result R last r a
        ≡ some (
          record (popped (is_ok (interpreter_result r).result) a) {
            has_exceeded_limit = LimitCheck.within_limit;
          },
          mark_frame_result_as_exceeding_limit R revert (mega_limit_exceeded (as_u8 k) l) r,
        )
  unfolding before_frame_return_result revert_data
  before_frame_return_result-frame_local last r a k l u h f =
      let success = is_ok (interpreter_result r).result in
      rw
        (
          pop_growth last success a.state_growth f.growth_active,
          pop_data last success a.data_size f.data_active,
          pop_kv last success a.kv_update f.kv_active,
          pop_gas last success a.compute_gas f.gas_active,
          check_limit_known (popped success a) k l u true h,
          f.data_active,
        )
        (ground arith)

  -- An exceed of the transaction's limit goes on to the parent: while every tracker has a frame,
  -- the returning frame is popped from all four, the exceed is kept, and the result becomes
  -- `OutOfGas` with no data.
  pub before_frame_return_result-tx_level :
      (last : Bool) (r : FrameResult R) (a : AdditionalLimit) (k : LimitKind) (l u : ℕ)
      → a.has_exceeded_limit ≡ LimitCheck.exceeds_limit k l u false
      → HasFrames a
      → before_frame_return_result R last r a
        ≡ some (
          popped (is_ok (interpreter_result r).result) a,
          mark_frame_result_as_exceeding_limit R out_of_gas no_bytes r,
        )
  unfolding before_frame_return_result
  before_frame_return_result-tx_level last r a k l u h f =
      let success = is_ok (interpreter_result r).result in
      rw
        (
          pop_growth last success a.state_growth f.growth_active,
          pop_data last success a.data_size f.data_active,
          pop_kv last success a.kv_update f.kv_active,
          pop_gas last success a.compute_gas f.gas_active,
          check_limit_known (popped success a) k l u false h,
          f.data_active,
        )
        (ground arith)
