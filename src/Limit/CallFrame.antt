-- ===== src/Limit/CallFrame.antt =====
-- crates/mega-evm/src/limit/frame_limit.rs: what the data size and KV update trackers keep of a
-- frame.
use mega_evm.Prelude.{Bool, Option}
use mega_evm.Limit.Events.{Address}

pub record CallFrameInfo : Type 0 where
  pub target_address : Option Address
  pub target_updated : Bool
