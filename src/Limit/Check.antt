-- ===== src/Limit/Check.antt =====
-- crates/mega-evm/src/limit/mod.rs: the outcome of a limit check.
use mega_evm.Prelude.{ℕ, Bool, true, false}

pub data LimitKind : Type 0 where
  data_size kv_update compute_gas state_growth : LimitKind

unfoldable pub as_u8 : LimitKind → ℕ
as_u8 LimitKind.data_size = 0
as_u8 LimitKind.kv_update = 1
as_u8 LimitKind.compute_gas = 2
as_u8 LimitKind.state_growth = 3

-- `ExceedsLimit { kind, limit, used, frame_local }`.
pub data LimitCheck : Type 0 where
  within_limit : LimitCheck
  exceeds_limit : LimitKind → ℕ → ℕ → Bool → LimitCheck

abbrev pub exceeded_limit : LimitCheck → Bool
exceeded_limit LimitCheck.within_limit = false
exceeded_limit (LimitCheck.exceeds_limit _ _ _ _) = true

abbrev pub is_frame_local : LimitCheck → Bool
is_frame_local LimitCheck.within_limit = false
is_frame_local (LimitCheck.exceeds_limit _ _ _ frame_local) = frame_local
