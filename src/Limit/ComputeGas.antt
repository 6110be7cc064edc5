-- ===== src/Limit/ComputeGas.antt =====
-- crates/mega-evm/src/limit/compute_gas.rs: the compute gas of a transaction, and its detention
-- after an access to volatile data.
pub mod Depth
pub mod Detention
pub mod Persistence
pub mod Check
use mega_evm.Prelude.{
  ℕ, ◌-◌, min, Bool, false, ◌||◌, ◌&&◌, if◌then◌else◌, ltb, Option, some, ◌>>=◌, ◌>>◌, assert,
  saturating_add64, u64_max,
}
use mega_evm.Spec.{MegaSpecId, is_enabled}
use mega_evm.Limit.Check.{LimitKind, LimitCheck, exceeded_limit}
use mega_evm.Limit.Frame.{FrameLimitTracker}
use mega_evm.Limit.Frame

pub record ComputeGasTracker : Type 0 where
  pub rex1_enabled : Bool
  pub rex4_enabled : Bool
  pub detained_limit : ℕ
  pub frame_tracker : FrameLimitTracker (Unit {0})

unfoldable pub new : MegaSpecId → ℕ → ComputeGasTracker
new spec tx_limit = record {
  rex1_enabled = is_enabled spec MegaSpecId.rex1;
  rex4_enabled = is_enabled spec MegaSpecId.rex4;
  detained_limit = tx_limit;
  frame_tracker = Frame.new tx_limit;
}

unfoldable pub push_frame : ComputeGasTracker → Option ComputeGasTracker
push_frame t = do
  pushed ←
      (if t.rex4_enabled
        then Frame.push_frame tt t.frame_tracker
        else some (Frame.push_frame_with_limit u64_max tt t.frame_tracker))
  some (record t { frame_tracker = pushed })

-- The limit of the transaction, lowered by detention.
pub tx_limit : ComputeGasTracker → ℕ
tx_limit t = min t.frame_tracker.tx_entry.limit t.detained_limit

unfoldable pub tx_usage : ComputeGasTracker → Option ℕ
tx_usage t = Frame.net_usage t.frame_tracker

pub set_detained_limit : ℕ → ComputeGasTracker → Option ComputeGasTracker
unfolding tx_usage
set_detained_limit cap t = do
  new_limit ←
      (if t.rex4_enabled
        then (do usage ← tx_usage t; some (saturating_add64 usage cap))
        else some cap)
  some (record t { detained_limit = min t.detained_limit new_limit })

unfoldable pub current_call_remaining : ComputeGasTracker → Option ℕ
unfolding tx_limit tx_usage
current_call_remaining t = do
  usage ← tx_usage t
  let tx_remaining = tx_limit t - usage
  (if t.rex4_enabled
      then (do
        frame_remaining ← Frame.current_frame_remaining t.frame_tracker
        some (min frame_remaining tx_remaining))
      else some tx_remaining)

unfoldable pub is_detained_exceed : ComputeGasTracker → Option Bool
unfolding tx_usage
is_detained_exceed t = do
  used ← tx_usage t
  some (ltb t.detained_limit used && ltb t.detained_limit t.frame_tracker.tx_entry.limit)

-- All gas is persistent; it goes to the top frame, or to the transaction when there is none.
unfoldable pub record_gas_used : ℕ → ComputeGasTracker → ComputeGasTracker
record_gas_used gas t = record t { frame_tracker = Frame.record_persistent gas t.frame_tracker }

unfoldable pub reset : ComputeGasTracker → ComputeGasTracker
reset t = record t {
  detained_limit = (if t.rex1_enabled then t.frame_tracker.tx_entry.limit else t.detained_limit);
  frame_tracker = Frame.reset t.frame_tracker;
}

-- The check against the detained limit of the transaction.
check_tx_limit : ComputeGasTracker → Option LimitCheck
unfolding tx_limit tx_usage
check_tx_limit t = do
  used ← tx_usage t
  some (
      if ltb (tx_limit t) used
      then LimitCheck.exceeds_limit LimitKind.compute_gas (tx_limit t) used false
      else LimitCheck.within_limit)

unfoldable pub check_limit : ComputeGasTracker → Option LimitCheck
unfolding check_tx_limit
check_limit t =
    if t.rex4_enabled
    then (do
      frame_check ← Frame.exceeds_current_frame_limit LimitKind.compute_gas t.frame_tracker
      (if exceeded_limit frame_check then some frame_check else check_tx_limit t))
    else check_tx_limit t

unfoldable pub push_empty_frame : ComputeGasTracker → Option ComputeGasTracker
unfolding push_frame
push_empty_frame t = push_frame t

unfoldable pub before_frame_init : ComputeGasTracker → Option ComputeGasTracker
unfolding push_frame
before_frame_init t = push_frame t

unfoldable pub has_active_frame : ComputeGasTracker → Bool
has_active_frame t = Frame.has_active_frame t.frame_tracker

unfoldable pub before_frame_return_result :
    Bool → Bool → ComputeGasTracker → Option ComputeGasTracker
unfolding has_active_frame
before_frame_return_result last_frame success t = do
  assert (last_frame || has_active_frame t)
  some (record t { frame_tracker = (Frame.pop_frame success t.frame_tracker).0 })
