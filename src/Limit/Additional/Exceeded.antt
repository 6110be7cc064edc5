-- ===== src/Limit/Additional/Exceeded.antt =====
-- The return of a frame over a limit, in crates/mega-evm/src/limit/limit.rs: what the trackers and
-- the parent are left with.
use mega_evm.Prelude.{
  List, ℕ, ◌+◌, suc, ◌≡◌, refl, ap, ◌∙◌, Bool, true, false, if◌then◌else◌, some, [], ◌∷◌, length,
  arith,
}
use mega_evm.Limit.Check.{LimitKind, LimitCheck, as_u8}
use mega_evm.Limit.Entry.{FrameLimitEntry}
use mega_evm.Limit.Revm.{Revm, FrameResult, interpreter_result}
use mega_evm.Limit.Frame.{FrameLimitTracker, pop_frame, has_active_frame}
use mega_evm.Limit.Frame.Totals.{Fits, total_used, total_refund}
use mega_evm.Limit.StateGrowth
use mega_evm.Limit.DataSize
use mega_evm.Limit.KvUpdate
use mega_evm.Limit.ComputeGas
use mega_evm.Limit.Additional.{AdditionalLimit}
use mega_evm.Limit.Additional.Frames.{mark_frame_result_as_exceeding_limit}
use mega_evm.Limit.Additional.Returns.{before_frame_return_result}
use mega_evm.Limit.Additional.Propagation.{
  HasFrames, popped, before_frame_return_result-frame_local, before_frame_return_result-tx_level,
}

module _ {I : Type 0} where
  -- What the failure of the top frame takes back.
  abbrev pub top_discardable : FrameLimitTracker I → ℕ
  top_discardable t = elim t.frame_stack [ [] ↦ 0 | e ∷ _ ↦ e.discardable_usage ]

  abbrev pub top_refund : FrameLimitTracker I → ℕ
  top_refund t = elim t.frame_stack [ [] ↦ 0 | e ∷ _ ↦ e.refund ]

-- The top frame is gone. All it recorded is kept if it succeeded; if it failed, its discardable
-- usage and its refund are taken back.
pub record IsPopped {I : Type 0} (success : Bool) (t t' : FrameLimitTracker I) : Type 0 where
  pub one_less : length t.frame_stack ≡ suc (length t'.frame_stack)
  pub same_limit : t'.tx_entry.limit ≡ t.tx_entry.limit
  pub used_left : total_used t' + (if success then 0 else top_discardable t) ≡ total_used t
  pub refund_left : total_refund t' + (if success then 0 else top_refund t) ≡ total_refund t

pop-IsPopped :
    {I : Type 0} (success : Bool) (tx : FrameLimitEntry (Unit {0}))
    (stack : List (FrameLimitEntry I))
    → let t : FrameLimitTracker I = record { tx_entry = tx; frame_stack = stack } in
      has_active_frame t ≡ true → Fits t → IsPopped success t (pop_frame success t).0
unfolding pop_frame has_active_frame
pop-IsPopped success tx [] active fits = absurd (cc)
pop-IsPopped true tx (child ∷ []) active fits = omega arith
pop-IsPopped true tx (child ∷ parent ∷ below) active fits = omega arith
pop-IsPopped false tx (child ∷ []) active fits = omega arith
pop-IsPopped false tx (child ∷ parent ∷ below) active fits = omega arith

pop_frame-IsPopped :
    {I : Type 0} (success : Bool) (t : FrameLimitTracker I)
    → has_active_frame t ≡ true
    → Fits t
    → IsPopped success t (pop_frame success t).0
pop_frame-IsPopped success t active fits = pop-IsPopped success t.tx_entry t.frame_stack active fits

-- The totals of each tracker fit in 64 bits.
pub record AllFit (a : AdditionalLimit) : Type 0 where
  pub growth_fits : Fits a.state_growth.frame_tracker
  pub data_fits : Fits a.data_size.frame_tracker
  pub kv_fits : Fits a.kv_update.frame_tracker
  pub gas_fits : Fits a.compute_gas.frame_tracker

-- Each tracker has its top frame popped.
pub record AllPopped (success : Bool) (a a' : AdditionalLimit) : Type 0 where
  pub growth_popped : IsPopped success a.state_growth.frame_tracker a'.state_growth.frame_tracker
  pub data_popped : IsPopped success a.data_size.frame_tracker a'.data_size.frame_tracker
  pub kv_popped : IsPopped success a.kv_update.frame_tracker a'.kv_update.frame_tracker
  pub gas_popped : IsPopped success a.compute_gas.frame_tracker a'.compute_gas.frame_tracker

popped-AllPopped :
    (success : Bool) (a : AdditionalLimit)
    → HasFrames a
    → AllFit a
    → AllPopped success a (popped success a)
unfolding StateGrowth.has_active_frame DataSize.has_active_frame KvUpdate.has_active_frame
    ComputeGas.has_active_frame
popped-AllPopped success a f fits = record {
  growth_popped =
      pop_frame-IsPopped success a.state_growth.frame_tracker f.growth_active fits.growth_fits;
  data_popped = pop_frame-IsPopped success a.data_size.frame_tracker f.data_active fits.data_fits;
  kv_popped = pop_frame-IsPopped success a.kv_update.frame_tracker f.kv_active fits.kv_fits;
  gas_popped = pop_frame-IsPopped success a.compute_gas.frame_tracker f.gas_active fits.gas_fits;
}

module _ (R : Revm) where
  open R use {InstructionResult, Bytes, revert, out_of_gas, is_ok, no_bytes, mega_limit_exceeded}

  -- The result of a call or of a create with another outcome: the gas and the memory range or the
  -- address are as they were.
  abbrev pub ends_as : InstructionResult → Bytes → FrameResult R → FrameResult R
  ends_as result output (FrameResult.call_result r range) =
      FrameResult.call_result (record { result = result; output = output; gas = r.gas }) range
  ends_as result output (FrameResult.create_result r address) =
      FrameResult.create_result (record { result = result; output = output; gas = r.gas }) address

  mark-ends_as :
      (result : InstructionResult) (output : Bytes) (r : FrameResult R)
      → mark_frame_result_as_exceeding_limit R result output r ≡ ends_as result output r
  unfolding mark_frame_result_as_exceeding_limit
  mark-ends_as result output (FrameResult.call_result r range) = refl
  mark-ends_as result output (FrameResult.create_result r address) = refl

  -- A frame returns while a limit is exceeded, each tracker has a frame, and the totals fit: the
  -- hook returns, and pops the frame from each tracker, which keeps all that the frame recorded if
  -- its result was a success and else takes back its discardable usage and its refund. An exceed of
  -- the frame's own budget ends with it: it is forgotten, and the result is a revert with the kind
  -- and the limit as data. An exceed of the transaction's limit is kept for the parent, and the
  -- result is out of gas without data. Both for calls and for creates, the gas and the memory range
  -- or the address stay, and so do the rescued gas and the limits.
  pub before_frame_return_result-exceeded :
      (last : Bool) (r : FrameResult R) (a : AdditionalLimit) (k : LimitKind) (l u : ℕ)
      (frame_local : Bool)
      → a.has_exceeded_limit ≡ LimitCheck.exceeds_limit k l u frame_local
      → HasFrames a
      → AllFit a
      → (a' : AdditionalLimit) × (before_frame_return_result R last r a
          ≡ some (
            a',
            (if frame_local
                then ends_as revert (mega_limit_exceeded (as_u8 k) l) r
                else ends_as out_of_gas no_bytes r),
          ))
        × (a'.has_exceeded_limit ≡ (
            if frame_local then LimitCheck.within_limit else LimitCheck.exceeds_limit k l u false))
        × AllPopped (is_ok (interpreter_result r).result) a a'
        × (a'.rescued_gas ≡ a.rescued_gas)
        × (a'.limits ≡ a.limits)
  before_frame_return_result-exceeded last r a k l u true x f fits =
      let success = is_ok (interpreter_result r).result in
      let a' : AdditionalLimit = record (popped success a) {
        has_exceeded_limit = LimitCheck.within_limit;
      } in
      let pops = popped-AllPopped success a f fits in
      (
        a',
        before_frame_return_result-frame_local R last r a k l u x f
            ∙ ap (λ r'. some (a', r')) (mark-ends_as revert (mega_limit_exceeded (as_u8 k) l) r),
        refl,
        record {
          growth_popped = pops.growth_popped;
          data_popped = pops.data_popped;
          kv_popped = pops.kv_popped;
          gas_popped = pops.gas_popped;
        },
        refl,
        refl,
      )
  before_frame_return_result-exceeded last r a k l u false x f fits =
      let success = is_ok (interpreter_result r).result in
      (
        popped success a,
        before_frame_return_result-tx_level R last r a k l u x f
            ∙ ap (λ r'. some (popped success a, r')) (mark-ends_as out_of_gas no_bytes r),
        x,
        popped-AllPopped success a f fits,
        refl,
        refl,
      )
