-- ===== src/Evm/Execution/Rescued.antt =====
-- crates/mega-evm/src/evm/execution.rs: the gas of a transaction that goes over one of its limits.
use mega_evm.Prelude.{
  ℕ, ◌+◌, ◌<◌, ◌≡◌, ap, ◌∙◌, refl, true, false, Option, none, some, add64, u64_mod, arith,
  Returns-value,
}
use mega_evm.Spec.{MegaSpecId, is_enabled}
use mega_evm.Limit.Check.{LimitKind, LimitCheck}
use mega_evm.Limit.Events.{DbResult}
use mega_evm.Limit.Revm.{Revm, FrameResult, interpreter_result}
use mega_evm.Limit.Additional.{AdditionalLimit}
use mega_evm.Limit.Additional.Frames.{rescue_gas, mark_frame_result_as_exceeding_limit}
use mega_evm.Limit.Additional.Depth.{HasDepth}
use mega_evm.Limit.Additional.Depth.Frames as Depth
use mega_evm.Limit.Additional.Propagation.{popped, before_frame_return_result-tx_level}
use mega_evm.System.Intercept.{Host}
use mega_evm.Evm.Frames.{FrameInitOrResult, Inner, Outcome, ◌>>?◌, inner, hook}
use mega_evm.Evm.Frames.Run.{after_frame_run, enable_returned, frame_return_result}
use mega_evm.Evm.Execution.{
  Op, map_gas, delegated, before_last_result, return_rescued, last_frame_result,
}
use mega_evm.Evm.Execution.Settled.{HasDepth-HasFrames}
use mega_evm.Limit.Additional.Rescue.{
  charged, marked, result-out_of_gas, after_frame_run-rescued, before_frame_return_result-settled,
}

gas-map_gas :
    {R : Revm} (f : R.Gas → R.Gas) (r : FrameResult R)
    → (interpreter_result (map_gas f r)).gas ≡ f (interpreter_result r).gas
gas-map_gas f (FrameResult.call_result r range) = refl
gas-map_gas f (FrameResult.create_result r address) = refl

-- What op-revm and revm document: of a transaction that runs out of gas all is spent, and
-- `erase_cost` gives gas back.
pub record Settles {R : Revm} {S E X : Type 0} (O : Op R S E X) : Type 0 where
  pub spends_all :
      (r : FrameResult R) (s : S)
      → (interpreter_result r).result ≡ R.out_of_gas
      → (r' : FrameResult R) × ((O.last_frame_result r s).1 ≡ DbResult.ok r')
        × (R.gas_remaining (interpreter_result r').gas ≡ 0)
  pub gives_back :
      (n : ℕ) (gas : R.Gas) → R.gas_remaining (O.erase_cost n gas) ≡ add64 (R.gas_remaining gas) n

sum_fits : (m n : ℕ) → m + n < u64_mod → add64 0 (add64 m n) ≡ m + n
sum_fits m n fits = omega arith

module _ {R : Revm} {W S E X : Type 0} (V : Inner R W S E) (O : Op R S E X) where
  -- What comes after the run of the first frame: its result is returned, and it is the last one.
  abbrev pub settle_last : Option (FrameResult R) → Host W S → Outcome (Host W S) E (FrameResult R)
  settle_last none h = none
  settle_last (some r) h = last_frame_result O r h

  abbrev pub return_top : FrameInitOrResult R → Host W S → Outcome (Host W S) E (FrameResult R)
  return_top (FrameInitOrResult.item init) h = none
  return_top (FrameInitOrResult.result r) h =
      frame_return_result V r h >>? λ (h', answer). settle_last answer h'

  after_frame_run-exceeded :
      (before : Option ℕ) (r : FrameResult R) (h : Host W S) (k : LimitKind) (l u : ℕ)
      → is_enabled h.spec MegaSpecId.mini_rex ≡ true
      → h.additional_limit.has_exceeded_limit ≡ LimitCheck.exceeds_limit k l u false
      → after_frame_run V before (FrameInitOrResult.result r) h
        ≡ some (
          record h {
            additional_limit =
                rescue_gas R (interpreter_result r).gas (charged R before r h.additional_limit);
          },
          DbResult.ok (FrameInitOrResult.result (marked R before r)),
        )
  unfolding after_frame_run hook
  after_frame_run-exceeded before r h k l u on x =
      rw (on, after_frame_run-rescued R before r h.additional_limit k l u x) refl

  enable_returned-keeps :
      (h : Host W S)
      → ((enable_returned V h).spec ≡ h.spec)
        × ((enable_returned V h).additional_limit ≡ h.additional_limit)
  unfolding enable_returned
  enable_returned-keeps h = ground arith

  frame_return_result-top :
      (r : FrameResult R) (h : Host W S) (k : LimitKind) (l u : ℕ)
      → is_enabled h.spec MegaSpecId.mini_rex ≡ true
      → h.additional_limit.has_exceeded_limit ≡ LimitCheck.exceeds_limit k l u false
      → HasDepth 1 h.additional_limit
      → ((r : FrameResult R) → (V.frame_return_result r h.rest).1 ≡ DbResult.ok (some r))
      → (h' : Host W S) × (frame_return_result V r h
          ≡ some (
            h',
            DbResult.ok (some (mark_frame_result_as_exceeding_limit R R.out_of_gas R.no_bytes r)),
          ))
        × (h'.spec ≡ h.spec)
        × (h'.additional_limit ≡ popped (R.is_ok (interpreter_result r).result) h.additional_limit)
  unfolding frame_return_result hook inner ◌>>?◌
  frame_return_result-top r h k l u on x d top =
      let r' = mark_frame_result_as_exceeding_limit R R.out_of_gas R.no_bytes r in
      let h' : Host W S = record h {
        additional_limit = popped (R.is_ok (interpreter_result r).result) h.additional_limit;
        rest = (V.frame_return_result r' h.rest).0;
      } in
      let (same, kept) = enable_returned-keeps h' in
      (
        enable_returned V h',
        rw
            (
              on,
              before_frame_return_result-tx_level R false r h.additional_limit k l u x
                  (HasDepth-HasFrames 0 h.additional_limit d),
              top r',
            )
            refl,
        same,
        kept,
      )

  last_frame_result-exceeded :
      (r : FrameResult R) (h : Host W S) (k : LimitKind) (l u : ℕ)
      → Settles O
      → is_enabled h.spec MegaSpecId.mini_rex ≡ true
      → h.additional_limit.has_exceeded_limit ≡ LimitCheck.exceeds_limit k l u false
      → HasDepth 0 h.additional_limit
      → (interpreter_result r).result ≡ R.out_of_gas
      → (h' : Host W S) × (r' : FrameResult R) × (last_frame_result O r h
          ≡ some (h', DbResult.ok r'))
        × (R.gas_remaining (interpreter_result r').gas ≡ add64 0 h.additional_limit.rescued_gas)
        × (h'.additional_limit.has_exceeded_limit ≡ LimitCheck.exceeds_limit k l u false)
  unfolding last_frame_result before_last_result delegated return_rescued ◌>>?◌
  last_frame_result-exceeded r h k l u settles on x d oog =
      let (r', answers, spent) = settles.spends_all r h.rest oog in
      let a = popped (R.is_ok (interpreter_result r).result) h.additional_limit in
      let rescued = h.additional_limit.rescued_gas in
      (
        record h { additional_limit = a; rest = (O.last_frame_result r h.rest).0 },
        map_gas (O.erase_cost rescued) r',
        rw (on, before_frame_return_result-settled R r h.additional_limit k l u x d, answers, on)
            refl,
        ap R.gas_remaining (gas-map_gas (O.erase_cost rescued) r')
            ∙ settles.gives_back rescued (interpreter_result r').gas
            ∙ ap (λ n. add64 n rescued) spent,
        x,
      )

  depth_after_run :
      (before : Option ℕ) (r : FrameResult R) (a : AdditionalLimit) (k : LimitKind) (l u : ℕ)
      → a.has_exceeded_limit ≡ LimitCheck.exceeds_limit k l u false
      → HasDepth 1 a
      → HasDepth 1 (rescue_gas R (interpreter_result r).gas (charged R before r a))
  depth_after_run before r a k l u x d =
      Returns-value _ _ _ (Depth.after_frame_run-HasDepth R 1 before r a d)
        (after_frame_run-rescued R before r a k l u x)

  depth_after_return :
      (r : FrameResult R) (a : AdditionalLimit) (k : LimitKind) (l u : ℕ)
      → a.has_exceeded_limit ≡ LimitCheck.exceeds_limit k l u false
      → HasDepth 1 a
      → HasDepth 0 (popped (R.is_ok (interpreter_result r).result) a)
  depth_after_return r a k l u x d =
      Returns-value _ _ _ (Depth.before_frame_return_result-HasDepth R 0 false r a d)
        (before_frame_return_result-tx_level R false r a k l u x (HasDepth-HasFrames 0 a d))

  -- From MiniRex on, if a limit of the transaction was exceeded when its first frame ended, each
  -- tracker has just the frame that ended, revm hands the result of the first frame on, op-revm
  -- spends all gas of what is out of gas, and the sum fits: the result is returned and settled
  -- without a panic, its remaining gas is the gas that was rescued before and the gas that the frame
  -- had left, and the exceed is kept.
  pub return_top-rescued :
      (before : Option ℕ) (r : FrameResult R) (h : Host W S) (k : LimitKind) (l u : ℕ)
      → Settles O
      → is_enabled h.spec MegaSpecId.mini_rex ≡ true
      → h.additional_limit.has_exceeded_limit ≡ LimitCheck.exceeds_limit k l u false
      → HasDepth 1 h.additional_limit
      → ((r : FrameResult R) → (V.frame_return_result r h.rest).1 ≡ DbResult.ok (some r))
      → h.additional_limit.rescued_gas + R.gas_remaining (interpreter_result r).gas < u64_mod
      → (h' : Host W S) × (r' : FrameResult R) × ((after_frame_run V before
              (FrameInitOrResult.result r)
              h
            >>? λ (h1, output). return_top output h1)
          ≡ some (h', DbResult.ok r'))
        × (R.gas_remaining (interpreter_result r').gas
            ≡ h.additional_limit.rescued_gas + R.gas_remaining (interpreter_result r).gas)
        × (h'.additional_limit.has_exceeded_limit ≡ LimitCheck.exceeds_limit k l u false)
  unfolding ◌>>?◌ rescue_gas
  return_top-rescued before r h k l u settles on x d top fits =
      let a1 = rescue_gas R (interpreter_result r).gas (charged R before r h.additional_limit) in
      let h1 : Host W S = record h { additional_limit = a1 } in
      let d1 = depth_after_run before r h.additional_limit k l u x d in
      let (h2, returns, same, kept) =
        frame_return_result-top (marked R before r) h1 k l u on x d1 top in
      let d2 = depth_after_return (marked R before r) a1 k l u x d1 in
      let (h', r', settled, gas, exceeded) =
        last_frame_result-exceeded
          (mark_frame_result_as_exceeding_limit R R.out_of_gas R.no_bytes (marked R before r)) h2 k
          l u settles (rw same on) (rw kept x) (rw kept d2)
          (result-out_of_gas R (marked R before r)) in
      (
        h',
        r',
        rw (after_frame_run-exceeded before r h k l u on x, returns) settled,
        gas ∙ ap (λ (a : AdditionalLimit). add64 0 a.rescued_gas) kept ∙ sum_fits _ _ fits,
        exceeded,
      )
