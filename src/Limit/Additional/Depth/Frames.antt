-- ===== src/Limit/Additional/Depth/Frames.antt =====
-- The hooks of crates/mega-evm/src/limit/limit.rs round a frame: how many frames the trackers have.
use mega_evm.Prelude.{
  ℕ, suc, ◌≡◌, ◌∙◌, ap, Bool, true, not, ◌&&◌, Option, none, some, arith, Returns, Returns-some,
  Returns-bind, Returns-each, Returns-if,
}
use mega_evm.Spec.{MegaSpecId}
use mega_evm.Limit.Check.{LimitCheck, exceeded_limit, is_frame_local}
use mega_evm.Limit.Events.{Address, FrameInput, FrameData, DbResult}
use mega_evm.Limit.Revm.{Revm, FrameResult, InterpreterAction, interpreter_result}
use mega_evm.Limit.StateGrowth.Depth as Growth
use mega_evm.Limit.DataSize.Depth as Data
use mega_evm.Limit.KvUpdate.Depth as Kv
use mega_evm.Limit.ComputeGas.Depth as Gas
use mega_evm.Limit.Additional.{AdditionalLimit}
use mega_evm.Limit.Additional.Depth.{
  HasDepth, HasDepth-if, check_limit-HasDepth, record_compute_gas-HasDepth,
}
use mega_evm.Limit.Additional.Frames.{rescue_gas, try_rescue_gas, refuse_frame, before_frame_init}
use mega_evm.Limit.Additional.Returns.{
  FrameInitResult, after_frame_init, before_frame_run, record_action_cost, after_frame_run,
  check_created, after_frame_run_instructions, settle, before_frame_return_result,
}

Returns-outcome {ℓ κ μ ν} :
    {E : Type ℓ} {A : Type κ} {X : Type μ} (P : X → Type ν) (outcome : DbResult E A)
    (failed : E → Option X) (f : A → Option X)
    → ((e : E) → Returns P (failed e))
    → ((a : A) → Returns P (f a))
    → Returns P (elim outcome [ DbResult.err e ↦ failed e | DbResult.ok a ↦ f a ])
Returns-outcome P (DbResult.ok a) failed f h k = k a
Returns-outcome P (DbResult.err e) failed f h k = h e

-- After the hook before a frame starts: one more frame, but on an error of the database, which ends
-- the transaction.
abbrev pub HasPushed {ℓ κ} : {E : Type ℓ} {A : Type κ} → ℕ → AdditionalLimit → DbResult E A → Type 0
HasPushed n a (DbResult.ok _) = HasDepth (suc n) a
HasPushed n a (DbResult.err _) = Unit

module _ (R : Revm) (n : ℕ) where
  try_rescue_gas-HasDepth :
      (gas : R.Gas) (a : AdditionalLimit)
      → HasDepth n a
      → Returns (HasDepth n) (try_rescue_gas R gas a)
  unfolding try_rescue_gas rescue_gas
  try_rescue_gas-HasDepth gas a d =
      Returns-bind (λ (_, a'). HasDepth n a') _ _ _ (check_limit-HasDepth n a d)
        λ (check, a') d'. Returns-some _ _ (
          HasDepth-if n (exceeded_limit check && not (is_frame_local check)) (rescue_gas R gas a')
            a' d' d')

  pub after_frame_init-HasDepth :
      (made : FrameInitResult R) (a : AdditionalLimit)
      → HasDepth n a
      → Returns (HasDepth n) (after_frame_init R made a)
  unfolding after_frame_init
  after_frame_init-HasDepth (FrameInitResult.item frame) a (g, d, k, c) =
      Returns-bind (λ t. Data.frames t ≡ Data.frames a.data_size) _ _ _
        (Data.after_frame_init_on_frame-frames frame a.data_size)
        λ _ d'.
          Returns-bind (λ t. Kv.frames t ≡ Kv.frames a.kv_update) _ _ _
            (Kv.after_frame_init_on_frame-frames frame a.kv_update)
            λ _ k'. Returns-some _ _ (g, d' ∙ d, k' ∙ k, c)
  after_frame_init-HasDepth (FrameInitResult.result r) a d =
      try_rescue_gas-HasDepth (interpreter_result r).gas a d

  pub before_frame_run-HasDepth :
      (gas : R.Gas) (a : AdditionalLimit)
      → HasDepth n a
      → Returns (λ (a', _). HasDepth n a') (before_frame_run R gas a)
  unfolding before_frame_run
  before_frame_run-HasDepth gas a d =
      Returns-bind (λ (_, a'). HasDepth n a') _ _ _ (check_limit-HasDepth n a d)
        λ _ d'. Returns-some _ _ d'

  record_action_cost-HasDepth :
      (before : Option ℕ) (r : FrameResult R) (a : AdditionalLimit)
      → HasDepth n a
      → Returns (λ (a', _). HasDepth n a') (record_action_cost R before r a)
  unfolding record_action_cost
  record_action_cost-HasDepth none r a d = Returns-some _ _ d
  record_action_cost-HasDepth (some before) r a d =
      Returns-bind (λ (_, a'). HasDepth n a') _ _ _ (record_compute_gas-HasDepth n _ a d)
        λ _ d'. Returns-some _ _ d'

  pub after_frame_run-HasDepth :
      (before : Option ℕ) (r : FrameResult R) (a : AdditionalLimit)
      → HasDepth n a
      → Returns (λ (a', _). HasDepth n a') (after_frame_run R before r a)
  unfolding after_frame_run
  after_frame_run-HasDepth before r a d =
      Returns-bind (λ (a', _). HasDepth n a') _ _ _ (record_action_cost-HasDepth before r a d)
        λ (a', r') d'.
          Returns-bind (HasDepth n) _ _ _
            (try_rescue_gas-HasDepth (interpreter_result r').gas a' d')
            λ _ d''. Returns-some _ _ d''

  check_created-HasDepth :
      (frame : FrameData) (action : InterpreterAction R) (a : AdditionalLimit)
      → HasDepth n a
      → Returns (λ (a', _). HasDepth n a') (check_created R frame action a)
  unfolding check_created
  check_created-HasDepth (FrameData.create_frame _) (InterpreterAction.return_action r) a d =
      Returns-bind (λ (_, a'). HasDepth n a') _ _ _ (check_limit-HasDepth n a d)
        λ _ d'. Returns-some _ _ d'
  check_created-HasDepth (FrameData.create_frame _) InterpreterAction.new_frame a d =
      Returns-some _ _ d
  check_created-HasDepth FrameData.call_frame action a d = Returns-some _ _ d

  pub after_frame_run_instructions-HasDepth :
      (frame : FrameData) (action : InterpreterAction R) (a : AdditionalLimit)
      → HasDepth n a
      → Returns (λ (a', _). HasDepth n a') (after_frame_run_instructions R frame action a)
  unfolding after_frame_run_instructions
  after_frame_run_instructions-HasDepth frame action a (g, d, k, c) =
      check_created-HasDepth frame action _
        (g, Data.frames-after_frame_run frame _ a.data_size ∙ d, k, c)

  refuse_frame-HasDepth :
      (input : FrameInput) (a : AdditionalLimit)
      → HasDepth n a
      → Returns (λ (a', _). HasDepth n a') (refuse_frame R input a)
  unfolding refuse_frame
  refuse_frame-HasDepth input a d =
      Returns-bind (λ (_, a'). HasDepth n a') _ _ _ (check_limit-HasDepth n a d)
        λ (check, a') d'.
          Returns-if _ (exceeded_limit check) _ _
            (Returns-each _ _ _ λ _.
              Returns-bind (HasDepth n) _ _ _ (try_rescue_gas-HasDepth _ a' d')
                λ _ d''. Returns-some _ _ d'')
            (Returns-some _ (a', none) d')

  settle-HasDepth :
      (duplicate : Bool) (check : LimitCheck) (a : AdditionalLimit) (r : FrameResult R)
      → HasDepth n a
      → HasDepth n (settle R duplicate check a r).0
  unfolding settle
  settle-HasDepth duplicate check a r d = let local = is_frame_local check in ground arith

  pub before_frame_return_result-HasDepth :
      (last : Bool) (r : FrameResult R) (a : AdditionalLimit)
      → HasDepth (suc n) a
      → Returns (λ (a', _). HasDepth n a') (before_frame_return_result R last r a)
  unfolding before_frame_return_result
  before_frame_return_result-HasDepth last r a (g, d, k, c) =
      let success = R.is_ok (interpreter_result r).result in
      let (growth, eg, g') =
        Growth.before_frame_return_result-frames last success a.state_growth n g in
      let (size, ed, d') = Data.before_frame_return_result-frames last success a.data_size n d in
      let (kv, ek, k') = Kv.before_frame_return_result-frames last success a.kv_update n k in
      let (gas, ec, c') = Gas.before_frame_return_result-frames last success a.compute_gas n c in
      rw (eg, ed, ek, ec)
        (Returns-bind (λ (_, a'). HasDepth n a') _ _ _ (check_limit-HasDepth n _ (g', d', k', c'))
          λ (check, a') d''. Returns-some _ _ (settle-HasDepth _ check a' r d''))

module _ (R : Revm) where
  pub before_frame_init-HasDepth {ℓ} :
      {E : Type ℓ} (is_empty_account : MegaSpecId → Address → DbResult E Bool) (n : ℕ)
      (input : FrameInput) (a : AdditionalLimit)
      → HasDepth n a
      → Returns
          (λ (a', answer). HasPushed n a' answer)
          (before_frame_init R is_empty_account input a)
  unfolding before_frame_init
  before_frame_init-HasDepth is_empty_account n input a (g, d, k, c) =
      Returns-bind (λ (t, _). Growth.frames t ≡ suc (Growth.frames a.state_growth)) _ _ _
        (Growth.before_frame_init-frames is_empty_account input a.state_growth)
        λ (t, outcome) g'.
          Returns-outcome _ outcome _ _ (λ e. Returns-some _ _ tt)
            λ _.
              Returns-bind (λ t. Data.frames t ≡ suc (Data.frames a.data_size)) _ _ _
                (Data.before_frame_init-frames input a.data_size)
                λ _ d'.
                  Returns-bind (λ t. Kv.frames t ≡ suc (Kv.frames a.kv_update)) _ _ _
                    (Kv.before_frame_init-frames input a.kv_update)
                    λ _ k'.
                      Returns-bind (λ t. Gas.frames t ≡ suc (Gas.frames a.compute_gas)) _ _ _
                        (Gas.before_frame_init-frames a.compute_gas)
                        λ _ c'.
                          Returns-bind (λ (a', _). HasDepth (suc n) a') _ _ _
                            (refuse_frame-HasDepth R (suc n) input _
                              (g' ∙ ap suc g, d' ∙ ap suc d, k' ∙ ap suc k, c' ∙ ap suc c))
                            λ _ d''. Returns-some _ _ d''

  pub before_frame_return_result-last :
      (r : FrameResult R) (a : AdditionalLimit)
      → HasDepth 0 a
      → Returns (λ (a', _). HasDepth 0 a') (before_frame_return_result R true r a)
  unfolding before_frame_return_result
  before_frame_return_result-last r a (g, d, k, c) =
      let success = R.is_ok (interpreter_result r).result in
      let (growth, eg, g') = Growth.before_frame_return_result-last success a.state_growth g in
      let (size, ed, d') = Data.before_frame_return_result-last success a.data_size d in
      let (kv, ek, k') = Kv.before_frame_return_result-last success a.kv_update k in
      let (gas, ec, c') = Gas.before_frame_return_result-last success a.compute_gas c in
      rw (eg, ed, ek, ec)
        (Returns-bind (λ (_, a'). HasDepth 0 a') _ _ _ (check_limit-HasDepth 0 _ (g', d', k', c'))
          λ (check, a') d''. Returns-some _ _ (settle-HasDepth R 0 _ check a' r d''))
