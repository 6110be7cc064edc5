-- ===== src/Evm/Frames/Start.antt =====
-- crates/mega-evm/src/evm/execution.rs: `frame_init`. `none` as a result is a panic.
use mega_evm.Prelude.{
  ℕ, Bool, true, false, not, ◌&&◌, ◌==◌, if◌then◌else◌, Option, none, some, ◌>>=◌,
}
use mega_evm.Spec.{MegaSpecId, is_enabled}
use mega_evm.Limit.Events as Events
use mega_evm.Limit.Events.{Address, FrameData, DbResult}
use mega_evm.Limit.Revm.{Revm, FrameResult}
use mega_evm.Limit.Additional.{set_compute_gas_limit, push_empty_frame}
use mega_evm.Limit.Additional.Frames as Limits
use mega_evm.Limit.Additional.Returns as Hooks
use mega_evm.Limit.Additional.Returns.{FrameInitResult}
use mega_evm.Access.Tracker.{check_and_mark_oracle_access}
use mega_evm.System.Intercept.{CallInputs, Bindings, Host, dispatch, transfers}
use mega_evm.Evm.SystemTx.{mega_system_address}
use mega_evm.Evm.Frames.{CallScheme, FrameInput, FrameInit, Inner, Outcome, ◌>>?◌, inner, hook}

module _ {R : Revm} {W S E : Type 0} (B : Bindings R W) (V : Inner R W S E)
    (execute_keyless_deploy_call : Host W S
      → CallInputs R
      → R.Bytes
      → ℕ
      → Option (Host W S × FrameResult R)) where
  -- The schemes of a call whose target is the oracle's account, by version.
  unfoldable pub detects_oracle : MegaSpecId → CallScheme → Bool
  unfolding is_enabled
  detects_oracle spec CallScheme.call = true
  detects_oracle spec CallScheme.static_call = is_enabled spec MegaSpecId.rex
  detects_oracle spec _ = false

  -- A call of the oracle detains gas.
  unfoldable pub mark_oracle : CallInputs R → Host W S → Option (Host W S)
  mark_oracle inputs h =
      let (tracker, marked) =
        check_and_mark_oracle_access inputs.target_address h.volatile_data_tracker in
      let h' = record h { volatile_data_tracker = tracker } in
      if marked
      then elim tracker.compute_gas_limit [
        | none ↦ some h'
        | some limit ↦ do
          a ← set_compute_gas_limit limit h.additional_limit
          some (record h' { additional_limit = a })
      ]
      else some h'

  -- The detection of oracle calls before Rex3.
  unfoldable pub detect_oracle : FrameInput R → Host W S → Option (Host W S)
  unfolding detects_oracle mark_oracle is_enabled
  detect_oracle (FrameInput.call scheme inputs) h =
      if is_enabled h.spec MegaSpecId.mini_rex
        && not (is_enabled h.spec MegaSpecId.rex3)
        && detects_oracle h.spec scheme
        && not (inputs.caller == mega_system_address)
      then mark_oracle inputs h
      else some h
  detect_oracle _ h = some h

  -- The answer of an interceptor, with an empty frame for the return to pop.
  unfoldable pub intercept_call :
      FrameInit R → Host W S → Option (Host W S × Option (FrameResult R))
  unfolding dispatch is_enabled
  intercept_call init h = elim init.frame_input [
    | FrameInput.call scheme inputs ↦ do
      (h', answer) ← dispatch B execute_keyless_deploy_call inputs init.depth h
      elim answer [
        | none ↦ some (h', none)
        | some r ↦
            if is_enabled h.spec MegaSpecId.mini_rex
            then (do
              a ← push_empty_frame h'.additional_limit
              some (record h' { additional_limit = a }, some r))
            else some (h', some r)
      ]
    | FrameInput.create gas_limit ↦ some (h, none)
    | FrameInput.empty ↦ some (h, none)
  ]

  -- What the limits read of the input.
  unfoldable pub limit_input : FrameInput R → Events.FrameInput
  unfolding transfers
  limit_input (FrameInput.call scheme inputs) =
      Events.FrameInput.call inputs.target_address (transfers B execute_keyless_deploy_call inputs)
        inputs.gas_limit inputs.return_memory_offset
  limit_input (FrameInput.create gas_limit) = Events.FrameInput.create gas_limit
  limit_input FrameInput.empty = Events.FrameInput.empty

  -- The journal after the look at the account that a value goes to.
  unfoldable pub after_inspection : Events.FrameInput → MegaSpecId → S → S
  after_inspection (Events.FrameInput.call target true _ _) spec s =
      (V.inspect_is_empty spec target s).0
  after_inspection _ spec s = s

  -- `additional_limit.before_frame_init(…)?`.
  unfoldable pub limit_frame :
      FrameInput R → Host W S → Outcome (Host W S) E (Option (FrameResult R))
  unfolding Limits.before_frame_init limit_input after_inspection is_enabled
  limit_frame input h =
      let spec = h.additional_limit.state_growth.spec in
      if is_enabled h.spec MegaSpecId.mini_rex
      then (do
        (a, answer) ←
            Limits.before_frame_init R (λ spec address. (V.inspect_is_empty spec address h.rest).1)
              (limit_input input) h.additional_limit
        some (
          record h {
            additional_limit = a;
            rest = after_inspection (limit_input input) spec h.rest;
          },
          answer,
        ))
      else some (h, DbResult.ok none)

  -- `inner.frame_init(…)?` and the hook after it.
  unfoldable pub init_inner : FrameInit R → Host W S → Outcome (Host W S) E (FrameInitResult R)
  unfolding Hooks.after_frame_init
  init_inner init h = inner (V.frame_init init) h >>? λ (h', made).
      hook made (λ a. do a' ← Hooks.after_frame_init R made a; some (a', made)) h'

  -- A result ends the start of a frame early.
  unfoldable pub unless_result :
      Option (FrameResult R)
      → (Host W S → Outcome (Host W S) E (FrameInitResult R))
      → Host W S
      → Outcome (Host W S) E (FrameInitResult R)
  unless_result (some r) next h = some (h, DbResult.ok (FrameInitResult.result r))
  unless_result none next h = next h

  unfoldable pub frame_init : FrameInit R → Host W S → Outcome (Host W S) E (FrameInitResult R)
  unfolding detect_oracle intercept_call limit_frame init_inner is_enabled
  frame_init init h = do
    h' ← detect_oracle init.frame_input h
    (h'', answer) ← intercept_call init h'
    unless_result answer
        (λ h. limit_frame init.frame_input h >>? λ (h', refusal).
          unless_result refusal (init_inner init) h')
        h''
