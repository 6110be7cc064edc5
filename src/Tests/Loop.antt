-- ===== src/Tests/Loop.antt =====
-- A transaction whose one frame calls a contract: started, run, returned and settled.
use mega_evm.Prelude.{
  ◌+◌, ◌==◌, if◌then◌else◌, add64, arith, ℕ, ◌≡◌, refl, true, false, Option, some, none, [], ◌∷◌,
  Returns-none, Returns-some, ◌≢◌,
}
use mega_evm.Spec.{MegaSpecId, is_enabled}
use mega_evm.Limit.Events.{FrameData, DbResult}
use mega_evm.Limit.Revm.{interpreter_result, FrameResult, InterpreterAction}
use mega_evm.Limit.Frame as Frame
use mega_evm.Limit.DataSize as DataSize
use mega_evm.Limit.KvUpdate as KvUpdate
use mega_evm.Limit.StateGrowth as StateGrowth
use mega_evm.Limit.ComputeGas as ComputeGas
use mega_evm.Limit.Additional.{check_limit, record_compute_gas, push_empty_frame}
use mega_evm.Limit.Additional.Returns.{FrameInitResult}
use mega_evm.Limit.Additional.Depth.{Hooked}
use mega_evm.System.Intercept.{CallInputs, Host}
use mega_evm.Evm.Frames.{
  CallScheme, FrameInput, FrameInit, FrameInitOrResult, Inner, Outcome, ◌>>?◌, inner, hook,
}
use mega_evm.Evm.Frames.Start.{frame_init, unless_result}
use mega_evm.Evm.Frames.Run.{frame_run, frame_return_result}
use mega_evm.Evm.Frames.Stacks.{Stack, finish_top, pop_finished, IsRevm}
use mega_evm.Evm.Frames.Loop.{Phase, Step, Reach}
use mega_evm.Evm.Execution.Rescued.{Settles, return_top, return_top-rescued}
use mega_evm.Limit.Additional.Depth.{HasDepth}
use mega_evm.Evm.Frames.Run.{after_frame_run}
use mega_evm.Evm.Execution.{map_gas, Op, ExecutionResult}
use mega_evm.Evm.Execution.Settled.{InStep, frames-InStep}
use mega_evm.Evm.Execution.Inspected.{IsInspector, inspect_frames-InStep}
use mega_evm.Evm.Frames.Inspector.{Inspector, inspect_frame_init}
use mega_evm.Evm.Frames.Stacks.{KeepsFrames}
use mega_evm.Evm.Execution.{execution_result}
use mega_evm.Limit.Check.{LimitKind, LimitCheck}
use mega_evm.Tests.Evm.{context, trackers}
use mega_evm.Tests.Instructions.{toy_revm}
use mega_evm.Tests.System.{bindings, call_of}

-- revm's EVM is its stack of frames; each frame returns at once, with 900 of gas.
abbrev return_900 : InterpreterAction toy_revm
return_900 = InterpreterAction.return_action (record { result = 0; output = 0; gas = 900 })

abbrev answer_of : Stack → FrameResult toy_revm → Option (FrameResult toy_revm)
answer_of [] r = some r
answer_of (_ ∷ _) r = none

abbrev output_of : InterpreterAction toy_revm → FrameInitOrResult toy_revm
output_of (InterpreterAction.return_action r) =
    FrameInitOrResult.result (FrameResult.call_result r (0, 0))
output_of InterpreterAction.new_frame =
    FrameInitOrResult.item (record { depth = 1; frame_input = FrameInput.create 500 })

abbrev frames_of_revm : Inner toy_revm ℕ Stack ℕ
frames_of_revm = record {
  frame_init = λ init s. (false ∷ s, DbResult.ok (FrameInitResult.item FrameData.call_frame));
  run_plain = λ h. some (h, return_900);
  process_next_action = λ action s. (s, DbResult.ok (output_of action));
  frame_return_result = λ r s. (pop_finished s, DbResult.ok (answer_of (pop_finished s) r));
  inspect_is_empty = λ spec address s. (s, DbResult.ok false);
  set_finished = finish_top;
  frame_data = λ s. FrameData.call_frame;
  frame_gas = λ s. 900;
  journal_depth = λ s. 0;
  record_cost = λ cost gas. some gas;
}

abbrev no_deploy :
    Host ℕ Stack → CallInputs toy_revm → ℕ → ℕ → Option (Host ℕ Stack × FrameResult toy_revm)
no_deploy h inputs tx_bytes gas_limit = none

abbrev start : Host ℕ Stack
start = record {
  spec = MegaSpecId.rex3;
  disable_sandbox = false;
  oracle_env = 0;
  volatile_data_tracker = context.volatile_data_tracker;
  additional_limit = trackers 21_000;
  rest = [];
}

abbrev init : FrameInit toy_revm
init = record { depth = 0; frame_input = FrameInput.call CallScheme.call (call_of 50 0) }

abbrev after {ℓ} : {A : Type ℓ} → Outcome (Host ℕ Stack) ℕ A → Host ℕ Stack
after none = start
after (some (h, _)) = h

abbrev opened_host : Host ℕ Stack
opened_host = after (frame_init bindings frames_of_revm no_deploy init start)

abbrev ran_host : Host ℕ Stack
ran_host = after (frame_run frames_of_revm opened_host)

abbrev answer : FrameResult toy_revm
answer = FrameResult.call_result (record { result = 0; output = 0; gas = 900 }) (0, 0)

abbrev last_host : Host ℕ Stack
last_host = after (frame_return_result frames_of_revm answer ran_host)

opened :
    frame_init bindings frames_of_revm no_deploy init start
    ≡ some (opened_host, DbResult.ok (FrameInitResult.item FrameData.call_frame))
unfolding frame_init unless_result ◌>>?◌ inner hook DataSize.before_frame_init
    KvUpdate.before_frame_init StateGrowth.before_frame_init ComputeGas.before_frame_init
    DataSize.after_frame_init_on_frame KvUpdate.after_frame_init_on_frame check_limit
    DataSize.check_limit KvUpdate.check_limit StateGrowth.check_limit ComputeGas.check_limit
    Frame.net_usage is_enabled Frame.push_frame_with_limit
opened = refl

ran_to_end :
    frame_run frames_of_revm opened_host
    ≡ some (ran_host, DbResult.ok (FrameInitOrResult.result answer))
unfolding frame_init frame_run unless_result ◌>>?◌ inner hook DataSize.before_frame_init
    KvUpdate.before_frame_init StateGrowth.before_frame_init ComputeGas.before_frame_init
    DataSize.after_frame_init_on_frame KvUpdate.after_frame_init_on_frame check_limit
    DataSize.check_limit KvUpdate.check_limit StateGrowth.check_limit ComputeGas.check_limit
    Frame.net_usage is_enabled Frame.push_frame_with_limit record_compute_gas
    DataSize.after_frame_run ComputeGas.record_gas_used Frame.record_persistent
ran_to_end = refl

returned_last :
    frame_return_result frames_of_revm answer ran_host ≡ some (last_host, DbResult.ok (some answer))
unfolding frame_init frame_run frame_return_result unless_result ◌>>?◌ inner hook
    DataSize.before_frame_init KvUpdate.before_frame_init StateGrowth.before_frame_init
    ComputeGas.before_frame_init DataSize.after_frame_init_on_frame
    KvUpdate.after_frame_init_on_frame check_limit DataSize.check_limit KvUpdate.check_limit
    StateGrowth.check_limit ComputeGas.check_limit Frame.net_usage is_enabled
    Frame.push_frame_with_limit record_compute_gas DataSize.after_frame_run
    ComputeGas.record_gas_used Frame.record_persistent StateGrowth.before_frame_return_result
    Frame.has_active_frame DataSize.before_frame_return_result KvUpdate.before_frame_return_result
    ComputeGas.before_frame_return_result Frame.pop_frame
returned_last = refl

abbrev answered : Option (FrameResult toy_revm) → DbResult ℕ (Option (FrameResult toy_revm))
answered r = DbResult.ok r

none-below :
    (s : Stack) (r : FrameResult toy_revm) → answered (answer_of s r) ≡ answered none → s ≢ []
none-below [] r e = absurd (cc)
none-below (_ ∷ _) r e = λ nil. absurd (cc)

some-alone :
    (s : Stack) (r r' : FrameResult toy_revm)
    → answered (answer_of s r) ≡ answered (some r')
    → s ≡ []
some-alone [] r r' e = refl
some-alone (_ ∷ _) r r' e = absurd (cc)

same-KeepsFrames : (h : Host ℕ Stack) → KeepsFrames (λ s. s) h h
same-KeepsFrames h = record {
  same_spec = refl;
  same_stack = refl;
  hooked = Hooked.done h.additional_limit;
}

revm : IsRevm frames_of_revm no_deploy (λ s. s)
revm = record {
  init_item = λ init s frame e. refl;
  init_result = λ init s r e. absurd (cc);
  run_plain = λ h. Returns-some _ (h, return_900) (same-KeepsFrames h);
  process_next_action = λ action s. refl;
  inspect_is_empty = λ spec address s. refl;
  set_finished = λ s. refl;
  frame_return_result = λ r s. refl;
  takes_result = λ r s. none-below (pop_finished s) r;
  last_result = λ r r' s. some-alone (pop_finished s) r r';
  execute_keyless = λ h inputs bytes limit. Returns-none _;
}

mini_rex_in_rex3 : is_enabled MegaSpecId.rex3 MegaSpecId.mini_rex ≡ true
unfolding is_enabled
mini_rex_in_rex3 = refl

-- All gas of what is out of gas is spent.
abbrev spend : FrameResult toy_revm → FrameResult toy_revm
spend r = map_gas (λ gas. if (interpreter_result r).result == 2 then 0 else gas) r

abbrev op : Op toy_revm Stack ℕ ℕ
op = record {
  last_frame_result = λ r s. (s, DbResult.ok (spend r));
  execution_result = λ r s. (s, DbResult.ok (ExecutionResult.halt 7 0));
  reward_beneficiary = λ r s. (s, DbResult.ok tt);
  catch_error = λ error s. (s, DbResult.ok (ExecutionResult.halt 7 1));
  first_frame_input = λ gas s. (s, DbResult.ok init);
  gas_limit = λ s. 100_000;
  is_create = λ s. false;
  new_spent = λ gas. 0;
  erase_cost = λ cost gas. add64 gas cost;
}

frames-InStep_example : InStep op (Phase.finished answer, last_host)
frames-InStep_example =
    frames-InStep bindings frames_of_revm no_deploy (λ s. s) revm MegaSpecId.rex3 mini_rex_in_rex3
      op init start (Phase.finished answer, last_host) refl (refl, refl, refl, refl) refl
      (Reach.next
        (Reach.next
          (Reach.next Reach.here
            (Step.opens init (FrameInitResult.item FrameData.call_frame) opened))
          (Step.runs (FrameInitOrResult.result answer) ran_to_end))
        (Step.returns answer (some answer) returned_last))

-- An inspector that answers every call itself.
abbrev inspector : Inspector toy_revm ℕ Stack
inspector = record {
  frame_start = λ input h. (h, (input, some answer));
  frame_end = λ input r h. (h, r);
  initialize_interp = λ h. h;
  inspect_instructions = λ h. some (h, return_900);
  frame_input = λ s. FrameInput.empty;
}

inspector-IsInspector : IsInspector inspector (λ s. s)
inspector-IsInspector = record {
  frame_start = λ input h. same-KeepsFrames h;
  frame_end = λ input r h. same-KeepsFrames h;
  initialize_interp = same-KeepsFrames;
  inspect_instructions = λ h. Returns-some _ (h, return_900) (same-KeepsFrames h);
}

abbrev skipped_host : Host ℕ Stack
skipped_host = after (inspect_frame_init bindings frames_of_revm no_deploy inspector init start)

skipped :
    inspect_frame_init bindings frames_of_revm no_deploy inspector init start
    ≡ some (skipped_host, DbResult.ok (FrameInitResult.result answer))
unfolding inspect_frame_init is_enabled push_empty_frame StateGrowth.push_empty_frame
    DataSize.push_empty_frame KvUpdate.push_empty_frame ComputeGas.push_empty_frame
    Frame.push_frame_with_limit
skipped = refl

inspect_frames-InStep_example : InStep op (Phase.finished answer, skipped_host)
inspect_frames-InStep_example =
    inspect_frames-InStep bindings frames_of_revm no_deploy (λ s. s) revm MegaSpecId.rex3
      mini_rex_in_rex3 inspector inspector-IsInspector op init start
      (Phase.finished answer, skipped_host) refl (refl, refl, refl, refl) refl
      (Reach.next Reach.here (Step.opens init (FrameInitResult.result answer) skipped))

-- Compute gas of 21,000 over a detained limit of 20,000, after a read of the block's number.
abbrev detained_host : Host ℕ Stack
detained_host = record start {
  volatile_data_tracker = record (start.volatile_data_tracker) { volatile_data_accessed = 1 };
  additional_limit = record (trackers 21_000) {
    has_exceeded_limit = LimitCheck.exceeds_limit LimitKind.compute_gas 20_000 21_000 false;
    compute_gas = record ((trackers 21_000).compute_gas) { detained_limit = 20_000 };
  };
}

gas_used : ComputeGas.tx_usage detained_host.additional_limit.compute_gas ≡ some 21_000
unfolding ComputeGas.tx_usage Frame.net_usage
gas_used = refl

spent :
    (r : FrameResult toy_revm)
    → (interpreter_result r).result ≡ 2
    → (interpreter_result (spend r)).gas ≡ 0
spent (FrameResult.call_result r range) e = rw e refl
spent (FrameResult.create_result r address) e = rw e refl

op-Settles : Settles op
op-Settles = record {
  spends_all = λ r s oog. (spend r, refl, spent r oog);
  gives_back = λ cost gas. refl;
}

-- The frame has ended, with the limit of compute gas exceeded.
abbrev ended_host : Host ℕ Stack
ended_host = record opened_host {
  additional_limit = record (opened_host.additional_limit) {
    has_exceeded_limit = LimitCheck.exceeds_limit LimitKind.compute_gas 20_000 21_000 false;
  };
  rest = true ∷ [];
}

one_frame : HasDepth 1 ended_host.additional_limit
unfolding frame_init unless_result ◌>>?◌ inner hook DataSize.before_frame_init
    KvUpdate.before_frame_init StateGrowth.before_frame_init ComputeGas.before_frame_init
    DataSize.after_frame_init_on_frame KvUpdate.after_frame_init_on_frame check_limit
    DataSize.check_limit KvUpdate.check_limit StateGrowth.check_limit ComputeGas.check_limit
    Frame.net_usage is_enabled Frame.push_frame_with_limit
one_frame = (refl, refl, refl, refl)

nothing_rescued : ended_host.additional_limit.rescued_gas ≡ 0
unfolding frame_init unless_result ◌>>?◌ inner hook DataSize.before_frame_init
    KvUpdate.before_frame_init StateGrowth.before_frame_init ComputeGas.before_frame_init
    DataSize.after_frame_init_on_frame KvUpdate.after_frame_init_on_frame check_limit
    DataSize.check_limit KvUpdate.check_limit StateGrowth.check_limit ComputeGas.check_limit
    Frame.net_usage is_enabled Frame.push_frame_with_limit
nothing_rescued = refl

on_in_ended : is_enabled ended_host.spec MegaSpecId.mini_rex ≡ true
unfolding frame_init unless_result ◌>>?◌ inner hook DataSize.before_frame_init
    KvUpdate.before_frame_init StateGrowth.before_frame_init ComputeGas.before_frame_init
    DataSize.after_frame_init_on_frame KvUpdate.after_frame_init_on_frame check_limit
    DataSize.check_limit KvUpdate.check_limit StateGrowth.check_limit ComputeGas.check_limit
    Frame.net_usage is_enabled Frame.push_frame_with_limit
on_in_ended = refl

return_top-rescued_example :
    (h' : Host ℕ Stack) × (r' : FrameResult toy_revm) × ((after_frame_run frames_of_revm
          (some 1000)
          (FrameInitOrResult.result answer)
          ended_host
        >>? λ (h1, output). return_top frames_of_revm op output h1)
      ≡ some (h', DbResult.ok r'))
    × ((interpreter_result r').gas ≡ ended_host.additional_limit.rescued_gas + 900)
    × (h'.additional_limit.has_exceeded_limit
        ≡ LimitCheck.exceeds_limit LimitKind.compute_gas 20_000 21_000 false)
return_top-rescued_example =
    return_top-rescued frames_of_revm op (some 1000) answer ended_host LimitKind.compute_gas 20_000
      21_000 op-Settles on_in_ended refl one_frame (λ r. refl) (rw nothing_rescued (omega arith))
