-- ===== src/Tests/Frames.antt =====
-- A transaction with nested frames, for frame_limit.rs.
use mega_evm.Prelude.{◌+◌, ◌-◌, ◌≤◌, ◌≡◌, refl, true, false, some, [], ◌∷◌, arith}
use mega_evm.Limit.Check.{LimitKind}
use mega_evm.Limit.Entry.{FrameLimitEntry, new_entry, used, remaining, merge_child}
use mega_evm.Limit.Frame.{
  FrameLimitTracker, push_frame, push_frame_with_limit, pop_frame, max_forward_limit,
  record_discardable, record_refund, exceeds_current_frame_limit, net_usage,
}
use mega_evm.Limit.Frame.Totals.{
  total_used, total_refund, frames_used, frames_refund, entry_used, Fits, net_usage-eq-totals,
  net_usage-pop_success, net_usage-pop_failure,
}
use mega_evm.Limit.Frame.Budget.{AllWithin, forwarded}
use mega_evm.Limit.Frame.Reachable.{Run, Step, Run-within}

abbrev tx_entry : FrameLimitEntry (Unit {0})
tx_entry = record {
  limit = 1000;
  persistent_usage = 150;
  discardable_usage = 0;
  refund = 0;
  info = tt;
}

-- The first frame has used 500 of 1000, and its child 300 of 490, with 40 refunded.
abbrev parent_frame : FrameLimitEntry (Unit {0})
parent_frame = record {
  limit = 1000;
  persistent_usage = 0;
  discardable_usage = 500;
  refund = 0;
  info = tt;
}

abbrev child_frame : FrameLimitEntry (Unit {0})
child_frame = record {
  limit = 490;
  persistent_usage = 20;
  discardable_usage = 300;
  refund = 40;
  info = tt;
}

abbrev two_frames : FrameLimitTracker (Unit {0})
two_frames = record { tx_entry = tx_entry; frame_stack = child_frame ∷ parent_frame ∷ [] }

two_frames-Fits : Fits two_frames
two_frames-Fits = record { used_fits = omega arith; refund_fits = omega arith }

net_usage-eq-totals_example :
    net_usage two_frames ≡ some (total_used two_frames - total_refund two_frames)
net_usage-eq-totals_example = net_usage-eq-totals two_frames two_frames-Fits

net_usage-pop_success_example : net_usage (pop_frame true two_frames).0 ≡ net_usage two_frames
net_usage-pop_success_example = net_usage-pop_success two_frames two_frames-Fits

net_usage-pop_failure_example :
    net_usage (pop_frame false two_frames).0
    ≡ some (
        (entry_used tx_entry + (frames_used (parent_frame ∷ []) + child_frame.persistent_usage))
        - (tx_entry.refund + frames_refund (parent_frame ∷ [])))
net_usage-pop_failure_example =
    net_usage-pop_failure tx_entry child_frame (parent_frame ∷ []) two_frames-Fits

-- A frame starts and is charged 500, its child is charged 300, repaid 40, and fails.
abbrev after_run : FrameLimitTracker (Unit {0})
after_run = record { tx_entry = tx_entry; frame_stack = parent_frame ∷ [] }

example-Run : Run (record { tx_entry = tx_entry; frame_stack = [] }) after_run
unfolding push_frame max_forward_limit remaining used push_frame_with_limit new_entry merge_child
    record_discardable record_refund exceeds_current_frame_limit pop_frame
example-Run = Run.next (Step.starts tt refl) (
    Run.next (Step.charges LimitKind.data_size 500 (omega arith) refl) (
      Run.next (Step.starts tt refl) (
        Run.next (Step.charges LimitKind.data_size 300 (omega arith) refl) (
          Run.next (Step.repays 40 (omega arith))
            (Run.next (Step.returns false) (Run.done after_run))))))

Run-within_example :
    (push_frame tt after_run ≡ some (push_frame_with_limit (forwarded after_run) tt after_run))
    × AllWithin after_run.frame_stack
    × (frames_used after_run.frame_stack
        ≤ after_run.tx_entry.limit + frames_refund after_run.frame_stack)
Run-within_example =
    Run-within tx_entry after_run tt example-Run (omega arith) (omega arith) (omega arith)
