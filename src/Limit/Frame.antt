-- ===== src/Limit/Frame.antt =====
-- crates/mega-evm/src/limit/frame_limit.rs: usage counters for the transaction and for each
-- active call frame. The head of `frame_stack` is the end of the source's `Vec`, the top frame.
pub mod Totals
pub mod Budget
pub mod Slots
pub mod Soundness
pub mod Reachable
pub mod Depth
use mega_evm.Prelude.{
  ℕ, ◌-◌, ◌*◌, ◌/◌, ◌%◌, Bool, true, false, if◌then◌else◌, ltb, Option, none, some, List, [], ◌∷◌,
  ◌>>=◌, add64, u64_mod, u128_mod,
}
use mega_evm.Limit.Check.{LimitKind, LimitCheck}
use mega_evm.Limit.Entry.{FrameLimitEntry, new_entry, used, remaining, merge_child}

-- `constants::rex4`.
abbrev pub frame_limit_numerator : ℕ
frame_limit_numerator = 98

abbrev pub frame_limit_denominator : ℕ
frame_limit_denominator = 100

pub record FrameLimitTracker {ℓ} (I : Type ℓ) : Type ℓ where
  pub tx_entry : FrameLimitEntry (Unit {0})
  pub frame_stack : List (FrameLimitEntry I)

module _ {ℓ} {I : Type ℓ} where
  unfoldable pub new : ℕ → FrameLimitTracker I
  unfolding new_entry
  new tx_limit = record { tx_entry = new_entry tx_limit tt; frame_stack = [] }

  unfoldable pub reset : FrameLimitTracker I → FrameLimitTracker I
  reset t = record {
    tx_entry = record t.tx_entry { persistent_usage = 0; discardable_usage = 0; refund = 0 };
    frame_stack = [];
  }

  unfoldable pub current_frame_remaining : FrameLimitTracker I → Option ℕ
  unfolding remaining
  current_frame_remaining t = elim t.frame_stack [
    | [] ↦ remaining t.tx_entry
    | entry ∷ _ ↦ remaining entry
  ]

  -- The quotient is taken in `u128` and cast back to `u64`.
  unfoldable pub max_forward_limit : FrameLimitTracker I → Option ℕ
  unfolding remaining
  max_forward_limit t = elim t.frame_stack [
    | [] ↦ some t.tx_entry.limit
    | entry ∷ _ ↦ do
      r ← remaining entry
      some ((r * frame_limit_numerator) % u128_mod / frame_limit_denominator % u64_mod)
  ]

  unfoldable pub push_frame_with_limit : ℕ → I → FrameLimitTracker I → FrameLimitTracker I
  unfolding new_entry
  push_frame_with_limit limit info t = record t {
    frame_stack = new_entry limit info ∷ t.frame_stack;
  }

  unfoldable pub push_frame : I → FrameLimitTracker I → Option (FrameLimitTracker I)
  unfolding max_forward_limit push_frame_with_limit
  push_frame info t = do limit ← max_forward_limit t; some (push_frame_with_limit limit info t)

  unfoldable pub pop_frame :
      Bool → FrameLimitTracker I → FrameLimitTracker I × Option (FrameLimitEntry I)
  unfolding merge_child
  pop_frame success t = elim t.frame_stack [
    | [] ↦ (t, none)
    | child ∷ [] ↦
        (record { tx_entry = merge_child success child t.tx_entry; frame_stack = [] }, some child)
    | child ∷ parent ∷ rest ↦
        (record t { frame_stack = merge_child success child parent ∷ rest }, some child)
  ]

  unfoldable pub exceeds_current_frame_limit : LimitKind → FrameLimitTracker I → Option LimitCheck
  unfolding used
  exceeds_current_frame_limit kind t = elim t.frame_stack [
    | [] ↦ some LimitCheck.within_limit
    | entry ∷ _ ↦ do
      u ← used entry
      some (
          if ltb entry.limit (u - entry.refund)
          then LimitCheck.exceeds_limit kind entry.limit u true
          else LimitCheck.within_limit)
  ]

  unfoldable pub has_active_frame : FrameLimitTracker I → Bool
  has_active_frame t = elim t.frame_stack [ [] ↦ false | _ ∷ _ ↦ true ]

  -- `if let Some(entry) = self.frame_mut() { entry.discardable_usage += size }`.
  unfoldable pub record_discardable : ℕ → FrameLimitTracker I → FrameLimitTracker I
  record_discardable size t = elim t.frame_stack [
    | [] ↦ t
    | e ∷ rest ↦ record t {
      frame_stack = record e { discardable_usage = add64 e.discardable_usage size } ∷ rest;
    }
  ]

  -- `if let Some(entry) = self.frame_mut() { entry.refund += size }`.
  unfoldable pub record_refund : ℕ → FrameLimitTracker I → FrameLimitTracker I
  record_refund size t = elim t.frame_stack [
    | [] ↦ t
    | e ∷ rest ↦ record t { frame_stack = record e { refund = add64 e.refund size } ∷ rest }
  ]

  -- `if let Some(entry) = self.frame_mut() { … } else { self.tx_mut() … }`, of the persistent usage.
  unfoldable pub record_persistent : ℕ → FrameLimitTracker I → FrameLimitTracker I
  record_persistent size t = elim t.frame_stack [
    | [] ↦ record t {
      tx_entry = record t.tx_entry { persistent_usage = add64 t.tx_entry.persistent_usage size };
    }
    | e ∷ rest ↦ record t {
      frame_stack = record e { persistent_usage = add64 e.persistent_usage size } ∷ rest;
    }
  ]

  -- `self.tx_mut().persistent_usage += size`.
  unfoldable pub record_tx_persistent : ℕ → FrameLimitTracker I → FrameLimitTracker I
  record_tx_persistent size t = record t {
    tx_entry = record t.tx_entry { persistent_usage = add64 t.tx_entry.persistent_usage size };
  }

  -- The sums of `used` and of `refund`, from the bottom frame to the top one.
  unfoldable pub sum_frames : ℕ × ℕ → List (FrameLimitEntry I) → Option (ℕ × ℕ)
  unfolding used
  sum_frames start [] = some start
  sum_frames start (entry ∷ below) = do
    (total_used, total_refund) ← sum_frames start below
    u ← used entry
    some (add64 total_used u, add64 total_refund entry.refund)

  unfoldable pub net_usage : FrameLimitTracker I → Option ℕ
  unfolding used sum_frames
  net_usage t = do
    tx_used ← used t.tx_entry
    (total_used, total_refund) ← sum_frames (tx_used, t.tx_entry.refund) t.frame_stack
    some (total_used - total_refund)
