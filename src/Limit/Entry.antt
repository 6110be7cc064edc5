-- ===== src/Limit/Entry.antt =====
-- crates/mega-evm/src/limit/frame_limit.rs: the counters of one budget entry.
use mega_evm.Prelude.{ℕ, ◌-◌, Bool, if◌then◌else◌, Option, some, ◌>>=◌, add64, checked_add64}

pub record FrameLimitEntry {ℓ} (I : Type ℓ) : Type ℓ where
  pub limit : ℕ
  pub persistent_usage : ℕ
  pub discardable_usage : ℕ
  pub refund : ℕ
  pub info : I

module _ {ℓ} {I : Type ℓ} where
  unfoldable pub new_entry : ℕ → I → FrameLimitEntry I
  new_entry limit info = record {
    limit = limit;
    persistent_usage = 0;
    discardable_usage = 0;
    refund = 0;
    info = info;
  }

  -- Panics on overflow.
  unfoldable pub used : FrameLimitEntry I → Option ℕ
  used e = checked_add64 e.persistent_usage e.discardable_usage

  unfoldable pub remaining : FrameLimitEntry I → Option ℕ
  remaining e = do u ← used e; some (e.limit - (u - e.refund))

  unfoldable pub merge_child {κ} :
      {J : Type κ} → Bool → FrameLimitEntry J → FrameLimitEntry I → FrameLimitEntry I
  merge_child success child parent =
      let kept = record parent {
        persistent_usage = add64 parent.persistent_usage child.persistent_usage;
      } in
      if success
      then record kept {
        discardable_usage = add64 parent.discardable_usage child.discardable_usage;
        refund = add64 parent.refund child.refund;
      }
      else kept
