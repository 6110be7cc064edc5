-- ===== src/Limit/Frame/Budget.antt =====
-- Per-frame budgets of frame_limit.rs: a frame gets 98/100 of what its parent has left.
use mega_evm.Prelude.{
  ℕ, ◌+◌, ◌-◌, ◌*◌, ◌/◌, ◌≤◌, ◌<◌, ◌≡◌, refl, ap, Bool, true, false, some, List, [], ◌∷◌, arith,
  ltb, if◌then◌else◌, u64_mod,
}
use mega_evm.Limit.Check.{LimitKind, LimitCheck}
use mega_evm.Limit.Entry.{FrameLimitEntry, remaining}
use mega_evm.Limit.Frame.{
  FrameLimitTracker, max_forward_limit, push_frame, push_frame_with_limit, pop_frame,
  exceeds_current_frame_limit, current_frame_remaining,
}
use mega_evm.Limit.Frame.Totals.{entry_used, frames_used, frames_refund, used_lem, Fits}

module _ {ℓ} {I : Type ℓ} where
  abbrev pub net : FrameLimitEntry I → ℕ
  net e = entry_used e - e.refund

  -- Each frame's limit is at most 98/100 of what the frame below it has left, and the bottom
  -- frame's is at most the transaction's.
  abbrev pub NestedIn : ℕ → List (FrameLimitEntry I) → Type 0
  NestedIn tx_limit [] = Unit {0}
  NestedIn tx_limit (e ∷ []) = e.limit ≤ tx_limit
  NestedIn tx_limit (e ∷ parent ∷ below) =
      (e.limit * 100 ≤ (parent.limit - net parent) * 98) × NestedIn tx_limit (parent ∷ below)

  -- Every active frame is within its own limit.
  abbrev pub AllWithin : List (FrameLimitEntry I) → Type 0
  AllWithin [] = Unit {0}
  AllWithin (e ∷ below) = (net e ≤ e.limit) × AllWithin below

  -- What a stack of frames within nested budgets has used, seen from its top frame.
  abbrev pub headroom : ℕ → List (FrameLimitEntry I) → ℕ
  headroom tx_limit [] = tx_limit
  headroom tx_limit (e ∷ below) = e.limit - net e

  frames_within :
      (tx_limit : ℕ) (stack : List (FrameLimitEntry I))
      → NestedIn tx_limit stack
      → AllWithin stack
      → (frames_used stack - frames_refund stack) + headroom tx_limit stack ≤ tx_limit
  frames_within tx_limit [] n w = omega arith
  frames_within tx_limit (e ∷ []) n w = omega arith
  frames_within tx_limit (e ∷ parent ∷ below) n w =
      omega (arith, frames_within tx_limit (parent ∷ below) n.1 w.1)

  remaining_lem :
      (e : FrameLimitEntry I) → entry_used e < u64_mod → remaining e ≡ some (e.limit - net e)
  unfolding remaining
  remaining_lem e h = rw (used_lem e h)

-- The invariant of a tracker under per-frame enforcement.
pub record IsNested {ℓ} {I : Type ℓ} (t : FrameLimitTracker I) : Type 0 where
  pub nested : NestedIn t.tx_entry.limit t.frame_stack
  pub tx_limit_fits : t.tx_entry.limit < u64_mod

module _ {ℓ} {I : Type ℓ} where
  top_limit_fits :
      (tx_limit : ℕ) (e : FrameLimitEntry I) (below : List (FrameLimitEntry I))
      → NestedIn tx_limit (e ∷ below)
      → e.limit ≤ tx_limit
  top_limit_fits tx_limit e [] n = n
  top_limit_fits tx_limit e (parent ∷ below) n =
      omega (arith, top_limit_fits tx_limit parent below n.1)

  -- 98/100 of what the top frame has left, or the transaction's limit for the first frame.
  abbrev pub forwarded : FrameLimitTracker I → ℕ
  forwarded t = elim t.frame_stack [ [] ↦ t.tx_entry.limit | e ∷ _ ↦ (e.limit - net e) * 98 / 100 ]

  max_forward_limit_lem :
      (tx : FrameLimitEntry (Unit {0})) (stack : List (FrameLimitEntry I))
      → let t : FrameLimitTracker I = record { tx_entry = tx; frame_stack = stack } in
        Fits t → IsNested t → max_forward_limit t ≡ some (forwarded t)
  unfolding max_forward_limit
  max_forward_limit_lem tx [] f n = refl
  max_forward_limit_lem tx (e ∷ below) f n =
      let bound = top_limit_fits tx.limit e below n.nested in
      rw (remaining_lem e (omega arith)) (ap some (omega arith))

  -- A new frame is pushed without a panic while the totals fit and the budgets are nested. Its
  -- limit is the transaction's for the first frame, and else 98/100 of what its parent has left.
  pub push_frame_lem :
      (t : FrameLimitTracker I) (info : I)
      → Fits t
      → IsNested t
      → push_frame info t ≡ some (push_frame_with_limit (forwarded t) info t)
  unfolding push_frame
  push_frame_lem t info f n = rw (max_forward_limit_lem t.tx_entry t.frame_stack f n)

  -- What the top frame has left, or the transaction when there is none.
  abbrev pub frame_remaining : FrameLimitTracker I → ℕ
  frame_remaining t = elim t.frame_stack [
    | [] ↦ t.tx_entry.limit - (entry_used t.tx_entry - t.tx_entry.refund)
    | e ∷ _ ↦ e.limit - net e
  ]

  current_frame_remaining_of :
      (tx : FrameLimitEntry (Unit {0})) (stack : List (FrameLimitEntry I))
      → let t : FrameLimitTracker I = record { tx_entry = tx; frame_stack = stack } in
        Fits t → current_frame_remaining t ≡ some (frame_remaining t)
  unfolding current_frame_remaining
  current_frame_remaining_of tx [] f = remaining_lem tx (omega arith)
  current_frame_remaining_of tx (e ∷ below) f = remaining_lem e (omega arith)

  pub current_frame_remaining_lem :
      (t : FrameLimitTracker I) → Fits t → current_frame_remaining t ≡ some (frame_remaining t)
  current_frame_remaining_lem t f = current_frame_remaining_of t.tx_entry t.frame_stack f

  push-IsNested :
      (tx : FrameLimitEntry (Unit {0})) (stack : List (FrameLimitEntry I)) (info : I)
      → let t : FrameLimitTracker I = record { tx_entry = tx; frame_stack = stack } in
        IsNested t → IsNested (push_frame_with_limit (forwarded t) info t)
  unfolding push_frame_with_limit
  push-IsNested tx [] info n = omega arith
  push-IsNested tx (e ∷ below) info n = record {
    nested = (omega arith, n.nested);
    tx_limit_fits = n.tx_limit_fits;
  }

  pub push_frame-IsNested :
      (t : FrameLimitTracker I) (info : I)
      → IsNested t
      → IsNested (push_frame_with_limit (forwarded t) info t)
  push_frame-IsNested t info n = push-IsNested t.tx_entry t.frame_stack info n

  -- Under nested budgets, with every frame within its own, the frames together are within the
  -- transaction's limit, whatever their number and whatever was recorded before the first.
  pub frames-le-tx_limit :
      (t : FrameLimitTracker I)
      → IsNested t
      → AllWithin t.frame_stack
      → frames_used t.frame_stack ≤ t.tx_entry.limit + frames_refund t.frame_stack
  frames-le-tx_limit t n w = omega (arith, frames_within t.tx_entry.limit t.frame_stack n.nested w)

  -- `exceeds_current_frame_limit` reports the top frame exactly when its net usage is over its
  -- limit, with that limit and its usage, and reports nothing when no frame is active.
  pub exceeds_current_frame_limit_lem :
      (kind : LimitKind) (tx : FrameLimitEntry (Unit {0})) (e : FrameLimitEntry I)
      (below : List (FrameLimitEntry I))
      → entry_used e < u64_mod
      → exceeds_current_frame_limit kind (record { tx_entry = tx; frame_stack = e ∷ below })
        ≡ some (
            if ltb e.limit (net e)
            then LimitCheck.exceeds_limit kind e.limit (entry_used e) true
            else LimitCheck.within_limit)
  unfolding exceeds_current_frame_limit
  exceeds_current_frame_limit_lem kind tx e below h = rw (used_lem e h)

  -- What a child returns at most: on success its net usage, on failure its persistent usage.
  abbrev pub returned : Bool → FrameLimitEntry I → ℕ
  returned true child = net child
  returned false child = child.persistent_usage

  pub pop_within :
      (success : Bool) (tx : FrameLimitEntry (Unit {0})) (child : FrameLimitEntry I)
      (below : List (FrameLimitEntry I))
      → let t : FrameLimitTracker I = record { tx_entry = tx; frame_stack = child ∷ below } in
        Fits t
        → IsNested t
        → returned success child ≤ child.limit
        → AllWithin below
        → let t' = (pop_frame success t).0 in IsNested t' × AllWithin t'.frame_stack
  unfolding pop_frame
  pop_within true tx child [] f n r w = (omega arith, tt)
  pop_within false tx child [] f n r w = (omega arith, tt)
  pop_within true tx child (parent ∷ []) f n r w = (omega arith, (omega arith, tt))
  pop_within false tx child (parent ∷ []) f n r w = (omega arith, (omega arith, tt))
  pop_within true tx child (parent ∷ grand ∷ below) f n r w =
      (record { nested = n.nested.1; tx_limit_fits = n.tx_limit_fits }, (omega arith, w.1))
  pop_within false tx child (parent ∷ grand ∷ below) f n r w =
      (record { nested = n.nested.1; tx_limit_fits = n.tx_limit_fits }, (omega arith, w.1))
