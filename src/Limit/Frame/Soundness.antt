-- ===== src/Limit/Frame/Soundness.antt =====
-- What starting, recording and returning frames keep under per-frame enforcement, frame_limit.rs.
use mega_evm.Prelude.{
  ℕ, ◌+◌, ◌≤◌, ◌<◌, ◌≡◌, refl, sym, ◌∙◌, Bool, true, false, some, List, [], ◌∷◌, arith, ltb,
  u64_mod, add64, if◌then◌else◌,
}
use mega_evm.Limit.Check.{LimitKind, LimitCheck}
use mega_evm.Limit.Entry.{FrameLimitEntry}
use mega_evm.Limit.Frame.{
  FrameLimitTracker, push_frame_with_limit, pop_frame, record_discardable, record_refund,
  exceeds_current_frame_limit,
}
use mega_evm.Limit.Frame.Totals.{
  entry_used, total_used, total_refund, Fits, pop_success, pop_failure,
}
use mega_evm.Limit.Frame.Budget.{
  net, NestedIn, AllWithin, IsNested, forwarded, push_frame-IsNested,
  exceeds_current_frame_limit_lem, pop_within, returned,
}

within_of :
    (kind : LimitKind) (limit used u : ℕ)
    → some (
        if ltb limit used
        then LimitCheck.exceeds_limit kind limit u true
        else LimitCheck.within_limit)
      ≡ some LimitCheck.within_limit
    → used ≤ limit
within_of kind limit used u h = ground arith

module _ {ℓ} {I : Type ℓ} where
  abbrev pub NonePersistent : List (FrameLimitEntry I) → Type 0
  NonePersistent [] = Unit {0}
  NonePersistent (e ∷ below) = (e.persistent_usage ≡ 0) × NonePersistent below

  -- What every run keeps.
  pub record IsSound (t : FrameLimitTracker I) : Type 0 where
    pub fits : Fits t
    pub nested : IsNested t
    pub within : AllWithin t.frame_stack
    pub none_persistent : NonePersistent t.frame_stack

  pub start-IsSound :
      (t : FrameLimitTracker I) (info : I)
      → IsSound t
      → IsSound (push_frame_with_limit (forwarded t) info t)
  unfolding push_frame_with_limit
  start-IsSound t info s = record {
    fits = record {
      used_fits = omega (arith, s.fits.used_fits);
      refund_fits = omega (arith, s.fits.refund_fits);
    };
    nested = push_frame-IsNested t info s.nested;
    within = (omega arith, s.within);
    none_persistent = (refl, s.none_persistent);
  }

  -- The limit of the top frame is what nesting reads of it.
  same_limit_nested :
      (tx_limit : ℕ) (e e' : FrameLimitEntry I) (below : List (FrameLimitEntry I))
      → e'.limit ≡ e.limit
      → NestedIn tx_limit (e ∷ below)
      → NestedIn tx_limit (e' ∷ below)
  same_limit_nested tx_limit e e' [] h n = omega arith
  same_limit_nested tx_limit e e' (parent ∷ below) h n = (omega (arith, n.0), n.1)

  pub charge-IsSound :
      (kind : LimitKind) (size : ℕ) (tx : FrameLimitEntry (Unit {0}))
      (stack : List (FrameLimitEntry I))
      → let t : FrameLimitTracker I = record { tx_entry = tx; frame_stack = stack } in
        IsSound t
        → total_used t + size < u64_mod
        → exceeds_current_frame_limit kind (record_discardable size t)
          ≡ some LimitCheck.within_limit
        → IsSound (record_discardable size t)
  unfolding record_discardable
  charge-IsSound kind size tx [] s fit ok = s
  charge-IsSound kind size tx (e ∷ below) s fit ok =
      let e' = record e { discardable_usage = add64 e.discardable_usage size } in
      let fit' : entry_used e' < u64_mod = omega arith in
      let reported = exceeds_current_frame_limit_lem kind tx e' below fit' in
      record {
        fits = record { used_fits = omega arith; refund_fits = s.fits.refund_fits };
        nested = record {
          nested = same_limit_nested tx.limit e e' below refl s.nested.nested;
          tx_limit_fits = s.nested.tx_limit_fits;
        };
        within = (within_of kind e.limit (net e') (entry_used e') (sym reported ∙ ok), s.within.1);
        none_persistent = s.none_persistent;
      }

  pub repay-IsSound :
      (size : ℕ) (tx : FrameLimitEntry (Unit {0})) (stack : List (FrameLimitEntry I))
      → let t : FrameLimitTracker I = record { tx_entry = tx; frame_stack = stack } in
        IsSound t → total_refund t + size < u64_mod → IsSound (record_refund size t)
  unfolding record_refund
  repay-IsSound size tx [] s fit = s
  repay-IsSound size tx (e ∷ below) s fit =
      let e' = record e { refund = add64 e.refund size } in
      record {
        fits = record { used_fits = s.fits.used_fits; refund_fits = omega arith };
        nested = record {
          nested = same_limit_nested tx.limit e e' below refl s.nested.nested;
          tx_limit_fits = s.nested.tx_limit_fits;
        };
        within = (omega (arith, s.within.0, fit), s.within.1);
        none_persistent = s.none_persistent;
      }

  returned_within :
      (success : Bool) (e : FrameLimitEntry I)
      → e.persistent_usage ≡ 0
      → net e ≤ e.limit
      → returned success e ≤ e.limit
  returned_within true e p w = w
  returned_within false e p w = omega arith

  return-NonePersistent :
      (success : Bool) (tx : FrameLimitEntry (Unit {0})) (stack : List (FrameLimitEntry I))
      → NonePersistent stack
      → NonePersistent
          (pop_frame success (record { tx_entry = tx; frame_stack = stack })).0.frame_stack
  unfolding pop_frame
  return-NonePersistent success tx [] p = tt
  return-NonePersistent success tx (e ∷ []) p = tt
  return-NonePersistent true tx (e ∷ parent ∷ below) p = (omega arith, p.1.1)
  return-NonePersistent false tx (e ∷ parent ∷ below) p = (omega arith, p.1.1)

  return-Fits :
      (success : Bool) (tx : FrameLimitEntry (Unit {0})) (e : FrameLimitEntry I)
      (below : List (FrameLimitEntry I))
      → let t : FrameLimitTracker I = record { tx_entry = tx; frame_stack = e ∷ below } in
        Fits t → Fits (pop_frame success t).0
  return-Fits true tx e below f =
      let (u, r) = pop_success tx (e ∷ below) f in
      record { used_fits = rw u f.used_fits; refund_fits = rw r f.refund_fits }
  return-Fits false tx e below f =
      let (u, r) = pop_failure tx e below f in
      record {
        used_fits = omega (arith, u, f.used_fits);
        refund_fits = omega (arith, r, f.refund_fits);
      }

  pub return-IsSound :
      (success : Bool) (tx : FrameLimitEntry (Unit {0})) (stack : List (FrameLimitEntry I))
      → let t : FrameLimitTracker I = record { tx_entry = tx; frame_stack = stack } in
        IsSound t → IsSound (pop_frame success t).0
  unfolding pop_frame
  return-IsSound success tx [] s = s
  return-IsSound success tx (e ∷ below) s =
      let budget = returned_within success e s.none_persistent.0 s.within.0 in
      let (nested, within) = pop_within success tx e below s.fits s.nested budget s.within.1 in
      record {
        fits = return-Fits success tx e below s.fits;
        nested = nested;
        within = within;
        none_persistent = return-NonePersistent success tx (e ∷ below) s.none_persistent;
      }
