-- ===== src/Evm/HaltReason.antt =====
-- crates/mega-evm/src/evm/result.rs: the conversions between the halt reasons of Ethereum, of the
-- OP stack and of this EVM.
use mega_evm.Prelude.{◌≡◌, refl, ap, ◌∙◌, ◌↔◌, ◌≢◌}
use mega_evm.Limit.Events.{DbResult}
use mega_evm.Limit.Revm.{Revm}
use mega_evm.Limit.Additional.Frames.{MegaHaltReason}

-- `EthHaltReason`, `OpHaltReason::Base` and the conversion back, which answers the reason itself
-- if it has none.
pub record Conversions (R : Revm) : Type 1 where
  pub EthHaltReason : Type 0
  pub op_base : EthHaltReason → R.OpHaltReason
  pub op_try_into : R.OpHaltReason → DbResult R.OpHaltReason EthHaltReason

module _ {R : Revm} (C : Conversions R) where
  open C use {EthHaltReason, op_base, op_try_into}

  unfoldable pub from_eth : EthHaltReason → MegaHaltReason R
  from_eth value = MegaHaltReason.base (op_base value)

  unfoldable pub from_op : R.OpHaltReason → MegaHaltReason R
  from_op value = MegaHaltReason.base value

  -- `?` on the inner conversion: its error goes through `from_op`.
  propagate : DbResult R.OpHaltReason EthHaltReason → DbResult (MegaHaltReason R) EthHaltReason
  unfolding from_op
  propagate (DbResult.ok reason) = DbResult.ok reason
  propagate (DbResult.err reason) = DbResult.err (from_op reason)

  unfoldable pub try_from : MegaHaltReason R → DbResult (MegaHaltReason R) EthHaltReason
  unfolding propagate
  try_from (MegaHaltReason.base reason) = propagate (op_try_into reason)
  try_from value = DbResult.err value

  -- What op-revm documents of its conversion: it undoes `Base` and nothing else, and hands back
  -- what it refuses.
  pub record IsInverse : Type 0 where
    pub undoes : (eth : EthHaltReason) → op_try_into (op_base eth) ≡ DbResult.ok eth
    pub only_base :
        (reason : R.OpHaltReason) (eth : EthHaltReason)
        → op_try_into reason ≡ DbResult.ok eth
        → reason ≡ op_base eth
    pub hands_back :
        (reason back : R.OpHaltReason) → op_try_into reason ≡ DbResult.err back → back ≡ reason

  propagate-ok :
      (r : DbResult R.OpHaltReason EthHaltReason) (eth : EthHaltReason)
      → propagate r ≡ DbResult.ok eth
      → r ≡ DbResult.ok eth
  unfolding propagate
  propagate-ok (DbResult.ok found) eth h = cc
  propagate-ok (DbResult.err back) eth h = absurd (cc)

  propagate-err :
      (r : DbResult R.OpHaltReason EthHaltReason) (value : MegaHaltReason R)
      → propagate r ≡ DbResult.err value
      → (back : R.OpHaltReason) × (r ≡ DbResult.err back) × (value ≡ MegaHaltReason.base back)
  unfolding propagate from_op
  propagate-err (DbResult.ok found) value h = absurd (cc)
  propagate-err (DbResult.err back) value h = (back, refl, cc)

  module _ (op : IsInverse) where
    from_eth-base :
        (reason : R.OpHaltReason) (eth : EthHaltReason)
        → MegaHaltReason.base reason ≡ from_eth eth
        → reason ≡ op_base eth
    unfolding from_eth
    from_eth-base reason eth h = cc

    refused_iff :
        (value : MegaHaltReason R) (eth : EthHaltReason)
        → try_from value ≡ DbResult.err value
        → value ≢ from_eth eth
        → ((try_from value ≡ DbResult.ok eth) ↔ (value ≡ from_eth eth))
          × ((back : MegaHaltReason R) → try_from value ≡ DbResult.err back → back ≡ value)
    refused_iff value eth refused other = ((λ h. absurd (cc), λ h. absurd (other h)), λ back h. cc)

    -- If op-revm's conversion undoes `Base` and only that, and hands back what it refuses: a halt
    -- reason of this EVM converts to a reason of Ethereum exactly if it is that reason, converted;
    -- and one that does not convert comes back unchanged as the error.
    pub try_from_iff :
        (value : MegaHaltReason R) (eth : EthHaltReason)
        → ((try_from value ≡ DbResult.ok eth) ↔ (value ≡ from_eth eth))
          × ((back : MegaHaltReason R) → try_from value ≡ DbResult.err back → back ≡ value)
    unfolding try_from from_eth
    try_from_iff (MegaHaltReason.base reason) eth = (
      (
        λ h.
            ap MegaHaltReason.base
              (op.only_base reason eth (propagate-ok (op_try_into reason) eth h)),
        λ h. ap propagate (ap op_try_into (from_eth-base reason eth h) ∙ op.undoes eth),
      ),
      λ back h.
          let (given, refused, same) = propagate-err (op_try_into reason) back h in
          same ∙ ap MegaHaltReason.base (op.hands_back reason given refused),
    )
    try_from_iff (MegaHaltReason.data_limit_exceeded _ _) eth = refused_iff _ eth refl (λ h. cc)
    try_from_iff (MegaHaltReason.kv_update_limit_exceeded _ _) eth =
        refused_iff _ eth refl (λ h. cc)
    try_from_iff (MegaHaltReason.compute_gas_limit_exceeded _ _) eth =
        refused_iff _ eth refl (λ h. cc)
    try_from_iff (MegaHaltReason.state_growth_limit_exceeded _ _) eth =
        refused_iff _ eth refl (λ h. cc)
    try_from_iff (MegaHaltReason.system_tx_invalid_callee _) eth = refused_iff _ eth refl (λ h. cc)
    try_from_iff (MegaHaltReason.volatile_data_access_out_of_gas _ _ _) eth =
        refused_iff _ eth refl (λ h. cc)
