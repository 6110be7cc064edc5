-- ===== src/Block/Executor/Bounds.antt =====
-- What the limiter of crates/mega-evm/src/block/executor.rs guarantees of a whole block.
use mega_evm.Prelude.{
  ℕ, ◌+◌, ◌≤◌, ◌<◌, ◌≡◌, refl, ap, ◌∙◌, ◌⊎◌, inl, inr, if◌then◌else◌, List, [], ◌∷◌, u64_mod, arith,
}
use mega_evm.Block.Limits.{BlockLimits}
use mega_evm.Block.Limiter.{
  BlockLimiter, LimitError, Verdict, accepted, rejected, pre_execution_check,
  post_execution_update_raw,
}
use mega_evm.Block.Limiter.Admission.{NoWrap, Admissible, pre_execution_check-Admissible}
use mega_evm.Block.Executor.{Outcome, commit_transaction_outcome, commit_all}

-- An outcome is plausible for a bound: a transaction uses no more gas than its gas limit, and no
-- quantity of it is over the bound.
pub record IsPlausible (bound : ℕ) (o : Outcome) : Type 0 where
  pub gas_le : o.usage.gas_used ≤ o.gas_limit
  pub gas_limit_le : o.gas_limit ≤ bound
  pub size_le : o.usage.tx_size ≤ bound
  pub da_le : o.usage.da_size ≤ bound
  pub data_le : o.usage.tx_data ≤ bound
  pub kv_le : o.usage.kv_updates ≤ bound
  pub compute_le : o.usage.compute_gas_used ≤ bound
  pub growth_le : o.usage.state_growth_used ≤ bound

abbrev pub AllPlausible : ℕ → List Outcome → Type 0
AllPlausible bound [] = Unit {0}
AllPlausible bound (o ∷ os) = IsPlausible bound o × AllPlausible bound os

-- The limits leave room for one more transaction below 2^64.
pub record LeavesRoom (bound : ℕ) (l : BlockLimits) : Type 0 where
  pub gas_room : l.block_gas_limit + bound < u64_mod
  pub size_room : l.block_txs_encode_size_limit + bound < u64_mod
  pub da_room : l.block_da_size_limit + bound < u64_mod
  pub data_room : l.block_txs_data_limit + bound < u64_mod
  pub kv_room : l.block_kv_update_limit + bound < u64_mod
  pub compute_room : l.block_compute_gas_limit + bound < u64_mod
  pub growth_room : l.block_state_growth_limit + bound < u64_mod

-- Gas, encoded size and data availability size are within the block's limits; the four resources
-- that are only known after execution are over theirs by less than one transaction.
pub record IsBounded (bound : ℕ) (b : BlockLimiter) : Type 0 where
  pub gas_ok : b.block_gas_used ≤ b.limits.block_gas_limit
  pub size_ok : b.block_tx_size_used ≤ b.limits.block_txs_encode_size_limit
  pub da_ok : b.block_da_size_used ≤ b.limits.block_da_size_limit
  pub data_ok : b.block_data_used ≤ b.limits.block_txs_data_limit + bound
  pub kv_ok : b.block_kv_updates_used ≤ b.limits.block_kv_update_limit + bound
  pub compute_ok : b.block_compute_gas_used ≤ b.limits.block_compute_gas_limit + bound
  pub growth_ok : b.block_state_growth_used ≤ b.limits.block_state_growth_limit + bound

-- The sum of a quantity over outcomes.
abbrev pub total : (Outcome → ℕ) → List Outcome → ℕ
total quantity [] = 0
total quantity (o ∷ os) = quantity o + total quantity os

-- What an outcome takes of the block's data availability size: nothing if it is a deposit.
abbrev pub charged_da : Outcome → ℕ
charged_da o = if o.usage.is_deposit then 0 else o.usage.da_size

-- The block has been charged for just these outcomes.
pub record IsCharged (os : List Outcome) (b b' : BlockLimiter) : Type 0 where
  pub gas_sum : b'.block_gas_used ≡ b.block_gas_used + total (λ o. o.usage.gas_used) os
  pub size_sum : b'.block_tx_size_used ≡ b.block_tx_size_used + total (λ o. o.usage.tx_size) os
  pub da_sum : b'.block_da_size_used ≡ b.block_da_size_used + total charged_da os
  pub data_sum : b'.block_data_used ≡ b.block_data_used + total (λ o. o.usage.tx_data) os
  pub kv_sum :
      b'.block_kv_updates_used ≡ b.block_kv_updates_used + total (λ o. o.usage.kv_updates) os
  pub compute_sum :
      b'.block_compute_gas_used
      ≡ b.block_compute_gas_used + total (λ o. o.usage.compute_gas_used) os
  pub growth_sum :
      b'.block_state_growth_used
      ≡ b.block_state_growth_used + total (λ o. o.usage.state_growth_used) os

abbrev pub if_accepted : Verdict → Outcome → List Outcome → List Outcome
if_accepted accepted o os = o ∷ os
if_accepted (rejected e) o os = os

-- Those of the outcomes that are committed, each judged by the block as it is then.
unfoldable pub accepted_of : List Outcome → BlockLimiter → List Outcome
accepted_of [] b = []
accepted_of (o ∷ os) b =
    if_accepted (commit_transaction_outcome o b).1 o
      (accepted_of os (commit_transaction_outcome o b).0)

update_raw-IsCharged :
    (bound : ℕ) (o : Outcome) (b : BlockLimiter)
    → IsPlausible bound o
    → LeavesRoom bound b.limits
    → IsBounded bound b
    → Admissible o.gas_limit o.usage.tx_size o.usage.da_size o.usage.is_deposit b
    → IsCharged (o ∷ []) b (post_execution_update_raw o.usage b)
unfolding post_execution_update_raw
update_raw-IsCharged bound o b p r i a = ground arith

update_raw-IsBounded :
    (bound : ℕ) (o : Outcome) (b : BlockLimiter)
    → IsPlausible bound o
    → LeavesRoom bound b.limits
    → IsBounded bound b
    → Admissible o.gas_limit o.usage.tx_size o.usage.da_size o.usage.is_deposit b
    → IsBounded bound (post_execution_update_raw o.usage b)
unfolding post_execution_update_raw
update_raw-IsBounded bound o b p r i a = ground arith

room-NoWrap :
    (bound : ℕ) (o : Outcome) (b : BlockLimiter)
    → IsPlausible bound o
    → LeavesRoom bound b.limits
    → IsBounded bound b
    → NoWrap o.gas_limit o.usage.tx_size o.usage.da_size b
room-NoWrap bound o b p r i = record {
  gas_fits = omega arith;
  size_fits = omega arith;
  da_fits = omega arith;
}

Verdict-cases : (v : Verdict) → (v ≡ accepted) ⊎ ((e : LimitError) × (v ≡ rejected e))
Verdict-cases accepted = inl refl
Verdict-cases (rejected e) = inr (e, refl)

abbrev verdict_of : Outcome → BlockLimiter → Verdict
verdict_of o b =
    pre_execution_check o.gas_limit o.usage.tx_size o.usage.da_size o.usage.is_deposit b

commit_accepted :
    (o : Outcome) (b : BlockLimiter)
    → verdict_of o b ≡ accepted
    → commit_transaction_outcome o b ≡ (post_execution_update_raw o.usage b, accepted)
unfolding commit_transaction_outcome
commit_accepted o b h = rw (commit_transaction_outcome, h)

commit_rejected :
    (o : Outcome) (b : BlockLimiter) (e : LimitError)
    → verdict_of o b ≡ rejected e
    → commit_transaction_outcome o b ≡ (b, rejected e)
unfolding commit_transaction_outcome
commit_rejected o b e h = rw (commit_transaction_outcome, h)

commit_accepted-IsBounded :
    (bound : ℕ) (o : Outcome) (b : BlockLimiter)
    → IsPlausible bound o
    → LeavesRoom bound b.limits
    → IsBounded bound b
    → verdict_of o b ≡ accepted
    → (((post_execution_update_raw o.usage b).limits) ≡ b.limits)
      × IsBounded bound (post_execution_update_raw o.usage b)
      × IsCharged (o ∷ []) b (post_execution_update_raw o.usage b)
unfolding post_execution_update_raw
commit_accepted-IsBounded bound o b p r i h =
    let admissible =
      (pre_execution_check-Admissible o.gas_limit o.usage.tx_size o.usage.da_size o.usage.is_deposit
          b (room-NoWrap bound o b p r i)).0
        h in
    (
      refl,
      update_raw-IsBounded bound o b p r i admissible,
      update_raw-IsCharged bound o b p r i admissible,
    )

IsCharged-cons :
    (o : Outcome) (os : List Outcome) (b b' b'' : BlockLimiter)
    → IsCharged (o ∷ []) b b'
    → IsCharged os b' b''
    → IsCharged (o ∷ os) b b''
IsCharged-cons o os b b' b'' first rest = omega arith

commit_all-accepted :
    (o : Outcome) (os : List Outcome) (b : BlockLimiter)
    → verdict_of o b ≡ accepted
    → (accepted_of (o ∷ os) b ≡ o ∷ accepted_of os (post_execution_update_raw o.usage b))
      × (commit_all (o ∷ os) b ≡ commit_all os (post_execution_update_raw o.usage b))
unfolding accepted_of commit_all
commit_all-accepted o os b h = (
  ap (λ (x : BlockLimiter × Verdict). if_accepted x.1 o (accepted_of os x.0))
      (commit_accepted o b h),
  ap (λ (x : BlockLimiter × Verdict). commit_all os x.0) (commit_accepted o b h),
)

commit_all-rejected :
    (o : Outcome) (os : List Outcome) (b : BlockLimiter) (e : LimitError)
    → verdict_of o b ≡ rejected e
    → (accepted_of (o ∷ os) b ≡ accepted_of os b) × (commit_all (o ∷ os) b ≡ commit_all os b)
unfolding accepted_of commit_all
commit_all-rejected o os b e h = (
  ap (λ (x : BlockLimiter × Verdict). if_accepted x.1 o (accepted_of os x.0))
      (commit_rejected o b e h),
  ap (λ (x : BlockLimiter × Verdict). commit_all os x.0) (commit_rejected o b e h),
)

commit_all-nil : (b : BlockLimiter) → (accepted_of [] b ≡ []) × (commit_all [] b ≡ b)
unfolding accepted_of commit_all
commit_all-nil b = (refl, refl)

-- Over any sequence of outcomes, accepted or rejected, whose quantities are at most `bound` and
-- whose gas is within their gas limits, from a limiter within bounds whose limits leave room for
-- `bound` below 2^64: the limits stay, the gas, the encoded size and the data availability size
-- of the block stay within their limits, and its data, key-value updates, compute gas and state
-- growth are over theirs by at most `bound`; and each of the seven is what it was and the sum of
-- what the accepted outcomes have used, to data availability only those that are no deposits.
pub commit_all-IsBounded :
    (bound : ℕ) (os : List Outcome) (b : BlockLimiter)
    → AllPlausible bound os
    → LeavesRoom bound b.limits
    → IsBounded bound b
    → ((commit_all os b).limits ≡ b.limits)
      × IsBounded bound (commit_all os b)
      × IsCharged (accepted_of os b) b (commit_all os b)
commit_all-IsBounded bound [] b p r i =
    let (none_accepted, same) = commit_all-nil b in rw (none_accepted, same) (refl, i, omega arith)
commit_all-IsBounded bound (o ∷ os) b p r i = elim (Verdict-cases (verdict_of o b)) [
  | inl h ↦
      let (same, bounded, charged) = commit_accepted-IsBounded bound o b p.0 r i h in
      let next = post_execution_update_raw o.usage b in
      let (rest, within, sums) = commit_all-IsBounded bound os next p.1 (rw same r) bounded in
      let (taken, goes_on) = commit_all-accepted o os b h in
      rw (taken, goes_on)
        (rest ∙ same, within, IsCharged-cons o (accepted_of os next) b next _ charged sums)
  | inr (e, h) ↦
      let (left_out, goes_on) = commit_all-rejected o os b e h in
      rw (left_out, goes_on) (commit_all-IsBounded bound os b p.1 r i)
]
