-- ===== src/Evm/State/Merge.antt =====
-- What the merge of crates/mega-evm/src/evm/state.rs gives for each account.
use mathlib.Core.Path.{subst}
use mathlib.Core.Option.{some-injective}
use mega_evm.Prelude.{
  ◌==◌, [], ◌∷◌, ℕ, ◌≡◌, refl, sym, ap, ◌∙◌, Bool, true, false, if◌then◌else◌, ◌||◌, Option, none,
  some, inl, inr, Bool-cases,
}
use mega_evm.Prelude.Maps.{get, Distinct, merged, merge_entries-get, merge_entries-total}
use mega_evm.Evm.State.{
  EvmStorageSlot, EvmStorage, Account, EvmState, merge_slot, merge_evm_storage,
  merge_account_status, merge_account_state, empty_account, replace_destructed, insert_account,
  merge_account, merge_evm_state_optional_status,
}

-- EIP-6780 is applied: what is self-destructed was created, and the storage has distinct keys.
pub record IsEip6780 {Info : Type 0} (account : Account Info) : Type 0 where
  pub created : account.status.self_destructed ≡ true → account.status.created ≡ true
  pub distinct : Distinct account.storage

abbrev pub AllEip6780 : {Info : Type 0} → EvmState Info → Type 0
AllEip6780 {Info} other =
    (address : ℕ) (account : Account Info) → get address other ≡ some account → IsEip6780 account

pub AllEip6780-nil : {Info : Type 0} (other : EvmState Info) → other ≡ [] → AllEip6780 other
unfolding get
AllEip6780-nil other none_left address account = rw none_left (λ h. cc)

pub AllEip6780-cons :
    {Info : Type 0} (n : ℕ) (a : Account Info) (other : EvmState Info)
    → IsEip6780 a
    → AllEip6780 other
    → AllEip6780 ((n, a) ∷ other)
unfolding get
AllEip6780-cons n a other ok rest address account = elim (Bool-cases (address == n)) [
  | inl same ↦ rw (get, same) (λ h. subst IsEip6780 (some-injective a account h) ok)
  | inr differ ↦ rw (get, differ) (rest address account)
]

merge_slot-total :
    (slot : EvmStorageSlot) (old : Option EvmStorageSlot)
    → (new : EvmStorageSlot) × (merge_slot old slot ≡ some new)
unfolding merge_slot
merge_slot-total slot none = (_, refl)
merge_slot-total slot (some old) = (_, refl)

merge_evm_storage-total :
    (this other : EvmStorage)
    → Distinct other
    → (storage : EvmStorage) × (merge_evm_storage this other ≡ some storage)
unfolding merge_evm_storage
merge_evm_storage-total this other d =
    merge_entries-total merge_slot this other d (λ k slot old found. merge_slot-total slot old)

or_false : (b : Bool) → (b || false) ≡ b
or_false true = refl
or_false false = refl

some-cold : {Info : Type 0} (a b : Account Info) → some a ≡ some b → b.status.cold ≡ a.status.cold
some-cold a b h = ap (λ r. elim r as (λ _. Bool) [ some c ↦ c.status.cold | none ↦ true ]) (sym h)

module _ {Info : Type 0} (default_account : Account Info) where
  -- Whether an account is cold after the merge.
  abbrev pub cold_after : Option (Account Info) → Bool
  cold_after none = true
  cold_after (some old) = old.status.cold

  merge_account_state-total :
      (merge_status : Bool) (old account : Account Info)
      → account.status.self_destructed ≡ false
      → IsEip6780 account
      → (new : Account Info) × (merge_account_state default_account merge_status old account
          ≡ some new)
        × (new.status.cold ≡ old.status.cold)
  unfolding merge_account_state merge_account_status
  merge_account_state-total merge_status old account stays ok =
      let (storage, stored) = merge_evm_storage-total old.storage account.storage ok.distinct in
      elim (Bool-cases merge_status) [
        | inl on ↦ rw (stored, on, stays) (_, refl, refl)
        | inr off ↦ rw (stored, off) (_, refl, refl)
      ]

  -- One account merged: a result, as cold as it should be.
  record IsMerged (merge_status : Bool) (old : Option (Account Info)) (account : Account Info)
      : Type 0 where
    new : Account Info
    returns : merge_account default_account merge_status old account ≡ some new
    cold : default_account.status.cold ≡ false → new.status.cold ≡ cold_after old

  -- An account that was not there, and one that is self-destructed or not.
  merge_account-absent :
      (merge_status : Bool) (account : Account Info)
      → IsEip6780 account
      → IsMerged merge_status none account
  unfolding merge_account replace_destructed empty_account insert_account
  merge_account-absent merge_status account ok =
      elim (Bool-cases (account.status.self_destructed)) [
        | inl gone ↦ record {
          new = empty_account default_account true;
          returns = rw (gone, ok.created gone);
          cold = λ plain. refl;
        }
        | inr stays ↦ record {
          new = insert_account default_account account;
          returns = rw stays;
          cold = λ plain. refl;
        }
      ]

  merge_account-present :
      (merge_status : Bool) (old account : Account Info)
      → IsEip6780 account
      → IsMerged merge_status (some old) account
  unfolding merge_account replace_destructed empty_account
  merge_account-present merge_status old account ok =
      elim (Bool-cases (account.status.self_destructed)) [
        | inl gone ↦ record {
          new = empty_account default_account old.status.cold;
          returns = rw (gone, ok.created gone);
          cold = λ plain. rw plain (or_false old.status.cold);
        }
        | inr stays ↦
            let (new, made, kept) = merge_account_state-total merge_status old account stays ok in
            let replaced = replace_destructed default_account (some old) account in
            let merged_state = merge_account_state default_account merge_status old account in
            record {
              new = new;
              returns = ap (λ b. if b then replaced else merged_state) stays ∙ made;
              cold = λ plain. kept;
            }
      ]

  merge_account-IsMerged :
      (merge_status : Bool) (account : Account Info) (old : Option (Account Info))
      → IsEip6780 account
      → IsMerged merge_status old account
  merge_account-IsMerged merge_status account none ok = merge_account-absent merge_status account ok
  merge_account-IsMerged merge_status account (some old) ok =
      merge_account-present merge_status old account ok

  pub merge_evm_state-get :
      (merge_status : Bool) (this other : EvmState Info)
      → Distinct other
      → AllEip6780 other
      → (result : EvmState Info) × (merge_evm_state_optional_status default_account merge_status
            this other
          ≡ some result)
        × ((address : ℕ)
            → get address result
              ≡ merged
                  (merge_account default_account merge_status)
                  (get address this)
                  (get address other))
  unfolding merge_evm_state_optional_status
  merge_evm_state-get merge_status this other d ok =
      let f = merge_account default_account merge_status in
      let (result, returns) = merge_entries-total f this other d (λ k account old found.
        let m = merge_account-IsMerged merge_status account old (ok k account found) in
        (m.new, m.returns)) in
      (result, returns, merge_entries-get f this result other d returns)

  result-cold :
      (merge_status : Bool) (old found : Option (Account Info)) (result : Account Info)
      → default_account.status.cold ≡ false
      → ((account : Account Info) → found ≡ some account → IsEip6780 account)
      → merged (merge_account default_account merge_status) old found ≡ some result
      → result.status.cold ≡ cold_after old
  result-cold merge_status old none result plain ok h = rw h refl
  result-cold merge_status old (some account) result plain ok h =
      let m = merge_account-IsMerged merge_status account old (ok account refl) in
      some-cold m.new result (sym m.returns ∙ h) ∙ m.cold plain

  -- If the other state has distinct addresses and slots and obeys EIP-6780, and revm's default
  -- account is not cold: the merge returns, so its assertions hold; the account at each address is
  -- that of the first state merged with that of the other one, whatever the order in which the
  -- other state is walked; and an account of the first state is as cold as it was, while every
  -- other is cold.
  pub merge_evm_state-merged :
      (merge_status : Bool) (this other : EvmState Info)
      → default_account.status.cold ≡ false
      → Distinct other
      → AllEip6780 other
      → (result : EvmState Info) × (merge_evm_state_optional_status default_account merge_status
            this other
          ≡ some result)
        × ((address : ℕ)
            → get address result
              ≡ merged
                  (merge_account default_account merge_status)
                  (get address this)
                  (get address other))
        × ((address : ℕ) (account : Account Info)
            → get address result ≡ some account
            → account.status.cold ≡ cold_after (get address this))
  merge_evm_state-merged merge_status this other plain d ok =
      let (result, returns, each) = merge_evm_state-get merge_status this other d ok in
      (
        result,
        returns,
        each,
        λ address account h.
            result-cold merge_status (get address this) (get address other) account plain
              (ok address) (sym (each address) ∙ h),
      )
