-- ===== src/Limit/Events.antt =====
-- What the limit trackers of crates/mega-evm/src/limit read of revm's values. The fields are the
-- answers of revm's accessors, so that the trackers depend on nothing else of them.
use mega_evm.Prelude.{ℕ, ◌≡◌, ◌↔◌, ◌⊎◌, inl, inr, refl, Bool, true, Option, List}

-- A 20-byte address; addresses are only compared.
abbrev pub Address : Type 0
Address = ℕ

-- `MegaTransaction`: the length of the input, the sizes of the access list's items, and for each
-- EIP-7702 authorization whether `authority()` recovers an address.
pub record TxData : Type 0 where
  pub input_len : ℕ
  pub access_sizes : Option (List ℕ)
  pub authorities : List Bool

-- `FrameInput`. A call has its target, `transfers_value()`, its gas limit and the range of memory
-- (start and end) for the returned value; a create has its gas limit.
pub data FrameInput : Type 0 where
  call : Address → Bool → ℕ → ℕ × ℕ → FrameInput
  create : ℕ → FrameInput
  empty : FrameInput

-- `frame.data`: a call frame, or a create frame with `created_address()`.
pub data FrameData : Type 0 where
  call_frame : FrameData
  create_frame : Option Address → FrameData

-- `SStoreResult`: the slot's values at the start of the transaction, before the write and after
-- it, and the answers of `is_original_eq_present()` and `is_original_eq_new()`.
pub record SStoreResult : Type 0 where
  pub original_value : ℕ
  pub present_value : ℕ
  pub new_value : ℕ
  pub is_original_eq_present : Bool
  pub is_original_eq_new : Bool

-- What revm documents of the two accessors.
pub record IsFaithful (r : SStoreResult) : Type 0 where
  pub present_iff : (r.is_original_eq_present ≡ true) ↔ (r.original_value ≡ r.present_value)
  pub new_iff : (r.is_original_eq_new ≡ true) ↔ (r.original_value ≡ r.new_value)

-- `Result<A, DBError>`.
pub data DbResult {ℓ κ} (E : Type ℓ) (A : Type κ) : Type (ℓ ⊔ κ) where
  ok : A → DbResult E A
  err : E → DbResult E A

pub DbResult-cases {ℓ κ} :
    {E : Type ℓ} {A : Type κ} (r : DbResult E A)
    → ((a : A) × (r ≡ DbResult.ok a)) ⊎ ((e : E) × (r ≡ DbResult.err e))
DbResult-cases (DbResult.ok a) = inl (a, refl)
DbResult-cases (DbResult.err e) = inr (e, refl)
