-- ===== src/Sandbox/State.antt =====
-- crates/mega-evm/src/sandbox/state.rs: the database of a sandbox, which reads the journal of the
-- parent and then its database.
use mega_evm.Prelude.{ℕ, ◌==◌, if◌then◌else◌, Option, none, some, List, [], ◌∷◌}
use mega_evm.Prelude.Maps.{get, put}
use mega_evm.Limit.Events.{Address, DbResult}
use mega_evm.Evm.State.{EvmState}

-- `AccountInfo`; code is its bytes.
pub record AccountInfo : Type 0 where
  pub balance : ℕ
  pub nonce : ℕ
  pub code_hash : ℕ
  pub code : Option (List ℕ)

-- `ErasedDatabase`, with its errors as text `M`.
pub record ErasedDatabase (M : Type 0) : Type 0 where
  pub basic : Address → DbResult M (Option AccountInfo)
  pub storage : Address → ℕ → DbResult M ℕ
  pub block_hash : ℕ → DbResult M ℕ
  pub code_by_hash : ℕ → DbResult M (List ℕ)
  pub keccak_empty : ℕ

pub record SandboxDb (M : Type 0) : Type 0 where
  pub journal_state : EvmState AccountInfo
  pub db : ErasedDatabase M
  pub code_index : List (ℕ × Address)
  pub nonce_override_address : Option Address

-- The address of each code that is loaded and not empty.
unfoldable pub index_codes : EvmState AccountInfo → List (ℕ × Address) → List (ℕ × Address)
unfolding put
index_codes [] index = index
index_codes ((addr, account) ∷ state) index = index_codes state (elim account.info.code [
  | some (byte ∷ rest) ↦ put account.info.code_hash addr index
  | _ ↦ index
])

module _ {M : Type 0} where
  unfoldable pub new : EvmState AccountInfo → ErasedDatabase M → SandboxDb M
  unfolding index_codes
  new state db = record {
    journal_state = state;
    db = db;
    code_index = index_codes state [];
    nonce_override_address = none;
  }

  unfoldable pub with_nonce_override : Address → SandboxDb M → SandboxDb M
  with_nonce_override address s = record s { nonce_override_address = some address }

  -- The nonce of the signer reads as 0.
  unfoldable pub override_nonce : Address → SandboxDb M → AccountInfo → AccountInfo
  override_nonce address s info = elim s.nonce_override_address [
    | none ↦ info
    | some signer ↦ if signer == address then record info { nonce = 0 } else info
  ]

  unfoldable pub basic : Address → SandboxDb M → DbResult M (Option AccountInfo)
  unfolding override_nonce get
  basic address s = elim (get address s.journal_state) [
    | some account ↦ DbResult.ok (some (override_nonce address s account.info))
    | none ↦ elim (s.db.basic address) [
      | DbResult.err e ↦ DbResult.err e
      | DbResult.ok none ↦ DbResult.ok none
      | DbResult.ok (some info) ↦ DbResult.ok (some (override_nonce address s info))
    ]
  ]

  -- The code of an account that the index names, if the journal has it.
  unfoldable pub indexed_code : ℕ → SandboxDb M → Option (List ℕ)
  unfolding get
  indexed_code code_hash s = elim (get code_hash s.code_index) [
    | none ↦ none
    | some addr ↦ elim (get addr s.journal_state) [
      | none ↦ none
      | some account ↦ elim account.info.code [ none ↦ some [] | some code ↦ some code ]
    ]
  ]

  unfoldable pub code_by_hash : ℕ → SandboxDb M → DbResult M (List ℕ)
  unfolding indexed_code
  code_by_hash code_hash s =
      if code_hash == s.db.keccak_empty then DbResult.ok [] else elim (indexed_code code_hash s) [
        | some code ↦ DbResult.ok code
        | none ↦ s.db.code_by_hash code_hash
      ]

  unfoldable pub storage : Address → ℕ → SandboxDb M → DbResult M ℕ
  unfolding get
  storage address index s = elim (get address s.journal_state) [
    | none ↦ s.db.storage address index
    | some account ↦ elim (get index account.storage) [
      | some slot ↦ DbResult.ok slot.present_value
      | none ↦ s.db.storage address index
    ]
  ]

  unfoldable pub block_hash : ℕ → SandboxDb M → DbResult M ℕ
  block_hash number s = s.db.block_hash number
