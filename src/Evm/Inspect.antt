-- ===== src/Evm/Inspect.antt =====
-- `JournalInspectTr` of crates/mega-evm/src/evm/host.rs: looking at accounts and slots in the
-- journal, or else in the database, without making them warm. `none` as a result is a panic.
pub mod Unvisited
pub mod Termination
pub mod Cold
use mega_evm.Prelude.{
  ℕ, suc, zero, ◌+◌, ◌*◌, ◌<◌, ◌==◌, Bool, true, false, ◌&&◌, ◌||◌, not, if◌then◌else◌, Option,
  none, some, ◌>>=◌, List, [], ◌∷◌,
}
use mega_evm.Spec.{MegaSpecId, is_enabled}
use mega_evm.Limit.Events.{DbResult}

-- A 20-byte address, and their number.
abbrev pub address_count : ℕ
address_count = 0x1_0000_0000_0000_0000_0000_0000_0000_0000_0000_0000

pub record Address : Type 0 where
  pub word : ℕ
  pub small : word < address_count

-- `Bytecode`: an EIP-7702 delegation, or code that is none.
pub data Bytecode : Type 0 where
  eip7702 : Address → Bytecode
  other : Bytecode

pub record AccountInfo : Type 0 where
  pub nonce : ℕ
  pub code_hash : ℕ
  pub code : Option Bytecode

pub record EvmStorageSlot : Type 0 where
  pub original_value : ℕ
  pub present_value : ℕ
  pub is_cold : Bool

pub record Account : Type 0 where
  pub info : AccountInfo
  pub storage : ℕ → Option EvmStorageSlot
  pub is_cold : Bool

-- `Database`, and revm's constructors of an account and a slot.
pub record Database {ℓ} (E : Type ℓ) : Type ℓ where
  pub basic : Address → DbResult E (Option AccountInfo)
  pub code_by_hash : ℕ → DbResult E Bytecode
  pub storage_value : Address → ℕ → DbResult E ℕ
  pub keccak_empty : ℕ
  pub account_of : AccountInfo → Account
  pub new_not_existing : Account
  pub new_slot : ℕ → EvmStorageSlot

-- The journal's state.
abbrev pub State : Type 0
State = ℕ → Option Account

abbrev pub set : ℕ → Account → State → State
set n account state = λ m. if m == n then some account else state m

abbrev pub mark_cold : Account → Account
mark_cold account = record account { is_cold = true }

-- `visited.contains(&address)`.
unfoldable pub contains : ℕ → List ℕ → Bool
contains n [] = false
contains n (x ∷ xs) = n == x || contains n xs

-- The address that an account delegates to.
unfoldable pub delegated_address : Account → Option Address
delegated_address account = elim account.info.code [
  | some (Bytecode.eip7702 target) ↦ some target
  | _ ↦ none
]

-- Two rounds for each address and one more.
abbrev pub enough : ℕ
enough = suc (2 * address_count + 1)

module _ {ℓ} {E : Type ℓ} where
  -- Puts a loaded account into the state; an error leaves the state as it is.
  abbrev pub insert_loaded : ℕ → State → DbResult E Account → State × DbResult E Account
  insert_loaded n state (DbResult.err e) = (state, DbResult.err e)
  insert_loaded n state (DbResult.ok account) = (set n account state, DbResult.ok account)

  -- The account as a place in the state.
  abbrev pub at_place : Address → State × DbResult E Account → State × DbResult E Address
  at_place address (state, DbResult.ok _) = (state, DbResult.ok address)
  at_place address (state, DbResult.err e) = (state, DbResult.err e)

  -- `self.inner.state.get_mut(&address).unwrap()`, a place in the state.
  unfoldable pub reload : Address → State → Option (State × DbResult E Address)
  reload address state = do _ ← state address.word; some (state, DbResult.ok address)

module _ {ℓ} {E : Type ℓ} (db : Database E) where
  open db use {
    basic, code_by_hash, storage_value, keccak_empty, account_of, new_not_existing, new_slot,
  }

  -- Whether an account in the journal has code that is not loaded.
  unfoldable pub is_code_missing : Account → Bool
  is_code_missing account = elim account.info.code [
    | none ↦ not (account.info.code_hash == keccak_empty)
    | some _ ↦ false
  ]

  -- Loads the code of an account in the journal, if it has one that is not loaded.
  unfoldable pub load_code : Account → DbResult E Account
  unfolding is_code_missing
  load_code account =
      if is_code_missing account
      then elim (code_by_hash account.info.code_hash) [
        | DbResult.err e ↦ DbResult.err e
        | DbResult.ok code ↦
            DbResult.ok (record account { info = record (account.info) { code = some code } })
      ]
      else DbResult.ok account

  -- Loads an account that the journal does not have.
  unfoldable pub load_account : Address → DbResult E Account
  load_account address = elim (basic address) [
    | DbResult.err e ↦ DbResult.err e
    | DbResult.ok none ↦ DbResult.ok (mark_cold new_not_existing)
    | DbResult.ok (some info) ↦ DbResult.ok (mark_cold (account_of info))
  ]

  unfoldable pub inspect_account : Address → State → State × DbResult E Account
  unfolding load_code load_account
  inspect_account address state = elim (state address.word) [
    | some account ↦ insert_loaded address.word state (load_code account)
    | none ↦ insert_loaded address.word state (load_account address)
  ]

  -- The loop before REX4, with fuel.
  unfoldable pub follow : ℕ → List ℕ → Address → State → Option (State × DbResult E Address)
  unfolding contains delegated_address inspect_account reload
  follow zero visited current state = none
  follow (suc fuel) visited current state =
      let (state', looked) = inspect_account current state in
      elim looked [
        | DbResult.err e ↦ some (state', DbResult.err e)
        | DbResult.ok account ↦ elim (delegated_address account) [
          | none ↦ reload current state'
          | some next ↦ elim (contains next.word visited) [
            | true ↦ reload current state'
            | false ↦ follow fuel (current.word ∷ visited) next state'
          ]
        ]
      ]

  -- What follows the look at the account itself.
  unfoldable pub resolve :
      MegaSpecId → Address → Account → State → Option (State × DbResult E Address)
  unfolding delegated_address inspect_account reload follow is_enabled
  resolve spec address account state = elim (delegated_address account) [
    | none ↦ reload address state
    | some target ↦
        if is_enabled spec MegaSpecId.rex4
        then some (at_place target (inspect_account target state))
        else follow enough (address.word ∷ []) target state
  ]

  unfoldable pub inspect_account_delegated :
      MegaSpecId → Address → State → Option (State × DbResult E Address)
  unfolding inspect_account resolve
  inspect_account_delegated spec address state =
      let (state', looked) = inspect_account address state in
      elim looked [
        | DbResult.err e ↦ some (state', DbResult.err e)
        | DbResult.ok account ↦ resolve spec address account state'
      ]

  -- The account whose storage a slot is looked for in.
  unfoldable pub storage_owner : MegaSpecId → Address → State → Option (State × DbResult E Address)
  unfolding inspect_account inspect_account_delegated is_enabled
  storage_owner spec address state =
      if is_enabled spec MegaSpecId.rex4
      then some (at_place address (inspect_account address state))
      else inspect_account_delegated spec address state

  -- The slot that the account has, at a second look.
  unfoldable pub found_slot :
      MegaSpecId → Address → ℕ → State → Option (State × DbResult E EvmStorageSlot)
  unfolding storage_owner
  found_slot spec address key state = do
    (state', owner) ← storage_owner spec address state
    elim owner [
      | DbResult.err e ↦ some (state', DbResult.err e)
      | DbResult.ok place ↦ do
        account ← state' place.word
        slot ← account.storage key
        some (state', DbResult.ok slot)
    ]

  -- Loads a slot from the database and puts it into the account, cold.
  unfoldable pub load_slot :
      MegaSpecId → Address → ℕ → State → Option (State × DbResult E EvmStorageSlot)
  unfolding storage_owner
  load_slot spec address key state = elim (storage_value address key) [
    | DbResult.err e ↦ some (state, DbResult.err e)
    | DbResult.ok value ↦ do
      (state', owner) ← storage_owner spec address state
      elim owner [
        | DbResult.err e ↦ some (state', DbResult.err e)
        | DbResult.ok place ↦ do
          account ← state' place.word
          let slot : EvmStorageSlot = record (new_slot value) { is_cold = true }
          let filled : Account = record account {
            storage = λ k. if k == key then some slot else account.storage k;
          }
          some (set place.word filled state', DbResult.ok slot)
      ]
  ]

  unfoldable pub inspect_storage :
      MegaSpecId → Address → ℕ → State → Option (State × DbResult E EvmStorageSlot)
  unfolding storage_owner load_slot found_slot
  inspect_storage spec address key state = do
    (state', owner) ← storage_owner spec address state
    elim owner [
      | DbResult.err e ↦ some (state', DbResult.err e)
      | DbResult.ok place ↦ do
        account ← state' place.word
        elim (account.storage key) [
          | none ↦ load_slot spec address key state'
          | some slot ↦ found_slot spec address key state'
        ]
    ]
