-- ===== src/Evm/SystemTx.antt =====
-- crates/mega-evm/src/system/tx.rs: the transactions of the sequencer.
use mega_evm.Prelude.{ℕ, Bool, false, ◌&&◌, ◌||◌, ◌==◌, if◌then◌else◌, List, [], ◌∷◌}
use mega_evm.Limit.Events.{Address, TxData}
use mega_evm.Access.Tracker.{oracle_contract_address}

-- `TxKind`, where a create has the address that `caller.create(nonce)` gives.
pub data TxKind : Type 0 where
  create : Address → TxKind
  call : Address → TxKind

-- What the handler reads of a `MegaTransaction`: `tokens_in_calldata` is revm's count of its
-- input, `tx_type` the answer of `tx_type()`, `transfers_value` that `value` is not zero.
pub record MegaTransaction : Type 0 where
  pub caller : Address
  pub tx_type : ℕ
  pub kind : TxKind
  pub gas_limit : ℕ
  pub gas_price : ℕ
  pub source_hash : ℕ
  pub transfers_value : Bool
  pub tokens_in_calldata : ℕ
  pub tx_data : TxData

abbrev pub mega_system_address : Address
mega_system_address = 0xA887dCB9D5f39Ef79272801d05Abdf707CFBbD1d

abbrev pub mega_system_tx_whitelist : List Address
mega_system_tx_whitelist = oracle_contract_address ∷ []

abbrev pub mega_system_transaction_source_hash : ℕ
mega_system_transaction_source_hash =
    0x852c082c0faff590c6300c2c34815d1f79882552fa95ba413cd5aeb1dba84957

-- `DEPOSIT_TRANSACTION_TYPE` of the OP stack.
abbrev pub deposit_transaction_type : ℕ
deposit_transaction_type = 0x7e

-- `slice::contains`.
abbrev pub contains : List Address → Address → Bool
contains [] address = false
contains (x ∷ xs) address = x == address || contains xs address

unfoldable pub sent_from_mega_system_address : MegaTransaction → Bool
sent_from_mega_system_address tx = tx.caller == mega_system_address

unfoldable pub check_if_mega_system_transaction : Address → ℕ → TxKind → Bool
check_if_mega_system_transaction tx_signer tx_type tx_kind =
    if tx_type == 0 && tx_signer == mega_system_address
    then elim tx_kind [
      | TxKind.create _ ↦ false
      | TxKind.call address ↦ contains mega_system_tx_whitelist address
    ]
    else false

unfoldable pub is_mega_system_transaction : MegaTransaction → Bool
unfolding check_if_mega_system_transaction
is_mega_system_transaction tx = check_if_mega_system_transaction tx.caller tx.tx_type tx.kind

unfoldable pub is_deposit_like_transaction : MegaTransaction → Bool
unfolding is_mega_system_transaction
is_deposit_like_transaction tx =
    tx.tx_type == deposit_transaction_type || is_mega_system_transaction tx
