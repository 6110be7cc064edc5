-- ===== src/Sandbox/Error.antt =====
-- crates/mega-evm/src/sandbox/error.rs: the errors of a keyless deployment and their ABI encoding.
pub mod RoundTrip
use Prim.Native.String.{String}
use mega_evm.Prelude.{ℕ, ◌==◌, ◌≡◌, refl, Bool, true, false, Option, none, some}
use mega_evm.Limit.Revm.{Revm}
use mega_evm.Limit.Additional.Frames.{MegaHaltReason}

pub data KeylessDeployError (R : Revm) : Type 0 where
  malformed_encoding not_contract_creation not_pre_eip155 : KeylessDeployError R
  non_zero_tx_nonce : ℕ → KeylessDeployError R
  no_ether_transfer invalid_signature insufficient_balance : KeylessDeployError R
  contract_already_exists : KeylessDeployError R
  signer_nonce_too_high : ℕ → KeylessDeployError R
  execution_reverted : ℕ → R.Bytes → KeylessDeployError R
  execution_halted : ℕ → MegaHaltReason R → KeylessDeployError R
  empty_code_deployed : ℕ → KeylessDeployError R
  no_contract_created address_mismatch : KeylessDeployError R
  gas_limit_too_low : ℕ → ℕ → KeylessDeployError R
  insufficient_compute_gas : ℕ → ℕ → KeylessDeployError R
  internal_error : String → KeylessDeployError R
  not_intercepted : KeylessDeployError R

-- The errors of the Solidity interface `IKeylessDeploy`.
pub data SolError : Type 0 where
  malformed_encoding not_contract_creation not_pre_eip155 non_zero_tx_nonce : SolError
  no_ether_transfer invalid_signature insufficient_balance contract_already_exists : SolError
  signer_nonce_too_high execution_reverted execution_halted empty_code_deployed : SolError
  no_contract_created address_mismatch gas_limit_too_low insufficient_compute_gas : SolError
  internal_error not_intercepted : SolError

-- The arguments of an error.
abbrev pub Arguments : Revm → SolError → Type 0
Arguments R SolError.non_zero_tx_nonce = ℕ
Arguments R SolError.signer_nonce_too_high = ℕ
Arguments R SolError.execution_reverted = ℕ × R.Bytes
Arguments R SolError.execution_halted = ℕ
Arguments R SolError.empty_code_deployed = ℕ
Arguments R SolError.gas_limit_too_low = ℕ × ℕ
Arguments R SolError.insufficient_compute_gas = ℕ × ℕ
Arguments R SolError.internal_error = String
Arguments R _ = Unit {0}

-- The generated `abi_encode` and `abi_decode` of the errors, and the plain out of gas of revm.
pub record Abi (R : Revm) : Type 0 where
  pub encode : (e : SolError) → Arguments R e → R.Bytes
  pub decode : (e : SolError) → R.Bytes → Option (Arguments R e)
  pub basic_out_of_gas : R.OpHaltReason

module _ {R : Revm} (A : Abi R) where
  open A use {encode, decode, basic_out_of_gas}

  unfoldable pub encode_error_result : KeylessDeployError R → R.Bytes
  encode_error_result KeylessDeployError.malformed_encoding = encode SolError.malformed_encoding tt
  encode_error_result KeylessDeployError.not_contract_creation =
      encode SolError.not_contract_creation tt
  encode_error_result KeylessDeployError.not_pre_eip155 = encode SolError.not_pre_eip155 tt
  encode_error_result (KeylessDeployError.non_zero_tx_nonce tx_nonce) =
      encode SolError.non_zero_tx_nonce tx_nonce
  encode_error_result KeylessDeployError.no_ether_transfer = encode SolError.no_ether_transfer tt
  encode_error_result KeylessDeployError.invalid_signature = encode SolError.invalid_signature tt
  encode_error_result KeylessDeployError.insufficient_balance =
      encode SolError.insufficient_balance tt
  encode_error_result KeylessDeployError.contract_already_exists =
      encode SolError.contract_already_exists tt
  encode_error_result (KeylessDeployError.signer_nonce_too_high signer_nonce) =
      encode SolError.signer_nonce_too_high signer_nonce
  encode_error_result (KeylessDeployError.execution_reverted gas_used output) =
      encode SolError.execution_reverted (gas_used, output)
  encode_error_result (KeylessDeployError.execution_halted gas_used _) =
      encode SolError.execution_halted gas_used
  encode_error_result (KeylessDeployError.empty_code_deployed gas_used) =
      encode SolError.empty_code_deployed gas_used
  encode_error_result KeylessDeployError.no_contract_created =
      encode SolError.no_contract_created tt
  encode_error_result KeylessDeployError.address_mismatch = encode SolError.address_mismatch tt
  encode_error_result (KeylessDeployError.gas_limit_too_low tx_gas_limit provided_gas_limit) =
      encode SolError.gas_limit_too_low (tx_gas_limit, provided_gas_limit)
  encode_error_result (KeylessDeployError.insufficient_compute_gas limit used) =
      encode SolError.insufficient_compute_gas (limit, used)
  encode_error_result (KeylessDeployError.internal_error message) =
      encode SolError.internal_error message
  encode_error_result KeylessDeployError.not_intercepted = encode SolError.not_intercepted tt

  -- `if let Ok(e) = abi_decode(output) { return Some(…) }`, and what comes after it.
  unfoldable pub try_decode :
      (e : SolError)
      → (Arguments R e → KeylessDeployError R)
      → (R.Bytes → Option (KeylessDeployError R))
      → R.Bytes
      → Option (KeylessDeployError R)
  try_decode e make rest output = elim (decode e output) [
    | some a ↦ some (make a)
    | none ↦ rest output
  ]

  -- The reason of a halt is not encoded: its place is taken by out of gas.
  unfoldable pub decode_error_result : R.Bytes → Option (KeylessDeployError R)
  unfolding try_decode
  decode_error_result =
      try_decode SolError.no_ether_transfer (λ _. KeylessDeployError.no_ether_transfer)
        (try_decode SolError.malformed_encoding (λ _. KeylessDeployError.malformed_encoding)
          (try_decode SolError.not_contract_creation (λ _. KeylessDeployError.not_contract_creation)
            (try_decode SolError.not_pre_eip155 (λ _. KeylessDeployError.not_pre_eip155)
              (try_decode SolError.non_zero_tx_nonce KeylessDeployError.non_zero_tx_nonce (
                try_decode SolError.invalid_signature (λ _. KeylessDeployError.invalid_signature)
                  (try_decode SolError.insufficient_balance
                    (λ _. KeylessDeployError.insufficient_balance)
                    (try_decode SolError.contract_already_exists
                      (λ _. KeylessDeployError.contract_already_exists)
                      (try_decode SolError.signer_nonce_too_high
                        KeylessDeployError.signer_nonce_too_high
                        (try_decode SolError.execution_reverted
                          (λ (gas_used, output).
                            KeylessDeployError.execution_reverted gas_used output)
                          (try_decode SolError.execution_halted
                            (λ gas_used.
                              KeylessDeployError.execution_halted gas_used
                                (MegaHaltReason.base basic_out_of_gas))
                            (try_decode SolError.empty_code_deployed
                              KeylessDeployError.empty_code_deployed
                              (try_decode SolError.no_contract_created
                                (λ _. KeylessDeployError.no_contract_created)
                                (try_decode SolError.address_mismatch
                                  (λ _. KeylessDeployError.address_mismatch)
                                  (try_decode SolError.gas_limit_too_low
                                    (λ (tx_gas_limit, provided).
                                      KeylessDeployError.gas_limit_too_low tx_gas_limit provided)
                                    (try_decode SolError.internal_error
                                      KeylessDeployError.internal_error
                                      (try_decode SolError.not_intercepted
                                        (λ _. KeylessDeployError.not_intercepted)
                                        (λ _. none)))))))))))))))))
