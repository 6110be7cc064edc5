-- ===== src/Sandbox/Error/RoundTrip.antt =====
-- Encoding and decoding of the errors of crates/mega-evm/src/sandbox/error.rs.
use mega_evm.Prelude.{ℕ, ◌==◌, ◌≡◌, false, Option, none, some}
use mega_evm.Limit.Revm.{Revm}
use mega_evm.Limit.Additional.Frames.{MegaHaltReason}
use mega_evm.Sandbox.Error.{
  KeylessDeployError, SolError, Arguments, Abi, encode_error_result, try_decode,
  decode_error_result,
}

-- A number for each error's selector.
abbrev pub selector : SolError → ℕ
selector SolError.malformed_encoding = 0
selector SolError.not_contract_creation = 1
selector SolError.not_pre_eip155 = 2
selector SolError.non_zero_tx_nonce = 3
selector SolError.no_ether_transfer = 4
selector SolError.invalid_signature = 5
selector SolError.insufficient_balance = 6
selector SolError.contract_already_exists = 7
selector SolError.signer_nonce_too_high = 8
selector SolError.execution_reverted = 9
selector SolError.execution_halted = 10
selector SolError.empty_code_deployed = 11
selector SolError.no_contract_created = 12
selector SolError.address_mismatch = 13
selector SolError.gas_limit_too_low = 14
selector SolError.insufficient_compute_gas = 15
selector SolError.internal_error = 16
selector SolError.not_intercepted = 17

-- What the ABI promises: an encoding decodes as its own error, and as no other, since the
-- selectors differ.
pub record IsAbi {R : Revm} (A : Abi R) : Type 0 where
  pub same : (e : SolError) (a : Arguments R e) → A.decode e (A.encode e a) ≡ some a
  pub other :
      (e f : SolError) (a : Arguments R f)
      → (selector e == selector f) ≡ false
      → A.decode e (A.encode f a) ≡ none

module _ {R : Revm} (A : Abi R) (L : IsAbi A) where
  -- A try that does not match goes on, and one that matches answers.
  skip :
      (e f : SolError) (a : Arguments R f) (make : Arguments R e → KeylessDeployError R)
      (rest : R.Bytes → Option (KeylessDeployError R))
      → (selector e == selector f) ≡ false
      → try_decode A e make rest (A.encode f a) ≡ rest (A.encode f a)
  unfolding try_decode
  skip e f a make rest differ = rw (try_decode, L.other e f a differ)

  hit :
      (e : SolError) (a : Arguments R e) (make : Arguments R e → KeylessDeployError R)
      (rest : R.Bytes → Option (KeylessDeployError R))
      → try_decode A e make rest (A.encode e a) ≡ some (make a)
  unfolding try_decode
  hit e a make rest = rw (try_decode, L.same e a)

  -- What is left of an error after encoding: a halt loses its reason, and a lack of compute gas is
  -- not among what is decoded.
  abbrev pub recovered : KeylessDeployError R → Option (KeylessDeployError R)
  recovered (KeylessDeployError.execution_halted gas_used _) =
      some (KeylessDeployError.execution_halted gas_used (MegaHaltReason.base A.basic_out_of_gas))
  recovered (KeylessDeployError.insufficient_compute_gas _ _) = none
  recovered error = some error

  -- If the selectors of the ABI tell the errors apart: every error decodes as itself after its
  -- encoding, but for a halt, whose reason becomes out of gas, and for a lack of compute gas, whose
  -- encoding decodes as no error at all.
  pub decode_error_result-encode_error_result :
      (error : KeylessDeployError R)
      → decode_error_result A (encode_error_result A error) ≡ recovered error
  unfolding decode_error_result encode_error_result
  decode_error_result-encode_error_result KeylessDeployError.malformed_encoding =
      simp (decode_error_result, skip, hit)
  decode_error_result-encode_error_result KeylessDeployError.not_contract_creation =
      simp (decode_error_result, skip, hit)
  decode_error_result-encode_error_result KeylessDeployError.not_pre_eip155 =
      simp (decode_error_result, skip, hit)
  decode_error_result-encode_error_result (KeylessDeployError.non_zero_tx_nonce tx_nonce) =
      simp (decode_error_result, skip, hit)
  decode_error_result-encode_error_result KeylessDeployError.no_ether_transfer =
      simp (decode_error_result, skip, hit)
  decode_error_result-encode_error_result KeylessDeployError.invalid_signature =
      simp (decode_error_result, skip, hit)
  decode_error_result-encode_error_result KeylessDeployError.insufficient_balance =
      simp (decode_error_result, skip, hit)
  decode_error_result-encode_error_result KeylessDeployError.contract_already_exists =
      simp (decode_error_result, skip, hit)
  decode_error_result-encode_error_result (KeylessDeployError.signer_nonce_too_high signer_nonce) =
      simp (decode_error_result, skip, hit)
  decode_error_result-encode_error_result (KeylessDeployError.execution_reverted gas_used output) =
      simp (decode_error_result, skip, hit)
  decode_error_result-encode_error_result (KeylessDeployError.execution_halted gas_used reason) =
      simp (decode_error_result, skip, hit)
  decode_error_result-encode_error_result (KeylessDeployError.empty_code_deployed gas_used) =
      simp (decode_error_result, skip, hit)
  decode_error_result-encode_error_result KeylessDeployError.no_contract_created =
      simp (decode_error_result, skip, hit)
  decode_error_result-encode_error_result KeylessDeployError.address_mismatch =
      simp (decode_error_result, skip, hit)
  decode_error_result-encode_error_result
        (KeylessDeployError.gas_limit_too_low tx_gas_limit provided) =
      simp (decode_error_result, skip, hit)
  decode_error_result-encode_error_result (KeylessDeployError.insufficient_compute_gas limit used) =
      simp (decode_error_result, skip, hit)
  decode_error_result-encode_error_result (KeylessDeployError.internal_error message) =
      simp (decode_error_result, skip, hit)
  decode_error_result-encode_error_result KeylessDeployError.not_intercepted =
      simp (decode_error_result, skip, hit)
