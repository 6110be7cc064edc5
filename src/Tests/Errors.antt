-- ===== src/Tests/Errors.antt =====
-- A toy ABI with selectors, for the errors of a keyless deployment.
use Prim.Native.String.{String}
use mega_evm.Prelude.{ℕ, ◌==◌, ◌≡◌, refl, true, false, if◌then◌else◌, Option, none, some, arith}
use mega_evm.Limit.Revm.{Revm}
use mega_evm.Sandbox.Error.{
  KeylessDeployError, SolError, Arguments, Abi, encode_error_result, decode_error_result,
}
use mega_evm.Sandbox.Error.RoundTrip.{IsAbi, selector, decode_error_result-encode_error_result}

data Encoded : Type 0 where
  blank : Encoded
  number : ℕ → Encoded
  pair : ℕ → ℕ → Encoded
  output : ℕ → Encoded → Encoded
  message : String → Encoded
  selected : ℕ → Encoded → Encoded

abbrev encoding_revm : Revm
encoding_revm = record {
  InstructionResult = ℕ;
  revert = 1;
  out_of_gas = 2;
  is_ok = λ r. r == 0;
  Bytes = Encoded;
  no_bytes = Encoded.blank;
  bytes_len = λ b. 0;
  mega_limit_exceeded = λ kind limit. Encoded.pair kind limit;
  Gas = ℕ;
  new_gas = λ limit. limit;
  gas_remaining = λ gas. gas;
  OpHaltReason = ℕ;
  is_basic_out_of_gas = λ r. r == 0;
}

abbrev write : (e : SolError) → Arguments encoding_revm e → Encoded
write SolError.malformed_encoding a = Encoded.blank
write SolError.not_contract_creation a = Encoded.blank
write SolError.not_pre_eip155 a = Encoded.blank
write SolError.non_zero_tx_nonce n = Encoded.number n
write SolError.no_ether_transfer a = Encoded.blank
write SolError.invalid_signature a = Encoded.blank
write SolError.insufficient_balance a = Encoded.blank
write SolError.contract_already_exists a = Encoded.blank
write SolError.signer_nonce_too_high n = Encoded.number n
write SolError.execution_reverted (n, bytes) = Encoded.output n bytes
write SolError.execution_halted n = Encoded.number n
write SolError.empty_code_deployed n = Encoded.number n
write SolError.no_contract_created a = Encoded.blank
write SolError.address_mismatch a = Encoded.blank
write SolError.gas_limit_too_low (m, n) = Encoded.pair m n
write SolError.insufficient_compute_gas (m, n) = Encoded.pair m n
write SolError.internal_error s = Encoded.message s
write SolError.not_intercepted a = Encoded.blank

abbrev read_number : Encoded → Option ℕ
read_number (Encoded.number n) = some n
read_number _ = none

abbrev read_pair : Encoded → Option (ℕ × ℕ)
read_pair (Encoded.pair m n) = some (m, n)
read_pair _ = none

abbrev read_output : Encoded → Option (ℕ × Encoded)
read_output (Encoded.output n b) = some (n, b)
read_output _ = none

abbrev read_message : Encoded → Option String
read_message (Encoded.message s) = some s
read_message _ = none

abbrev read : (e : SolError) → Encoded → Option (Arguments encoding_revm e)
read SolError.malformed_encoding b = some tt
read SolError.not_contract_creation b = some tt
read SolError.not_pre_eip155 b = some tt
read SolError.non_zero_tx_nonce b = read_number b
read SolError.no_ether_transfer b = some tt
read SolError.invalid_signature b = some tt
read SolError.insufficient_balance b = some tt
read SolError.contract_already_exists b = some tt
read SolError.signer_nonce_too_high b = read_number b
read SolError.execution_reverted b = read_output b
read SolError.execution_halted b = read_number b
read SolError.empty_code_deployed b = read_number b
read SolError.no_contract_created b = some tt
read SolError.address_mismatch b = some tt
read SolError.gas_limit_too_low b = read_pair b
read SolError.insufficient_compute_gas b = read_pair b
read SolError.internal_error b = read_message b
read SolError.not_intercepted b = some tt

abbrev decode_selected : (e : SolError) → Encoded → Option (Arguments encoding_revm e)
decode_selected e (Encoded.selected s b) = if selector e == s then read e b else none
decode_selected e _ = none

abbrev abi : Abi encoding_revm
abi = record {
  encode = λ e a. Encoded.selected (selector e) (write e a);
  decode = decode_selected;
  basic_out_of_gas = 0;
}

read-write : (e : SolError) (a : Arguments encoding_revm e) → read e (write e a) ≡ some a
read-write SolError.malformed_encoding a = refl
read-write SolError.not_contract_creation a = refl
read-write SolError.not_pre_eip155 a = refl
read-write SolError.non_zero_tx_nonce a = refl
read-write SolError.no_ether_transfer a = refl
read-write SolError.invalid_signature a = refl
read-write SolError.insufficient_balance a = refl
read-write SolError.contract_already_exists a = refl
read-write SolError.signer_nonce_too_high a = refl
read-write SolError.execution_reverted a = refl
read-write SolError.execution_halted a = refl
read-write SolError.empty_code_deployed a = refl
read-write SolError.no_contract_created a = refl
read-write SolError.address_mismatch a = refl
read-write SolError.gas_limit_too_low a = refl
read-write SolError.insufficient_compute_gas a = refl
read-write SolError.internal_error a = refl
read-write SolError.not_intercepted a = refl

decode_selected-same :
    (e : SolError) (a : Arguments encoding_revm e) → abi.decode e (abi.encode e a) ≡ some a
decode_selected-same e a =
    let same : (selector e == selector e) ≡ true = ground arith in rw same (read-write e a)

decode_selected-other :
    (e f : SolError) (a : Arguments encoding_revm f)
    → (selector e == selector f) ≡ false
    → abi.decode e (abi.encode f a) ≡ none
decode_selected-other e f a differ = rw differ

abi-IsAbi : IsAbi abi
abi-IsAbi = record { same = decode_selected-same; other = decode_selected-other }

-- A lack of compute gas, which decodes as no error.
decode_error_result-encode_error_result_example :
    decode_error_result abi
      (encode_error_result abi (KeylessDeployError.insufficient_compute_gas 100 120))
    ≡ none
decode_error_result-encode_error_result_example =
    decode_error_result-encode_error_result abi abi-IsAbi
      (KeylessDeployError.insufficient_compute_gas 100 120)
