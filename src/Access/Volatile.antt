-- ===== src/Access/Volatile.antt =====
-- crates/mega-evm/src/access/volatile.rs: the bitmap of volatile data, a `u16`.
use Prim.Native.Nat.{bit_and, bit_or}
use mega_evm.Prelude.{ℕ, zero, suc, ◌+◌, ◌/◌, ◌%◌, ◌^◌, Bool, not, ◌==◌, if◌then◌else◌}

abbrev pub VolatileDataAccess : Type 0
VolatileDataAccess = ℕ

-- The Solidity enum whose variants number the bits.
pub data VolatileDataAccessType : Type 0 where
  block_number timestamp coinbase difficulty gas_limit base_fee : VolatileDataAccessType
  prev_randao block_hash blob_base_fee blob_hash beneficiary oracle : VolatileDataAccessType

-- `ty as u8`.
abbrev pub discriminant : VolatileDataAccessType → ℕ
discriminant VolatileDataAccessType.block_number = 0
discriminant VolatileDataAccessType.timestamp = 1
discriminant VolatileDataAccessType.coinbase = 2
discriminant VolatileDataAccessType.difficulty = 3
discriminant VolatileDataAccessType.gas_limit = 4
discriminant VolatileDataAccessType.base_fee = 5
discriminant VolatileDataAccessType.prev_randao = 6
discriminant VolatileDataAccessType.block_hash = 7
discriminant VolatileDataAccessType.blob_base_fee = 8
discriminant VolatileDataAccessType.blob_hash = 9
discriminant VolatileDataAccessType.beneficiary = 10
discriminant VolatileDataAccessType.oracle = 11

-- `1 << 10` and `1 << 11`.
abbrev pub beneficiary_balance : VolatileDataAccess
beneficiary_balance = 0x400

abbrev pub oracle_access : VolatileDataAccess
oracle_access = 0x800

abbrev pub block_env_mask : ℕ
block_env_mask = 0b0000_0011_1111_1111

-- `empty`, `is_empty`, `insert` and `contains` of `bitflags`.
abbrev pub no_access : VolatileDataAccess
no_access = 0

unfoldable pub is_empty : VolatileDataAccess → Bool
is_empty bits = bits == 0

unfoldable pub insert : VolatileDataAccess → VolatileDataAccess → VolatileDataAccess
insert flags bits = bit_or bits flags

unfoldable pub contains : VolatileDataAccess → VolatileDataAccess → Bool
contains flags bits = bit_and bits flags == flags

unfoldable pub has_block_env_access : VolatileDataAccess → Bool
has_block_env_access bits = not (bit_and bits block_env_mask == 0)

unfoldable pub has_beneficiary_balance_access : VolatileDataAccess → Bool
unfolding contains
has_beneficiary_balance_access = contains beneficiary_balance

unfoldable pub has_oracle_access : VolatileDataAccess → Bool
unfolding contains
has_oracle_access = contains oracle_access

-- The number of ones in the lowest `width` bits.
count_ones : ℕ → ℕ → ℕ
count_ones zero bits = 0
count_ones (suc width) bits = bits % 2 + count_ones width (bits / 2)

unfoldable pub count_block_env_accessed : VolatileDataAccess → ℕ
unfolding count_ones
count_block_env_accessed bits = count_ones 16 (bit_and bits block_env_mask)

-- The number of zeros below the lowest one, at most `width`.
trailing_zeros : ℕ → ℕ → ℕ
trailing_zeros zero bits = 0
trailing_zeros (suc width) bits =
    let above = trailing_zeros width (bits / 2) in if bits % 2 == 0 then suc above else 0

-- Only called with a bit set.
unfoldable pub as_u8 : VolatileDataAccess → ℕ
unfolding trailing_zeros
as_u8 bits = trailing_zeros 16 bits

-- Every bit of the result is one of the twelve flags, so nothing is truncated.
unfoldable pub block_env_only : VolatileDataAccess → VolatileDataAccess
block_env_only bits = bit_and bits block_env_mask

unfoldable pub from : VolatileDataAccessType → VolatileDataAccess
from ty = 2 ^ discriminant ty
