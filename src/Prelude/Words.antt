-- ===== src/Prelude/Words.antt =====
-- Rust's `u64` and `u128`: plain numbers, with the wrap-around of a release build written out.
-- `saturating_sub` is the truncated `-` of the native numbers.
use Prim.Native.Nat.{ℕ, ◌+◌, ◌-◌, ◌*◌, ◌%◌}
use mathlib.Core.Option.{Option, none, some}
use mega_evm.Prelude.Tests.{ltb, if◌then◌else◌}

abbrev pub u64_mod : ℕ
u64_mod = 0x1_0000_0000_0000_0000

abbrev pub u64_max : ℕ
u64_max = 0xffff_ffff_ffff_ffff

abbrev pub u128_mod : ℕ
u128_mod = u64_mod * u64_mod

-- `a + b` and `a * b` on `u64`.
abbrev pub add64 : ℕ → ℕ → ℕ
add64 a b = (a + b) % u64_mod

abbrev pub mul64 : ℕ → ℕ → ℕ
mul64 a b = (a * b) % u64_mod

-- `a - b` on `u64`.
abbrev pub sub64 : ℕ → ℕ → ℕ
sub64 a b = (a + u64_mod - b) % u64_mod

-- `a.checked_add(b)`.
abbrev pub checked_add64 : ℕ → ℕ → Option ℕ
checked_add64 a b = if ltb (a + b) u64_mod then some (a + b) else none

-- `a.saturating_add(b)`.
abbrev pub saturating_add64 : ℕ → ℕ → ℕ
saturating_add64 a b = if ltb (a + b) u64_mod then a + b else u64_max
