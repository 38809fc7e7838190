-- ===== src/Base/Int.antt =====
-- Signed machine integers: an `int64` is an integer, and a bit pattern is read in two's complement.
use Prim.Native.Nat.{ℕ, ◌-◌, ◌%◌, ◌<◌}
use mathlib.Core.Path.{◌≡◌}
use mathlib.Core.Bool.{Bool, true}
use native.Mathlib.Omega.{arith}
use example_envoy_xds.Base.Tests.{ltb, if◌then◌else◌, ◌==◌}

-- `negsuc n` is -(n + 1).
pub data ℤ : Type 0 where
  pos : ℕ → ℤ
  negsuc : ℕ → ℤ

abbrev pub u32_mod : ℕ
u32_mod = 4294967296

abbrev pub u64_mod : ℕ
u64_mod = 18446744073709551616

abbrev pub i64_max : ℕ
i64_max = 9223372036854775807

-- the `int64` with the bits of a natural number
unfoldable pub int64 : ℕ → ℤ
int64 n = let m = n % u64_mod in if ltb i64_max m then negsuc (u64_mod - m - 1) else pos m

pub int64-pos : (n : ℕ) → n < 9223372036854775808 → int64 n ≡ pos n
unfolding int64
int64-pos n h = ground arith

-- `x < 1`
abbrev pub below_one : ℤ → Bool
below_one (pos n) = n == 0
below_one (negsuc n) = true
