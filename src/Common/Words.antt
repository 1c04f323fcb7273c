-- ===== src/Common/Words.antt =====
-- Machine words: uint64 values are numbers below 2 ^ 64, and sums wrap.
use Prim.Native.Nat.{ℕ, ◌+◌, ◌%◌, ◌^◌, ◌<◌}

abbrev pub u64_mod : ℕ
u64_mod = 2 ^ 64

-- math.MaxUint64 and math.MaxUint32
abbrev pub max_uint64 : ℕ
max_uint64 = 18446744073709551615

abbrev pub max_uint32 : ℕ
max_uint32 = 4294967295

abbrev pub IsU64 : ℕ → Type 0
IsU64 x = x < u64_mod

-- `a + b` on uint64
abbrev pub add_u64 : ℕ → ℕ → ℕ
add_u64 a b = (a + b) % u64_mod
