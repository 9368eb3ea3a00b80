-- ===== src/Base/Word.antt =====
-- 64-bit words: unsigned values as numbers below 2 ^ 64, signed ones as integers, and Go's
-- conversions between the two.
use Prim.Native.Nat.{ℕ, ◌-◌, ◌%◌, ◌^◌}
use goyang.Base.Tests.{ltb, if◌then◌else◌}
use goyang.Base.Int.{ℤ, pos, negsuc, ◌≤ℤ◌}

abbrev pub u64_mod : ℕ
u64_mod = 2 ^ 64

abbrev pub i64_mod : ℕ
i64_mod = 2 ^ 63

abbrev pub IsI64 : ℤ → Type 0
IsI64 i = (negsuc (2 ^ 63 - 1) ≤ℤ i) × (i ≤ℤ pos (2 ^ 63 - 1))

-- `uint64(i)`
abbrev pub u64_of_i64 : ℤ → ℕ
u64_of_i64 (pos n) = n % 2 ^ 64
u64_of_i64 (negsuc n) = 2 ^ 64 - 1 - n % 2 ^ 64

-- `int64(v)`
abbrev pub i64_of_u64 : ℕ → ℤ
i64_of_u64 v = if ltb v (2 ^ 63) then pos v else negsuc (2 ^ 64 - 1 - v)

-- `-i` in int64
abbrev pub neg_i64 : ℤ → ℤ
neg_i64 i = i64_of_u64 ((2 ^ 64 - u64_of_i64 i) % 2 ^ 64)
