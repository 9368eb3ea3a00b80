-- ===== src/Number/Convert.antt =====
-- `FromInt`, `FromUint` and `Int`: between numbers and machine integers.
use Prim.Native.Nat.{◌-◌}
use goyang.Base.{ℕ, ◌+◌, ◌*◌, ◌^◌, ◌≤◌, ◌<◌, ◌≡◌, ◌↔◌, true, arith, ltb, if◌then◌else◌}
use goyang.Base.Int.{ℤ, pos, negsuc, ◌<ℤ◌, pos_part, neg_part}
use goyang.Base.Result.{ok, err}
use goyang.Base.Word.{IsI64}
use goyang.Number.{signed_overflow, IsCanonical, int, from_int, from_uint, less}
use goyang.Number.Scale.{rank, origin, scaled}
use goyang.Number.Order.{less-rank}

pub from_int-IsCanonical : (i : ℤ) → IsI64 i → IsCanonical (from_int i)
unfolding from_int
from_int-IsCanonical (pos n) h = ground arith
from_int-IsCanonical (negsuc n) h = ground arith

-- Every int64, the least one included, comes back from the number made of it.
pub int-from_int : (i : ℤ) → IsI64 i → int (from_int i) ≡ ok i
unfolding int from_int
int-from_int (pos n) h = ground arith
int-from_int (negsuc n) h = ground arith

rank-from_int :
    (i : ℤ)
    → IsI64 i
    → (neg_part i ≤ 2 ^ 64)
      × (rank (from_int i) ≡ origin + pos_part i * 10 ^ 18 - neg_part i * 10 ^ 18)
unfolding from_int rank scaled
rank-from_int (pos n) h = ground arith
rank-from_int (negsuc n) h = ground arith

-- `Less` on numbers made of machine integers is the order of the integers.
pub less-from_int :
    (i j : ℤ) → IsI64 i → IsI64 j → (less (from_int i) (from_int j) ≡ true) ↔ (i <ℤ j)
less-from_int i j hi hj =
    rw (less-rank (from_int-IsCanonical i hi) (from_int-IsCanonical j hj))
      (ground (arith, rank-from_int i hi, rank-from_int j hj))

-- A negative number beyond the int64 range is not reported: it comes back as a positive int64.
pub int_wraps :
    (v : ℕ)
    → 2 ^ 63 < v
    → v < 2 ^ 64
    → int (record { value = v; fraction_digits = 0; negative = true }) ≡ ok (pos (2 ^ 64 - v))
unfolding int
int_wraps v lo hi = ground arith

-- A positive one is.
pub int-from_uint :
    (v : ℕ)
    → v < 2 ^ 64
    → int (from_uint v) ≡ (if ltb v (2 ^ 63) then ok (pos v) else err signed_overflow)
unfolding int from_uint
int-from_uint v h = ground arith
