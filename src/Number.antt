-- ===== src/Number.antt =====
-- `Number` of pkg/yang/types_builtin.go: an integer below 2 ^ 64 in absolute value, or a decimal64,
-- as a sign, an absolute value and a count of fraction digits.
--
-- `pow10` wraps around in uint64 as the code's loop does. From 64 fraction digits on it is 0 and
-- the division in `Trunc` panics in Go; here that quotient is 0. The type promises at most 18.
pub mod Scale
pub mod Order
pub mod Convert
pub mod Steps
pub mod Text
use goyang.Base.{
  ℕ, zero, suc, ◌+◌, ◌-◌, ◌*◌, ◌/◌, ◌%◌, ◌^◌, ◌≤◌, ◌<◌, ◌≡◌, Bool, true, false, not, ◌&&◌, ltb, leb,
  ◌==◌, if◌then◌else◌,
}
use goyang.Base.Int.{ℤ, pos, ltb_ℤ}
use goyang.Base.Result.{Result, ok, err}
use goyang.Base.Word.{u64_of_i64, i64_of_u64, neg_i64}

pub record Number : Type 0 where
  pub value : ℕ
  pub fraction_digits : ℕ
  pub negative : Bool

-- What the functions on numbers report.
pub data NumError : Type 0 where
  int_of_decimal signed_overflow empty_number sign_only bad_syntax out_of_range : NumError
  bad_fraction_digits : ℕ → NumError
  too_much_precision : NumError

abbrev pub max_fraction_digits : ℕ
max_fraction_digits = 18

-- The range that the type documents.
pub record IsNumber (n : Number) : Type 0 where
  pub value_fits : n.value < 2 ^ 64
  pub digits_fit : n.fraction_digits ≤ max_fraction_digits

-- No negative zero: a negative number has a nonzero absolute value.
pub record IsCanonical (n : Number) : Type 0 where
  pub is_number : IsNumber n
  pub signed : n.negative ≡ true → 0 < n.value

unfoldable pub is_decimal : Number → Bool
is_decimal n = not (n.fraction_digits == 0)

unfoldable pub pow10 : ℕ → ℕ
pow10 zero = 1
pow10 (suc e) = pow10 e * 10 % 2 ^ 64

unfoldable pub trunc : Number → ℕ
trunc n = n.value / pow10 n.fraction_digits

-- `uint8(18-frac)` wraps around; the products and the difference are in uint64.
unfoldable pub frac : Number → ℕ
frac n =
    let i = trunc n * pow10 n.fraction_digits % 2 ^ 64 in
    (n.value + 2 ^ 64 - i) % 2 ^ 64 * pow10 ((18 + 256 - n.fraction_digits) % 256) % 2 ^ 64

-- The comparison of absolute values that `Less` makes; `same` is its result on equal ones.
less_abs : Number → Number → Bool → Bool
less_abs n m negative =
    if trunc n == trunc m
    then (if frac n == frac m
        then false
        else if negative
        then not (ltb (frac n) (frac m))
        else ltb (frac n) (frac m))
    else if negative
    then not (ltb (trunc n) (trunc m))
    else ltb (trunc n) (trunc m)

unfoldable pub less : Number → Number → Bool
unfolding less_abs
less n m =
    if n.negative && not m.negative
    then true
    else if not n.negative && m.negative
    then false
    else less_abs n m n.negative

unfoldable pub equal : Number → Number → Bool
equal n m = not (less n m) && not (less m n)

unfoldable pub add_quantum : Number → ℕ → Number
add_quantum n i =
    if n.negative
    then (if leb n.value i
        then record n { value = i - n.value; negative = false }
        else record n { value = n.value - i })
    else record n { value = (n.value + i) % 2 ^ 64 }

unfoldable pub int : Number → Result NumError ℤ
unfolding is_decimal
int n =
    if is_decimal n
    then err int_of_decimal
    else if n.negative
    then ok (neg_i64 (i64_of_u64 n.value))
    else if leb n.value (2 ^ 63 - 1)
    then ok (i64_of_u64 n.value)
    else err signed_overflow

unfoldable pub from_int : ℤ → Number
from_int i =
    if ltb_ℤ i (pos 0)
    then record { value = u64_of_i64 (neg_i64 i); fraction_digits = 0; negative = true }
    else record { value = u64_of_i64 i; fraction_digits = 0; negative = false }

unfoldable pub from_uint : ℕ → Number
from_uint i = record { value = i; fraction_digits = 0; negative = false }
