-- ===== src/Tests/Numbers.antt =====
-- Runs of the number functions, and instances of their theorems.
use goyang.Base.{
  ℕ, ◌+◌, ◌-◌, ◌^◌, ◌<◌, ◌≡◌, ◌↔◌, refl, true, false, inl, inr, arith, codes, Bool, ◌==◌,
  if◌then◌else◌,
}
use goyang.Base.Result.{ok, err}
use goyang.Base.Strconv.{parse_uint0}
use goyang.Number.{
  Number, IsCanonical, out_of_range, bad_syntax, sign_only, too_much_precision, less,
}
use goyang.Number.Order.{less_iff}
use goyang.Number.Scale.{rank}
use goyang.Number.Text.{string, parse_int, parse_decimal}
use goyang.Number.Text.Decimals.RoundTrip.{parse_decimal-string}
use goyang.Number.Text.RoundTrip.{parse_int-string}

abbrev number : ℕ → ℕ → Bool → Number
number v d negative = record { value = v; fraction_digits = d; negative = negative }

prints :
    (string (number 42 0 true) ≡ codes "-42")
    × (string (number 5 3 false) ≡ codes "0.005")
    × (string (number 12345 2 true) ≡ codes "-123.45")
unfolding string goyang.Base.Strconv.format_uint
prints = (refl, refl, refl)

reads :
    (parse_int (codes " 0x1F ") ≡ ok (number 31 0 false))
    × (parse_int (codes "-017") ≡ ok (number 15 0 true))
    × (parse_int (codes "1_000") ≡ ok (number 1000 0 false))
    × (parse_int (codes "18446744073709551616") ≡ err out_of_range)
    × (parse_int (codes "1__0") ≡ err bad_syntax)
    × (parse_int (codes "-") ≡ err sign_only)
    × (parse_decimal (codes "3.14") 4 ≡ ok (number 31400 4 false))
    × (parse_decimal (codes "-.5") 1 ≡ ok (number 5 1 true))
    × (parse_decimal (codes "3.141") 2 ≡ err too_much_precision)
unfolding parse_int parse_decimal parse_uint0 goyang.Base.Strings.trim_space
    goyang.Base.Strings.index goyang.Base.Strconv.parse_int10
reads = (refl, refl, refl, refl, refl, refl, refl, refl, refl)

-- A negative zero counts as less than zero.
negative_zero : less (number 0 0 true) (number 0 0 false) ≡ true
unfolding less
negative_zero = refl

minus_half : IsCanonical (number 5 1 true)
minus_half = ground arith

minus_tenth : IsCanonical (number 10 2 true)
minus_tenth = ground arith

minus_half' : IsCanonical (number 50 2 true)
minus_half' = ground arith

less_iff_example :
    (less (number 5 1 true) (number 10 2 true) ≡ true)
    ↔ (rank (number 5 1 true) < rank (number 10 2 true))
less_iff_example = less_iff minus_half minus_tenth

parse_int-string_example : parse_int (string (number 1200 0 true)) ≡ ok (number 1200 0 true)
parse_int-string_example = parse_int-string 1200 true (omega arith)

parse_decimal-string_example :
    parse_decimal (string (number 1234 2 true)) 2 ≡ ok (number 1234 2 true)
parse_decimal-string_example =
    parse_decimal-string 1234 2 true (omega arith) (omega arith) (omega arith)
