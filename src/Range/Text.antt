-- ===== src/Range/Text.antt =====
-- Lists of ranges as texts: `ParseRangesInt`, `ParseRangesDecimal`, `parseChildRanges` and `String`.
pub mod Child
pub mod RoundTrip
use goyang.Base.{
  ℕ, Bool, true, false, not, List, [], ◌∷◌, ◌++◌, map, Option, none, some, if◌then◌else◌, Bytes,
  codes, text_eq, ◌==◌,
}
use goyang.Base.Result.{Result, ok, err, ◌>>=◌}
use goyang.Base.Strings.{trim_space, split, join}
use goyang.Number.{Number, NumError, less, equal}
use goyang.Number.Text as NumberText
use goyang.Range.{YRange, YangRange, RangeError, sort, coalesce, contains, validate}

pub data ParseError : Type 0 where
  no_max no_min too_many_dots not_within : ParseError
  number : NumError → ParseError
  out_of_order : Number → Number → ParseError
  invalid : RangeError → ParseError

unfoldable pub yrange_string : YRange → Bytes
yrange_string r =
    if equal r.min r.max
    then NumberText.string r.min
    else NumberText.string r.min ++ (codes ".." ++ NumberText.string r.max)

unfoldable pub string : YangRange → Bytes
unfolding yrange_string
string r = join (map yrange_string r) (codes "|")

pub lift_number : Result NumError Number → Result ParseError Number
lift_number (ok n) = ok n
lift_number (err e) = err (number e)

-- The last of a list of ranges.
abbrev last_range : YangRange → Option YRange
last_range [] = none
last_range (r ∷ []) = some r
last_range (r ∷ s ∷ rs) = last_range (s ∷ rs)

abbrev first_range : YangRange → Option YRange
first_range [] = none
first_range (r ∷ rs) = some r

-- The closure `parseNumber`: the keywords take the parent's bounds, at the precision asked for.
parse_number : YangRange → Bool → ℕ → Bytes → Result ParseError Number
unfolding lift_number
parse_number y decimal digits s =
    if text_eq s (codes "max")
    then elim (last_range y) [
      | none ↦ err no_max
      | some r ↦
          ok (record { value = r.max.value; fraction_digits = digits; negative = r.max.negative })
    ]
    else if text_eq s (codes "min")
    then elim (first_range y) [
      | none ↦ err no_min
      | some r ↦
          ok (record { value = r.min.value; fraction_digits = digits; negative = r.min.negative })
    ]
    else if decimal
    then lift_number (NumberText.parse_decimal s digits)
    else lift_number (NumberText.parse_int s)

ordered_range : Number → Number → Result ParseError YRange
ordered_range min max =
    if less max min then err (out_of_order max min) else ok (record { min = min; max = max })

-- One part between two `|`, split at its dots.
range_of_ends : YangRange → Bool → ℕ → List Bytes → Result ParseError YRange
unfolding parse_number ordered_range
range_of_ends y decimal digits [] = err too_many_dots
range_of_ends y decimal digits (a ∷ []) = do
  min ← parse_number y decimal digits (trim_space a)
  ordered_range min min
range_of_ends y decimal digits (a ∷ b ∷ []) = do
  min ← parse_number y decimal digits (trim_space a)
  max ← parse_number y decimal digits (trim_space b)
  ordered_range min max
range_of_ends y decimal digits (a ∷ b ∷ c ∷ rest) = do
  min ← parse_number y decimal digits (trim_space a)
  err too_many_dots

unfoldable pub ranges_of_parts : YangRange → Bool → ℕ → List Bytes → Result ParseError YangRange
unfolding range_of_ends
ranges_of_parts y decimal digits [] = ok []
ranges_of_parts y decimal digits (p ∷ ps) = do
  r ← range_of_ends y decimal digits (split p (codes ".."))
  rs ← ranges_of_parts y decimal digits ps
  ok (r ∷ rs)

-- What happens to the ranges once they are read.
unfoldable pub check_within : YangRange → YangRange → Result ParseError YangRange
check_within y r =
    if not (contains y r)
    then err not_within
    else elim (validate r) [ ok _ ↦ ok r | err e ↦ err (invalid e) ]

unfoldable pub parse_child_ranges : YangRange → Bytes → Bool → ℕ → Result ParseError YangRange
unfolding ranges_of_parts check_within
parse_child_ranges y s decimal digits = do
  r ← ranges_of_parts y decimal digits (split s (codes "|"))
  check_within y (coalesce (sort r))

unfoldable pub parse_ranges_int : Bytes → Result ParseError YangRange
unfolding parse_child_ranges
parse_ranges_int s = parse_child_ranges [] s false 0

unfoldable pub parse_ranges_decimal : Bytes → ℕ → Result ParseError YangRange
unfolding parse_child_ranges
parse_ranges_decimal s digits = parse_child_ranges [] s true digits
