-- ===== src/Tests/Ranges.antt =====
-- Runs of the range functions, and instances of their theorems.
use mathlib.Core.List.{Perm}
use goyang.Base.{
  ℕ, ◌+◌, ◌-◌, ◌^◌, ◌≤◌, ◌<◌, ◌≡◌, ◌↔◌, refl, true, false, inl, inr, arith, codes, Bool, [], ◌∷◌,
  if◌then◌else◌, All,
}
use goyang.Base.Result.{ok, err}
use goyang.Base.Strings.{split}
use goyang.Number.{Number, less, equal, add_quantum}
use goyang.Number.Scale.{rank, scaled}
use goyang.Range.{
  YRange, YangRange, sort, coalesce, contains, validate, is_sorted, overlapping_ranges,
}
use goyang.Range.Coalesce.{coalesce-Joins}
use goyang.Range.Contains.{IsWithin, contains_iff}
use goyang.Range.Sort.{HasBounds, sort-is_sorted}
use goyang.Range.Spec.{IsRange, IsRanges, IsCoalesced, IsAscending, SameNumbers}
use goyang.Range.Text.{
  string, parse_child_ranges, parse_ranges_int, ranges_of_parts, not_within, invalid,
}
use goyang.Range.Text.RoundTrip.{parse_ranges_int-string}
use goyang.Range.Text.Child.{Allows, Fits, parse_child_ranges_lem}
use goyang.Range.Validate.{BeginsFrom, validate_iff}

abbrev integer : ℕ → Bool → Number
integer v negative = record { value = v; fraction_digits = 0; negative = negative }

abbrev range : ℕ → ℕ → YRange
range a b = record { min = integer a false; max = integer b false }

-- All that a run of the parser computes through.
opened : Unit {0}
unfolding parse_ranges_int parse_child_ranges split goyang.Base.text_eq
    goyang.Base.Strings.trim_space goyang.Number.Text.parse_int goyang.Base.Strconv.parse_uint0 less
    contains validate is_sorted coalesce sort goyang.Range.valid goyang.Range.overlaps
    goyang.Number.trunc goyang.Number.pow10 goyang.Number.frac goyang.Range.range_less add_quantum
opened = tt

builtin_ranges :
    (parse_ranges_int (codes "-128..127")
      ≡ ok (record { min = integer 128 true; max = integer 127 false } ∷ []))
    × (parse_ranges_int (codes "0..18446744073709551615") ≡ ok (range 0 (2 ^ 64 - 1) ∷ []))
    × (parse_ranges_int (codes "11..20 | 1..5|6..10") ≡ ok (range 1 20 ∷ []))
unfolding opened
builtin_ranges = (refl, refl, refl)

child :
    (parse_child_ranges (range 0 255 ∷ []) (codes "min..5|250..max") false 0
      ≡ ok (range 0 5 ∷ range 250 255 ∷ []))
    × (parse_child_ranges (range 0 255 ∷ []) (codes "5..256") false 0 ≡ err not_within)
unfolding opened
child = (refl, refl)

-- Next to the greatest uint64 the test of `coalesce` wraps around, so a range that lies inside
-- another is not joined with it and the whole is refused.
top_not_joined :
    (parse_ranges_int (codes "0..18446744073709551615|5..6") ≡ err (invalid overlapping_ranges))
    × (parse_ranges_int (codes "0..18446744073709551614|5..6") ≡ ok (range 0 (2 ^ 64 - 2) ∷ []))
unfolding opened
top_not_joined = (refl, refl)

-- `Validate` compares with the first range only.
overlap_missed : validate (range 1 2 ∷ range 5 10 ∷ range 6 7 ∷ []) ≡ ok tt
unfolding opened
overlap_missed = refl

abbrev parent : YangRange
parent = range 0 255 ∷ []

abbrev parts : YangRange
parts = range 6 10 ∷ range 1 5 ∷ range 20 30 ∷ []

range_fits : (a b : ℕ) → a ≤ b → b ≤ 255 → IsRange 0 (range a b)
unfolding rank scaled
range_fits a b le hi = ground arith

abbrev parts_ranges : IsRanges 0 parts
parts_ranges = (
  range_fits 6 10 (omega arith) (omega arith),
  (range_fits 1 5 (omega arith) (omega arith), (range_fits 20 30 (omega arith) (omega arith), tt)),
)

abbrev parent_ranges : IsRanges 0 parent
parent_ranges = (range_fits 0 255 (omega arith) (omega arith), tt)

parts_fit : Fits 0 parent parts
unfolding opened
parts_fit = record {
  parent_ranges = parent_ranges;
  parent_coalesced = tt;
  child_ranges = parts_ranges;
  child_room = (inr (omega arith), (inr (omega arith), tt));
}

parts_read :
    ranges_of_parts parent false 0 (split (codes "6..10|1..5|20..30") (codes "|")) ≡ ok parts
unfolding opened ranges_of_parts
parts_read = refl

parse_child_ranges_lem_example :
    (parse_child_ranges parent (codes "6..10|1..5|20..30") false 0 ≡ (
      if contains parent (coalesce (sort parts))
      then ok (coalesce (sort parts))
      else err not_within))
    × ((contains parent (coalesce (sort parts)) ≡ true) ↔ Allows 0 parent parts)
    × IsCoalesced 0 (coalesce (sort parts))
    × SameNumbers 0 (coalesce (sort parts)) parts
parse_child_ranges_lem_example =
    parse_child_ranges_lem parent parts parts_fit (codes "6..10|1..5|20..30") false parts_read

abbrev ascending : YangRange
ascending = range 1 5 ∷ range 6 10 ∷ range 20 30 ∷ []

ascending_ranges : IsRanges 0 ascending
ascending_ranges = (parts_ranges.1.0, (parts_ranges.0, parts_ranges.1.1))

ascending_up : IsAscending ascending
unfolding rank scaled
ascending_up = omega arith

coalesce-Joins_example :
    IsRanges 0 (coalesce ascending)
    × IsCoalesced 0 (coalesce ascending)
    × SameNumbers 0 (coalesce ascending) ascending
coalesce-Joins_example =
    coalesce-Joins ascending ascending_ranges (inr (omega arith), (inr (omega arith), tt))
      ascending_up

contains_iff_example : (contains parent ascending ≡ true) ↔ IsWithin 0 ascending parent
contains_iff_example =
    contains_iff (range 0 255) [] ascending parent_ranges tt ascending_ranges ascending_up

bounds : (a b : ℕ) → a ≤ 255 → b ≤ 255 → HasBounds (range a b)
bounds a b ha hb = ground arith

part_bounds : All HasBounds parts
part_bounds = (
  bounds 6 10 (omega arith) (omega arith),
  (bounds 1 5 (omega arith) (omega arith), (bounds 20 30 (omega arith) (omega arith), tt)),
)

sort-is_sorted_example :
    (is_sorted (sort parts) ≡ true) × IsAscending (sort parts) × Perm (sort parts) parts
sort-is_sorted_example = sort-is_sorted parts part_bounds

validate_iff_example : (validate parts ≡ ok tt) ↔ (
    (is_sorted parts ≡ true)
    × (rank (integer 6 false) ≤ rank (integer 10 false))
    × BeginsFrom (integer 10 false) (range 1 5 ∷ range 20 30 ∷ []))
validate_iff_example =
    validate_iff (range 6 10) (range 1 5 ∷ range 20 30 ∷ []) part_bounds.0 part_bounds.1

abbrev apart : YangRange
apart = range 1 5 ∷ range 7 7 ∷ range 20 30 ∷ []

apart_ranges : IsRanges 0 apart
apart_ranges =
    (parts_ranges.1.0, (range_fits 7 7 (omega arith) (omega arith), (parts_ranges.1.1.0, tt)))

apart_coalesced : IsCoalesced 0 apart
unfolding rank scaled
apart_coalesced = omega arith

apart_text : string apart ≡ codes "1..5|7|20..30"
unfolding opened string goyang.Base.Strconv.format_uint goyang.Base.Strings.join equal
    goyang.Number.Text.string
apart_text = refl

parse_ranges_int-string_example : parse_ranges_int (string apart) ≡ ok apart
parse_ranges_int-string_example =
    parse_ranges_int-string (range 1 5) (range 7 7 ∷ range 20 30 ∷ []) apart_ranges apart_coalesced
