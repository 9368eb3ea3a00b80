-- ===== src/Range/Text/RoundTrip.antt =====
-- Lists of integer ranges are read back from their texts.
use goyang.Base.{
  ℕ, ◌≤◌, ◌<◌, ◌≡◌, ◌≢◌, refl, ◌∙◌, ap, sym, subst, true, false, [], ◌∷◌, ◌++◌, ◌⊎◌, map, Bytes,
  codes, All, All-append, text_eq, arith, Bool-cases, inl, inr,
}
use goyang.Base.Result.{ok}
use goyang.Base.Strings.{is_space, split, join, trim_space}
use goyang.Base.Strings.Parts.{Avoids, split-join}
use goyang.Base.Strings.Trim.{IsInk, trim_space-IsInk}
use goyang.Base.Strconv.{format_uint}
use goyang.Base.Strconv.Digits.{IsDigit, format_uint-IsDigit}
use goyang.Number.{Number, equal}
use goyang.Number.Order.{less-rank, equal_iff}
use goyang.Number.Steps.{IsAt, rank-IsAt}
use goyang.Number.Text as NumberText
use goyang.Number.Text.RoundTrip.{parse_int-string}
use goyang.Range.{YRange, YangRange, contains, sort, coalesce}
use goyang.Range.Settled.{sort-IsCoalesced, coalesce-IsCoalesced}
use goyang.Range.Spec.{IsRange, IsRanges, IsCoalesced}
use goyang.Range.Validate.{validate-IsCoalesced}
use goyang.Range.Text.{
  check_within, yrange_string, string, parse_number, ordered_range, range_of_ends, ranges_of_parts,
  parse_child_ranges, parse_ranges_int, lift_number,
}

-- The bytes of a number's text: digits and the sign.
abbrev IsNumeral : ℕ → Type 0
IsNumeral c = (c ≢ b'.') × (b'-' ≤ c) × (c ≤ b'9')

digits-IsNumeral : (s : Bytes) → All IsDigit s → All IsNumeral s
digits-IsNumeral [] h = tt
digits-IsNumeral (c ∷ s) h = (ground (arith, h.0), digits-IsNumeral s h.1)

number-IsNumeral : (n : Number) → n.fraction_digits ≡ 0 → All IsNumeral (NumberText.string n)
unfolding NumberText.string
number-IsNumeral n e =
    let digits = digits-IsNumeral (format_uint n.value) (format_uint-IsDigit n.value) in
    elim (Bool-cases n.negative) [
      | inl f ↦ rw (e, f) (ground arith, digits)
      | inr f ↦ rw (e, f) digits
    ]

IsNumeral-IsInk : (s : Bytes) → All IsNumeral s → All IsInk s
IsNumeral-IsInk [] h = tt
IsNumeral-IsInk (c ∷ s) h = (unfold is_space in ground (arith, h.0), IsNumeral-IsInk s h.1)

IsNumeral-Avoids :
    (c : ℕ) (s : Bytes) → All IsNumeral s → (c ≡ b'.') ⊎ (b'9' < c) → All (λ b. b ≢ c) s
IsNumeral-Avoids c [] h k = tt
IsNumeral-Avoids c (b ∷ s) h k = (ground (arith, h.0, k), IsNumeral-Avoids c s h.1 k)

IsNumeral-text_eq :
    (s : Bytes) (c : ℕ) (t : Bytes) → All IsNumeral s → b'9' < c → text_eq s (c ∷ t) ≡ false
unfolding text_eq
IsNumeral-text_eq [] c t h k = refl
IsNumeral-text_eq (b ∷ s) c t h k = ground (arith, h.0, k)

-- Numbers without fraction digits that are equal are the same.
equal-eq : {n m : Number} → IsAt 0 n → IsAt 0 m → equal n m ≡ true → n ≡ m
equal-eq {n} {m} hn hm e = ground (
  arith,
  (equal_iff hn.canonical hm.canonical).0 e,
  rank-IsAt hn,
  rank-IsAt hm,
  hn.canonical.signed,
  hm.canonical.signed,
  hn.canonical.is_number.value_fits,
  hm.canonical.is_number.value_fits,
)

parse_int-IsAt : (n : Number) → IsAt 0 n → NumberText.parse_int (NumberText.string n) ≡ ok n
parse_int-IsAt n h =
    let same : record { value = n.value; fraction_digits = 0; negative = n.negative } ≡ n =
      λ i. record { value = n.value; fraction_digits = sym h.digits i; negative = n.negative } in
    subst (λ m. NumberText.parse_int (NumberText.string m) ≡ ok m) same
      (parse_int-string n.value n.negative h.canonical.is_number.value_fits)

-- The text of a number is read as the number.
parse_number-string :
    (y : YangRange) (n : Number) → IsAt 0 n → parse_number y false 0 (NumberText.string n) ≡ ok n
unfolding parse_number
parse_number-string y n h =
    let t = NumberText.string n in
    let plain = number-IsNumeral n h.digits in
    rw
      (
        IsNumeral-text_eq t b'm' (codes "ax") plain (omega arith),
        IsNumeral-text_eq t b'm' (codes "in") plain (omega arith),
      )
      (ap lift_number (parse_int-IsAt n h))

module _ (y : YangRange) (r : YRange) (h : IsRange 0 r) where
  text_of : (n : Number) → IsAt 0 n → trim_space (NumberText.string n) ≡ NumberText.string n
  text_of n k =
      trim_space-IsInk (NumberText.string n)
        (IsNumeral-IsInk (NumberText.string n) (number-IsNumeral n k.digits))

  no_points : (n : Number) → IsAt 0 n → Avoids b'.' (NumberText.string n)
  no_points n k =
      IsNumeral-Avoids b'.' (NumberText.string n) (number-IsNumeral n k.digits) (inl refl)

  one_end :
      range_of_ends y false 0 (NumberText.string r.min ∷ [])
      ≡ ok (record { min = r.min; max = r.min })
  unfolding range_of_ends ordered_range
  one_end =
      rw (text_of r.min h.min_at, parse_number-string y r.min h.min_at)
        (ground (arith, less-rank h.min_at.canonical h.min_at.canonical))

  two_ends : range_of_ends y false 0 (NumberText.string r.min ∷ NumberText.string r.max ∷ []) ≡ ok r
  unfolding range_of_ends ordered_range
  two_ends =
      rw
        (
          text_of r.min h.min_at,
          text_of r.max h.max_at,
          parse_number-string y r.min h.min_at,
          parse_number-string y r.max h.max_at,
        )
        (ground (arith, less-rank h.max_at.canonical h.min_at.canonical, h.ordered))

  -- The text of a range is read as the range.
  range_of_ends-yrange_string :
      range_of_ends y false 0 (split (yrange_string r) (codes "..")) ≡ ok r
  unfolding yrange_string join
  range_of_ends-yrange_string =
      let a = NumberText.string r.min in
      let b = NumberText.string r.max in
      elim (Bool-cases (equal r.min r.max)) [
        | inl e ↦
            let same : record { min = r.min; max = r.min } ≡ r =
              λ i. record { min = r.min; max = equal-eq h.min_at h.max_at e i } in
            rw (e, split-join b'.' (codes ".") a [] (no_points r.min h.min_at, tt))
              (one_end ∙ ap ok same)
        | inr e ↦
            rw
              (
                e,
                split-join b'.' (codes ".") a (b ∷ [])
                    (no_points r.min h.min_at, (no_points r.max h.max_at, tt)),
              )
              two_ends
      ]

ranges_of_parts-map :
    (y r : YangRange) → IsRanges 0 r → ranges_of_parts y false 0 (map yrange_string r) ≡ ok r
unfolding ranges_of_parts
ranges_of_parts-map y [] h = refl
ranges_of_parts-map y (a ∷ r) h =
    rw (range_of_ends-yrange_string y a h.0, ranges_of_parts-map y r h.1) refl

no_bars : (r : YRange) → IsRange 0 r → Avoids b'|' (yrange_string r)
unfolding yrange_string
no_bars r h =
    let a =
      IsNumeral-Avoids b'|' (NumberText.string r.min) (number-IsNumeral r.min h.min_at.digits)
        (inr (omega arith)) in
    let b =
      IsNumeral-Avoids b'|' (NumberText.string r.max) (number-IsNumeral r.max h.max_at.digits)
        (inr (omega arith)) in
    elim (Bool-cases (equal r.min r.max)) [
      | inl e ↦ rw e a
      | inr e ↦ rw e (
          All-append (λ c. c ≢ b'|') (NumberText.string r.min)
            (codes ".." ++ NumberText.string r.max) a (ground arith, (ground arith, b)))
    ]

parts-Avoids : (r : YangRange) → IsRanges 0 r → All (Avoids b'|') (map yrange_string r)
parts-Avoids [] h = tt
parts-Avoids (a ∷ r) h = (no_bars a h.0, parts-Avoids r h.1)

split-string :
    (r : YRange) (rs : YangRange)
    → IsRanges 0 (r ∷ rs)
    → split (string (r ∷ rs)) (codes "|") ≡ map yrange_string (r ∷ rs)
unfolding string
split-string r rs h =
    split-join b'|' [] (yrange_string r) (map yrange_string rs) (parts-Avoids (r ∷ rs) h)

module _ (r : YRange) (rs : YangRange) (h : IsRanges 0 (r ∷ rs)) (co : IsCoalesced 0 (r ∷ rs)) where
  settled : coalesce (sort (r ∷ rs)) ≡ r ∷ rs
  settled = ap coalesce (sort-IsCoalesced 0 (r ∷ rs) h co) ∙ coalesce-IsCoalesced 0 (r ∷ rs) h co

  -- A range without a parent is checked for its order only.
  checked : check_within [] (r ∷ rs) ≡ ok (r ∷ rs)
  unfolding check_within contains
  checked = rw (validate-IsCoalesced 0 (r ∷ rs) h co) refl

  -- A nonempty list of integer ranges with canonical bounds in order, of which each ends more than
  -- a step before the next begins, is read back by `ParseRangesInt` from what `String` writes.
  pub parse_ranges_int-string : parse_ranges_int (string (r ∷ rs)) ≡ ok (r ∷ rs)
  unfolding parse_ranges_int parse_child_ranges
  parse_ranges_int-string =
      rw (split-string r rs h, ranges_of_parts-map [] (r ∷ rs) h)
        (ap (check_within []) settled ∙ checked)
