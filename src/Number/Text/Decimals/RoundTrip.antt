-- ===== src/Number/Text/Decimals/RoundTrip.antt =====
-- `ParseDecimal` on what `String` writes.
use mathlib.Core.List.{append_assoc, append-nil, cons-ne-nil}
use goyang.Base.{
  ℕ, zero, suc, ◌+◌, ◌-◌, ◌^◌, ◌≤◌, ◌<◌, ◌≡◌, ◌≢◌, refl, sym, ap, ◌∙◌, Bool, true, false, ◌||◌, [],
  ◌∷◌, ◌++◌, ltb, ◌==◌, Bytes, arith, All, All-append, length, take, drop, length-drop,
  take-append-drop,
}
use goyang.Base.Result.{ok, ◌>>=◌}
use goyang.Base.Int.{ℤ, pos, negsuc}
use goyang.Base.Strings.{is_space}
use goyang.Base.Strings.Trim.{IsInk, trim_space-IsInk}
use goyang.Base.Strconv.{format_uint, parse_uint10, parse_int10, signed}
use goyang.Base.Strconv.Digits.{
  IsDigit, format_uint-IsDigit, format_uint-ne-nil, parse_uint10-format_uint,
}
use goyang.Number.Text.{
  string, number_of, value_of_parts, decimal_value_from_string, decimal_of_trimmed, parse_decimal,
  zeros,
}
use goyang.Number.Text.RoundTrip.{IsDigit-IsInk}
use goyang.Number.Text.Decimals.{
  padded, split_at, point-padded, length-padded, without_point-append,
}

abbrev minus : Bool → Bytes
minus true = b'-' ∷ []
minus false = []

zeros-IsDigit : (k : ℕ) → All IsDigit (zeros k)
zeros-IsDigit zero = tt
zeros-IsDigit (suc k) = (omega arith, zeros-IsDigit k)

padded-IsDigit : (fd v : ℕ) → All IsDigit (padded fd (format_uint v))
padded-IsDigit fd v =
    All-append IsDigit (zeros (fd + 1 - length (format_uint v))) _
      (zeros-IsDigit (fd + 1 - length (format_uint v))) (format_uint-IsDigit v)

take-IsDigit : (k : ℕ) (s : Bytes) → All IsDigit s → All IsDigit (take k s)
take-IsDigit zero s h = tt
take-IsDigit (suc k) [] h = tt
take-IsDigit (suc k) (c ∷ s) h = (h.0, take-IsDigit k s h.1)

drop-IsDigit : (k : ℕ) (s : Bytes) → All IsDigit s → All IsDigit (drop k s)
drop-IsDigit zero s h = h
drop-IsDigit (suc k) [] h = tt
drop-IsDigit (suc k) (c ∷ s) h = drop-IsDigit k s h.1

string-split_at :
    (v fd : ℕ) (negative : Bool)
    → 1 ≤ fd
    → string (record { value = v; fraction_digits = fd; negative = negative })
      ≡ minus negative
        ++ split_at (length (padded fd (format_uint v)) - fd) (padded fd (format_uint v))
unfolding string
string-split_at v fd true h =
    let e : (fd == 0) ≡ false = ground arith in
    rw e (ap (◌∷◌ b'-') (point-padded fd (format_uint v)))
string-split_at v fd false h =
    let e : (fd == 0) ≡ false = ground arith in rw e (point-padded fd (format_uint v))

-- An int64 apart from its sign.
abbrev pub FitsI64 : ℕ → Bool → Type 0
FitsI64 v true = (0 < v) × (v ≤ 2 ^ 63)
FitsI64 v false = v < 2 ^ 63

FitsI64-lt : (v : ℕ) (negative : Bool) → FitsI64 v negative → v < 2 ^ 64
FitsI64-lt v true h = omega (arith, h.1)
FitsI64-lt v false h = omega arith

parse_int10-minus :
    (s : Bytes) (negative : Bool)
    → All IsDigit s
    → s ≢ []
    → parse_int10 (minus negative ++ s) ≡ (parse_uint10 s >>= signed negative)
unfolding parse_int10
parse_int10-minus [] negative h ne = absurd (ne refl)
parse_int10-minus (c ∷ s) true h ne = refl
parse_int10-minus (c ∷ s) false h ne = ground arith

number_of-signed :
    (v fd : ℕ) (negative : Bool)
    → FitsI64 v negative
    → (z : ℤ) × (signed negative v ≡ ok z)
      × (number_of fd z ≡ record { value = v; fraction_digits = fd; negative = negative })
number_of-signed zero fd true h = elim h.0 [ ]
number_of-signed (suc v) fd true h = (negsuc v, ground arith, ground arith)
number_of-signed v fd false h = (pos v, ground arith, ground arith)

decimal_of_trimmed-append :
    (a b : Bytes) (c : ℕ) (required : ℕ)
    → a ≢ []
    → decimal_of_trimmed (a ++ (c ∷ b)) required ≡ decimal_value_from_string (a ++ (c ∷ b)) required
unfolding decimal_of_trimmed
decimal_of_trimmed-append [] b c required h = absurd (h refl)
decimal_of_trimmed-append (x ∷ []) b c required h = refl
decimal_of_trimmed-append (x ∷ y ∷ a) b c required h = refl

IsDigit-no_point : (s : Bytes) → All IsDigit s → All (λ c. c ≢ b'.') s
IsDigit-no_point [] h = tt
IsDigit-no_point (c ∷ s) h = (omega (arith, h.0), IsDigit-no_point s h.1)

minus-no_point : (negative : Bool) → All (λ c. c ≢ b'.') (minus negative)
minus-no_point true = (omega arith, tt)
minus-no_point false = tt

-- An integer read from digits that need no zeros.
value_of_parts-minus :
    (s : Bytes) (v fd : ℕ) (negative : Bool)
    → All IsDigit s
    → s ≢ []
    → parse_uint10 s ≡ ok v
    → FitsI64 v negative
    → value_of_parts fd (fd, minus negative ++ s)
      ≡ ok (record { value = v; fraction_digits = fd; negative = negative })
unfolding value_of_parts
value_of_parts-minus s v fd negative h ne e fits =
    let (z, read, built) = number_of-signed v fd negative fits in
    let same : ltb fd fd ≡ false = ground arith in
    let none_left : fd - fd ≡ 0 = omega arith in
    let parsed = parse_int10-minus s negative h ne in
    rw (same, none_left, append-nil, parsed, e, read) (ap ok built)

-- `decimalValueFromString` on digits with a point in front of the last `fd`.
value-split_at :
    (s : Bytes) (v fd : ℕ) (negative : Bool)
    → 1 ≤ fd
    → fd ≤ 18
    → fd < length s
    → All IsDigit s
    → s ≢ []
    → parse_uint10 s ≡ ok v
    → FitsI64 v negative
    → decimal_value_from_string (minus negative ++ split_at (length s - fd) s) fd
      ≡ ok (record { value = v; fraction_digits = fd; negative = negative })
unfolding decimal_value_from_string
value-split_at s v fd negative low high long h ne e fits =
    let k = length s - fd in
    let front = minus negative ++ take k s in
    let clean =
      All-append (λ c. c ≢ b'.') (minus negative) (take k s) (minus-no_point negative)
        (IsDigit-no_point (take k s) (take-IsDigit k s h)) in
    let size : length (drop k s) ≡ fd = omega (arith, length-drop k s) in
    let apart = without_point-append front (drop k s) clean (omega arith) in
    let guard : (ltb 18 fd || ltb fd 1) ≡ false = ground arith in
    let whole : front ++ drop k s ≡ minus negative ++ s =
      append_assoc (minus negative) (take k s) (drop k s)
      ∙ ap (◌++◌ (minus negative)) (take-append-drop k s) in
    rw (guard, ← append_assoc (minus negative) (take k s) (b'.' ∷ drop k s), apart, size, whole)
      (value_of_parts-minus s v fd negative h ne e fits)

split_at-IsInk : (k : ℕ) (s : Bytes) → All IsDigit s → All IsInk (split_at k s)
split_at-IsInk k s h =
    All-append IsInk (take k s) (b'.' ∷ drop k s) (IsDigit-IsInk _ (take-IsDigit k s h))
      (unfold is_space in refl, IsDigit-IsInk _ (drop-IsDigit k s h))

minus-IsInk : (negative : Bool) → All IsInk (minus negative)
minus-IsInk true = (unfold is_space in refl, tt)
minus-IsInk false = tt

append-ne-nil : (a b : Bytes) → b ≢ [] → a ++ b ≢ []
append-ne-nil [] b h = h
append-ne-nil (c ∷ a) b h = cons-ne-nil _ _

take-ne-nil : (k : ℕ) (s : Bytes) → 0 < k → 0 < length s → take k s ≢ []
take-ne-nil zero s h l = elim h [ ]
take-ne-nil (suc k) [] h l = elim l [ ]
take-ne-nil (suc k) (c ∷ s) h l = cons-ne-nil _ _

-- A decimal64 is read back from its print at its own precision.
pub parse_decimal-string :
    (v fd : ℕ) (negative : Bool)
    → 1 ≤ fd
    → fd ≤ 18
    → FitsI64 v negative
    → parse_decimal (string (record { value = v; fraction_digits = fd; negative = negative })) fd
      ≡ ok (record { value = v; fraction_digits = fd; negative = negative })
unfolding parse_decimal
parse_decimal-string v fd negative low high fits =
    let s = padded fd (format_uint v) in
    let k = length s - fd in
    let long = length-padded fd (format_uint v) in
    let digits = padded-IsDigit fd v in
    let ink =
      All-append IsInk (minus negative) (split_at k s) (minus-IsInk negative)
        (split_at-IsInk k s digits) in
    let fits64 = FitsI64-lt v negative fits in
    rw (string-split_at v fd negative low, trim_space-IsInk _ ink)
      (ap (λ t. decimal_of_trimmed t fd)
          (sym (append_assoc (minus negative) (take k s) (b'.' ∷ drop k s)))
        ∙ decimal_of_trimmed-append (minus negative ++ take k s) (drop k s) b'.' fd
            (append-ne-nil (minus negative) _ (take-ne-nil k s (omega arith) (omega arith)))
        ∙ ap (λ t. decimal_value_from_string t fd)
            (append_assoc (minus negative) (take k s) (b'.' ∷ drop k s))
        ∙ value-split_at s v fd negative low high long digits
            (append-ne-nil _ _ (format_uint-ne-nil v))
            (parse_uint10-format_uint (fd + 1 - length (format_uint v)) v fits64) fits)
