-- ===== src/Number/Text.antt =====
-- Numbers as texts: `Number.String`, `ParseInt`, `ParseDecimal` and `decimalValueFromString`.
pub mod RoundTrip
pub mod Decimals
use goyang.Base.{
  ℕ, zero, suc, ◌+◌, ◌-◌, ◌%◌, ◌^◌, Bool, true, false, ◌||◌, List, [], ◌∷◌, ◌++◌, Option, none,
  some, ltb, leb, ◌==◌, if◌then◌else◌, Bytes, length, replicate, take, drop, arith,
}
use goyang.Base.Int.{ℤ, pos, ltb_ℤ}
use goyang.Base.Result.{Result, ok, err, ◌>>=◌}
use goyang.Base.Word.{u64_of_i64, neg_i64}
use goyang.Base.Strings.{trim_space, index}
use goyang.Base.Strconv.{ConvError, format_uint, parse_uint0, parse_int10}
use goyang.Number.{
  Number, NumError, empty_number, sign_only, bad_syntax, out_of_range, bad_fraction_digits,
  too_much_precision, is_decimal, max_fraction_digits,
}

-- The first `n` bytes of `space18`.
abbrev pub zeros : ℕ → Bytes
zeros n = replicate n b'0'

-- The digits `out` with a point `fd` places from the right, after zeros if there are too few.
unfoldable pub point : ℕ → Bytes → Bytes
point fd out =
    if leb (length out) fd
    then take 1 (zeros (fd - length out + 1) ++ out)
      ++ (b'.' ∷ drop 1 (zeros (fd - length out + 1) ++ out))
    else take (length out - fd) out ++ (b'.' ∷ drop (length out - fd) out)

unfoldable pub string : Number → Bytes
unfolding is_decimal point
string n =
    let out = format_uint n.value in
    let out' = if is_decimal n then point n.fraction_digits out else out in
    if n.negative then b'-' ∷ out' else out'

conv_error : ConvError → NumError
conv_error ConvError.bad_syntax = bad_syntax
conv_error ConvError.out_of_range = out_of_range

abbrev pub unsigned : Bool → Bytes → Result NumError Number
unfolding conv_error
unsigned neg ns = elim (parse_uint0 ns) [
  | ok v ↦ ok (record { value = v; fraction_digits = 0; negative = neg })
  | err e ↦ err (conv_error e)
]

-- `ParseInt` on the trimmed text.
int_of_trimmed : Bytes → Result NumError Number
unfolding unsigned
int_of_trimmed [] = err empty_number
int_of_trimmed (c ∷ []) = if c == b'+' || c == b'-' then err sign_only else unsigned false (c ∷ [])
int_of_trimmed (c ∷ d ∷ s) =
    if c == b'+'
    then unsigned false (d ∷ s)
    else if c == b'-'
    then unsigned true (d ∷ s)
    else unsigned false (c ∷ d ∷ s)

unfoldable pub parse_int : Bytes → Result NumError Number
unfolding int_of_trimmed
parse_int s = int_of_trimmed (trim_space s)

-- `uint64(v)` of the parsed value without its sign.
abbrev number_of : ℕ → ℤ → Number
number_of digits v = record {
  value = u64_of_i64 (if ltb_ℤ v (pos 0) then neg_i64 v else v);
  fraction_digits = digits;
  negative = ltb_ℤ v (pos 0);
}

-- What follows the first point, counted in uint8, and the text without that point.
abbrev pub without_point : Bytes → ℕ × Bytes
without_point s = elim (index s (b'.' ∷ [])) [
  | none ↦ (0, s)
  | some dx ↦ ((length s - 1 - dx) % 256, take dx s ++ drop (dx + 1) s)
]

-- The digits behind the point are filled up with zeros, and the text is read as one integer.
unfoldable pub value_of_parts : ℕ → ℕ × Bytes → Result NumError Number
unfolding conv_error
value_of_parts required (digits, s) =
    if ltb required digits
    then err too_much_precision
    else elim (parse_int10 (s ++ zeros (required - digits))) [
      | ok v ↦ ok (number_of required v)
      | err e ↦ err (conv_error e)
    ]

unfoldable pub decimal_value_from_string : Bytes → ℕ → Result NumError Number
unfolding value_of_parts
decimal_value_from_string num_str required =
    if ltb max_fraction_digits required || ltb required 1
    then err (bad_fraction_digits required)
    else value_of_parts required (without_point num_str)

decimal_of_trimmed : Bytes → ℕ → Result NumError Number
unfolding decimal_value_from_string
decimal_of_trimmed [] required = err empty_number
decimal_of_trimmed (c ∷ []) required =
    if c == b'+' || c == b'-' then err sign_only else decimal_value_from_string (c ∷ []) required
decimal_of_trimmed s required = decimal_value_from_string s required

unfoldable pub parse_decimal : Bytes → ℕ → Result NumError Number
unfolding decimal_of_trimmed
parse_decimal s required = decimal_of_trimmed (trim_space s) required
