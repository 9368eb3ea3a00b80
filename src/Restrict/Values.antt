-- ===== src/Restrict/Values.antt =====
-- The readings of values, asRangeInt, asBool and asString of pkg/yang/yang.go, and the errors of
-- `(*Type).resolve` of pkg/yang/types.go.
use goyang.Base.{
  [], ◌||◌, Bool, true, false, Option, none, some, if◌then◌else◌, Bytes, codes, text_eq,
}
use goyang.Base.Int.{ℤ, ltb_ℤ}
use goyang.Base.Result.{Result, ok, err, ◌>>=◌}
use goyang.Enum.{EnumError}
use goyang.Number.{NumError, int}
use goyang.Number.Text.{parse_int}
use goyang.Range.Text.{ParseError}

pub data TypeError : Type 0 where
  value_required : ℤ → ℤ → TypeError
  value_out_of_range : Bytes → TypeError
  invalid_boolean : Bytes → TypeError
  bad_number : NumError → TypeError
  bad_member : EnumError → TypeError
  overriding only_decimal64 no_base null_base negative_length : TypeError
  base_error : Bytes → TypeError
  bad_range bad_length : ParseError → TypeError

abbrev pub number_error {ℓ} : {A : Type ℓ} → Result NumError A → Result TypeError A
number_error (ok a) = ok a
number_error (err e) = err (bad_number e)

abbrev between : Bytes → ℤ → ℤ → ℤ → Result TypeError ℤ
between s min max i = if ltb_ℤ i min || ltb_ℤ max i then err (value_out_of_range s) else ok i

-- `asRangeInt`, none for a nil value
unfoldable pub as_range_int : Option Bytes → ℤ → ℤ → Result TypeError ℤ
as_range_int none min max = err (value_required min max)
as_range_int (some s) min max = do
  n ← number_error (parse_int s)
  i ← number_error (int n)
  between s min max i

unfoldable pub as_bool : Option Bytes → Result TypeError Bool
as_bool none = ok false
as_bool (some s) =
    if text_eq s (codes "true")
    then ok true
    else if text_eq s (codes "false")
    then ok false
    else err (invalid_boolean s)

unfoldable pub as_string : Option Bytes → Bytes
as_string none = []
as_string (some s) = s
