-- ===== src/Number/Text/RoundTrip.antt =====
-- Numbers are read back from their prints.
use goyang.Base.{
  ℕ, ◌^◌, ◌<◌, ◌≡◌, ◌≢◌, refl, Bool, true, false, [], ◌∷◌, if◌then◌else◌, Bytes, arith, All,
}
use goyang.Base.Result.{ok}
use goyang.Base.Strings.{is_space}
use goyang.Base.Strings.Trim.{IsInk, trim_space-IsInk}
use goyang.Base.Strconv.{format_uint, parse_uint0}
use goyang.Base.Strconv.Digits.{
  IsDigit, format_uint-IsDigit, format_uint-ne-nil, parse_uint0-format_uint,
}
use goyang.Number.Text.{string, parse_int, int_of_trimmed}

pub IsDigit-IsInk : (s : Bytes) → All IsDigit s → All IsInk s
IsDigit-IsInk [] h = tt
IsDigit-IsInk (c ∷ s) h = (unfold is_space in ground arith, IsDigit-IsInk s h.1)

int_of_trimmed-IsDigit :
    (s : Bytes) (v : ℕ) (negative : Bool)
    → s ≢ []
    → All IsDigit s
    → parse_uint0 s ≡ ok v
    → int_of_trimmed (if negative then b'-' ∷ s else s)
      ≡ ok (record { value = v; fraction_digits = 0; negative = negative })
unfolding int_of_trimmed
int_of_trimmed-IsDigit [] v negative ne h e = absurd (ne refl)
int_of_trimmed-IsDigit (c ∷ []) v negative ne h e = ground arith
int_of_trimmed-IsDigit (c ∷ d ∷ s) v negative ne h e = ground arith

signed-IsInk :
    (negative : Bool) (s : Bytes) → All IsInk s → All IsInk (if negative then b'-' ∷ s else s)
signed-IsInk true s h = (unfold is_space in refl, h)
signed-IsInk false s h = h

-- An integer of the documented range, written by `String`, is read back by `ParseInt` as the same
-- record, a negative zero included.
pub parse_int-string :
    (v : ℕ) (negative : Bool)
    → v < 2 ^ 64
    → parse_int (string (record { value = v; fraction_digits = 0; negative = negative }))
      ≡ ok (record { value = v; fraction_digits = 0; negative = negative })
unfolding parse_int string
parse_int-string v negative h =
    let s = format_uint v in
    let ink = signed-IsInk negative s (IsDigit-IsInk s (format_uint-IsDigit v)) in
    rw (trim_space-IsInk _ ink) (
      int_of_trimmed-IsDigit s v negative (format_uint-ne-nil v) (format_uint-IsDigit v)
        (parse_uint0-format_uint v h))
