-- ===== src/Base/Strconv/Digits.antt =====
-- Decimal digits: what `FormatUint` writes, `ParseUint` reads back.
use mathlib.Core.List.{cons-ne-nil}
use goyang.Base.{
  ℕ, zero, suc, ◌+◌, ◌/◌, ◌%◌, ◌^◌, ◌≤◌, ◌<◌, ◌≡◌, ◌≢◌, refl, ◌∙◌, Bool, true, false, [], ◌∷◌, ◌++◌,
  Bytes, arith, All, replicate,
}
use goyang.Base.Result.{ok}
use goyang.Base.Strconv.{
  digits_onto, format_uint, scan_digits, has_underscore, parse_uint0, parse_uint10, base_prefix,
}

abbrev pub IsDigit : ℕ → Type 0
IsDigit c = (b'0' ≤ c) × (c ≤ b'9')

-- Reading the last digit of `n` behind the digits before it gives `n`.
scan_digits_last :
    (base0 : Bool) (n : ℕ) (out : Bytes)
    → n < 2 ^ 64
    → scan_digits 10 base0 ((b'0' + n % 10) ∷ out) (n / 10) ≡ scan_digits 10 base0 out n
unfolding scan_digits
scan_digits_last base0 n out h = ground arith

pub scan_digits-digits_onto :
    (base0 : Bool) (fuel n : ℕ) (out : Bytes)
    → n < fuel
    → n < 2 ^ 64
    → scan_digits 10 base0 (digits_onto fuel n out) 0 ≡ scan_digits 10 base0 out n
unfolding digits_onto
scan_digits-digits_onto base0 zero n out f h = elim f [ ]
scan_digits-digits_onto base0 (suc fuel) n out f h = ground (
  arith,
  scan_digits_last base0 n out h,
  scan_digits-digits_onto base0 fuel (n / 10) ((b'0' + n % 10) ∷ out),
)

digits_onto-IsDigit :
    (fuel n : ℕ) (out : Bytes) → All IsDigit out → All IsDigit (digits_onto fuel n out)
unfolding digits_onto
digits_onto-IsDigit zero n out h = h
digits_onto-IsDigit (suc fuel) n out h =
    ground (arith, digits_onto-IsDigit fuel (n / 10) ((b'0' + n % 10) ∷ out) (ground arith, h))

-- The first digit of a positive number is not 0.
abbrev Leads : Bytes → Type 0
Leads [] = ⊥
Leads (c ∷ s) = c ≢ b'0'

digits_onto-Leads : (fuel n : ℕ) (out : Bytes) → 0 < n → n < fuel → Leads (digits_onto fuel n out)
unfolding digits_onto
digits_onto-Leads zero n out p f = elim f [ ]
digits_onto-Leads (suc fuel) n out p f =
    ground (arith, digits_onto-Leads fuel (n / 10) ((b'0' + n % 10) ∷ out))

pub format_uint-IsDigit : (n : ℕ) → All IsDigit (format_uint n)
unfolding format_uint
format_uint-IsDigit n = digits_onto-IsDigit (suc n) n [] tt

Leads-ne-nil : (s : Bytes) → Leads s → s ≢ []
Leads-ne-nil [] h = absurd h
Leads-ne-nil (c ∷ s) h = cons-ne-nil c s

pub format_uint-ne-nil : (n : ℕ) → format_uint n ≢ []
format_uint-ne-nil zero = unfold format_uint in cc
format_uint-ne-nil (suc n) =
    Leads-ne-nil _
      (unfold format_uint in digits_onto-Leads (suc (suc n)) (suc n) [] (omega arith) (omega arith))

base_prefix-Leads : (s : Bytes) → Leads s → base_prefix s ≡ (10, s)
unfolding base_prefix
base_prefix-Leads [] h = absurd h
base_prefix-Leads (a ∷ []) h = ground arith
base_prefix-Leads (a ∷ b ∷ []) h = ground arith
base_prefix-Leads (a ∷ b ∷ c ∷ s) h = ground arith

has_underscore-IsDigit : (s : Bytes) → All IsDigit s → has_underscore s ≡ false
unfolding has_underscore
has_underscore-IsDigit [] h = refl
has_underscore-IsDigit (c ∷ s) h = ground (arith, has_underscore-IsDigit s h.1)

parse_uint0-Leads :
    (s : Bytes) {n : ℕ}
    → Leads s
    → All IsDigit s
    → scan_digits 10 true s 0 ≡ ok n
    → parse_uint0 s ≡ ok n
unfolding parse_uint0
parse_uint0-Leads [] l h e = absurd l
parse_uint0-Leads (c ∷ s) l h e =
    rw (base_prefix-Leads (c ∷ s) l, e, has_underscore-IsDigit (c ∷ s) h)

-- `ParseUint` with the base taken from the text reads every uint64 back from its decimal print.
pub parse_uint0-format_uint : (n : ℕ) → n < 2 ^ 64 → parse_uint0 (format_uint n) ≡ ok n
unfolding scan_digits
parse_uint0-format_uint zero h = unfold parse_uint0 format_uint in refl
parse_uint0-format_uint (suc n) h =
    parse_uint0-Leads _
      (unfold format_uint in digits_onto-Leads (suc (suc n)) (suc n) [] (omega arith) (omega arith))
      (format_uint-IsDigit (suc n))
      (unfold format_uint in scan_digits-digits_onto true (suc (suc n)) (suc n) [] (omega arith) h)

parse_uint10-scan_digits : (s : Bytes) → s ≢ [] → parse_uint10 s ≡ scan_digits 10 false s 0
unfolding parse_uint10
parse_uint10-scan_digits [] h = absurd (h refl)
parse_uint10-scan_digits (c ∷ s) h = refl

scan_digits-zeros :
    (k : ℕ) (s : Bytes) → scan_digits 10 false (replicate k b'0' ++ s) 0 ≡ scan_digits 10 false s 0
unfolding scan_digits
scan_digits-zeros zero s = refl
scan_digits-zeros (suc k) s = scan_digits-zeros k s

append-ne-nil : (k : ℕ) (s : Bytes) → s ≢ [] → replicate k b'0' ++ s ≢ []
append-ne-nil zero s h = h
append-ne-nil (suc k) s h = cons-ne-nil _ _

-- Zeros in front change nothing in base 10.
pub parse_uint10-format_uint :
    (k n : ℕ) → n < 2 ^ 64 → parse_uint10 (replicate k b'0' ++ format_uint n) ≡ ok n
unfolding format_uint
parse_uint10-format_uint k n h =
    parse_uint10-scan_digits _ (append-ne-nil k _ (format_uint-ne-nil n))
    ∙ scan_digits-zeros k (format_uint n)
    ∙ scan_digits-digits_onto false (suc n) n [] (omega arith) h
    ∙ unfold scan_digits in refl
