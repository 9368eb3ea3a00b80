-- ===== src/Entry/Elements.antt =====
-- The arguments of min-elements and max-elements (pkg/yang/entry.go): the numbers that are accepted.
use goyang.Base.{
  ℕ, ◌≤◌, ◌<◌, ◌^◌, ◌≡◌, refl, Bool, false, [], ◌∷◌, Option, none, some, Bytes, codes, text_eq,
  arith, if◌then◌else◌, either, if_cases, ◌+◌, ◌*◌, ◌-◌, ◌/◌, ◌&&◌, leb, ◌==◌, All,
}
use goyang.Base.Result.{Result, ok, err, ◌>>=◌}
use goyang.Base.Strconv.{
  ConvError, bad_syntax, scan_digits, push_digit, next_digit, digit_value, parse_uint10,
  format_uint,
}
use goyang.Base.Strconv.Digits.{IsDigit, format_uint-IsDigit, parse_uint10-format_uint}
use goyang.Entry.{
  ElementsError, sem_check_max_elements, sem_check_min_elements, max_uint64, not_a_number, is_zero,
}

-- A result that is a number is one of 64 bits.
abbrev Is64 : Result ConvError ℕ → Type 0
Is64 (ok n) = n < 2 ^ 64
Is64 (err e) = Unit

fits : (n : ℕ) → leb (2 ^ 64) n ≡ false → n < 2 ^ 64
fits n h = ground arith

push_digit-Is64 : (base n d : ℕ) → Is64 (push_digit base n d)
push_digit-Is64 base n d = either (leb base d) Is64 tt (
    either (leb ((2 ^ 64 - 1) / base + 1) n) Is64 tt
      (if_cases (leb (2 ^ 64) (n * base + d)) Is64 (λ h. tt) (λ h. fits (n * base + d) h)))

digit-Is64 :
    (base n : ℕ) (o : Option ℕ)
    → Is64 (elim o [ none ↦ err bad_syntax | some d ↦ push_digit base n d ])
digit-Is64 base n none = tt
digit-Is64 base n (some d) = push_digit-Is64 base n d

bind-Is64 :
    (r : Result ConvError ℕ) (f : ℕ → Result ConvError ℕ)
    → Is64 r
    → ((n : ℕ) → n < 2 ^ 64 → Is64 (f n))
    → Is64 (r >>= f)
bind-Is64 (ok n) f h k = k n h
bind-Is64 (err e) f h k = tt

scan_digits-Is64 :
    (base : ℕ) (base0 : Bool) (s : Bytes) (n : ℕ) → n < 2 ^ 64 → Is64 (scan_digits base base0 s n)
unfolding scan_digits
scan_digits-Is64 base base0 [] n h = h
scan_digits-Is64 base base0 (c ∷ s) n h =
    either (c == b'_' && base0) Is64 (scan_digits-Is64 base base0 s n h) (
      bind-Is64 (next_digit base n c) (λ m. scan_digits base base0 s m)
        (digit-Is64 base n (digit_value c)) (λ m k. scan_digits-Is64 base base0 s m k))

parse_uint10-Is64 : (s : Bytes) → Is64 (parse_uint10 s)
unfolding parse_uint10
parse_uint10-Is64 [] = tt
parse_uint10-Is64 (c ∷ s) = scan_digits-Is64 10 false (c ∷ s) 0 (omega arith)

-- A number that an argument is accepted as is within these bounds.
abbrev pub Within : ℕ → Result ElementsError ℕ → Type 0
Within low (ok n) = (low ≤ n) × (n ≤ max_uint64)
Within low (err e) = Unit

checked_max-Within :
    (r : Result ConvError ℕ)
    → Is64 r
    → Within 1
        (elim r [ err e ↦ err (not_a_number e) | ok n ↦ if n == 0 then err is_zero else ok n ])
checked_max-Within (err e) h = tt
checked_max-Within (ok n) h =
    if_cases (n == 0) (Within 1) (λ z. tt) (λ z. (ground arith, omega arith))

checked_min-Within :
    (r : Result ConvError ℕ)
    → Is64 r
    → Within 0 (elim r [ err e ↦ err (not_a_number e) | ok n ↦ ok n ])
checked_min-Within (err e) h = tt
checked_min-Within (ok n) h = (omega arith, omega arith)

max-Within : (v : Option Bytes) → Within 1 (sem_check_max_elements v)
unfolding sem_check_max_elements
max-Within none = (omega arith, omega arith)
max-Within (some v) =
    either (text_eq v (codes "unbounded")) (Within 1) (omega arith, omega arith)
      (checked_max-Within (parse_uint10 v) (parse_uint10-Is64 v))

min-Within : (v : Option Bytes) → Within 0 (sem_check_min_elements v)
unfolding sem_check_min_elements
min-Within none = (omega arith, omega arith)
min-Within (some v) = checked_min-Within (parse_uint10 v) (parse_uint10-Is64 v)

no_max : sem_check_max_elements none ≡ ok max_uint64
unfolding sem_check_max_elements
no_max = refl

unbounded : sem_check_max_elements (some (codes "unbounded")) ≡ ok max_uint64
unfolding sem_check_max_elements text_eq
unbounded = refl

no_min : sem_check_min_elements none ≡ ok 0
unfolding sem_check_min_elements
no_min = refl

reads : (n : ℕ) → n ≤ max_uint64 → parse_uint10 (format_uint n) ≡ ok n
reads n h = parse_uint10-format_uint 0 n (omega arith)

reads_min : (n : ℕ) → n ≤ max_uint64 → sem_check_min_elements (some (format_uint n)) ≡ ok n
unfolding sem_check_min_elements
reads_min n h = rw (sem_check_min_elements, reads n h) refl

digits_no_word : (s : Bytes) → All IsDigit s → text_eq s (codes "unbounded") ≡ false
unfolding text_eq
digits_no_word [] h = refl
digits_no_word (c ∷ s) h = ground arith

-- A word that does not begin with a digit is no number.
not_word : (n : ℕ) → text_eq (format_uint n) (codes "unbounded") ≡ false
not_word n = digits_no_word (format_uint n) (format_uint-IsDigit n)

reads_max :
    (n : ℕ)
    → n ≤ max_uint64
    → sem_check_max_elements (some (format_uint n)) ≡ (if n == 0 then err is_zero else ok n)
unfolding sem_check_max_elements
reads_max n h = rw (sem_check_max_elements, not_word n, reads n h) refl

-- Every argument that is accepted gives a number of 64 bits, and not zero for max-elements. The missing
-- argument and "unbounded" are accepted by max-elements as the greatest number, the missing argument by
-- min-elements as zero. The digits of a number of 64 bits are accepted as it, but for max-elements zero is
-- an error.
pub sem_check_elements_bounds :
    (v : Option Bytes) (n : ℕ)
    → n ≤ max_uint64
    → Within 1 (sem_check_max_elements v)
      × Within 0 (sem_check_min_elements v)
      × (sem_check_max_elements none ≡ ok max_uint64)
      × (sem_check_max_elements (some (codes "unbounded")) ≡ ok max_uint64)
      × (sem_check_min_elements none ≡ ok 0)
      × (sem_check_min_elements (some (format_uint n)) ≡ ok n)
      × (sem_check_max_elements (some (format_uint n)) ≡ (if n == 0 then err is_zero else ok n))
sem_check_elements_bounds v n h =
    (max-Within v, min-Within v, no_max, unbounded, no_min, reads_min n h, reads_max n h)
