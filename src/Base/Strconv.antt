-- ===== src/Base/Strconv.antt =====
-- `FormatUint`, `ParseUint` and `ParseInt` of Go's `strconv` package.
pub mod Digits
use Prim.Native.Nat.{ℕ, zero, suc, ◌+◌, ◌-◌, ◌*◌, ◌/◌, ◌%◌, ◌^◌}
use mathlib.Core.Bool.{Bool, true, false, not, ◌&&◌, ◌||◌}
use mathlib.Core.List.{List, [], ◌∷◌, ◌++◌}
use mathlib.Core.Option.{Option, none, some}
use goyang.Base.Tests.{ltb, leb, ◌==◌, if◌then◌else◌}
use goyang.Base.Int.{ℤ, pos, negsuc}
use goyang.Base.Result.{Result, ok, err, ◌>>=◌}
use goyang.Base.Text.{Bytes}
use goyang.Base.Word.{i64_of_u64, neg_i64}

pub data ConvError : Type 0 where
  bad_syntax out_of_range : ConvError

-- The digits of `n` before `out`; each round divides by ten, and `n` rounds and one are enough.
unfoldable pub digits_onto : ℕ → ℕ → Bytes → Bytes
digits_onto zero n out = out
digits_onto (suc fuel) n out =
    let rest = digits_onto fuel (n / 10) ((b'0' + n % 10) ∷ out) in
    if ltb n 10 then (b'0' + n % 10) ∷ out else rest

-- `strconv.FormatUint(n, 10)`
unfoldable pub format_uint : ℕ → Bytes
unfolding digits_onto
format_uint n = digits_onto (suc n) n []

-- `c | ('x' - 'X')`, on a byte.
abbrev pub lower : ℕ → ℕ
lower c = if c / 32 % 2 == 0 then c + 32 else c

-- The value of a digit of any base up to 36.
abbrev pub digit_value : ℕ → Option ℕ
digit_value c =
    if leb b'0' c && leb c b'9'
    then some (c - b'0')
    else if leb b'a' (lower c) && leb (lower c) b'z'
    then some (lower c - b'a' + 10)
    else none

-- One digit more: `n*base + d`, refused where it leaves 64 bits.
abbrev pub push_digit : ℕ → ℕ → ℕ → Result ConvError ℕ
push_digit base n d =
    if leb base d
    then err bad_syntax
    else if leb ((2 ^ 64 - 1) / base + 1) n
    then err out_of_range
    else if leb (2 ^ 64) (n * base + d)
    then err out_of_range
    else ok (n * base + d)

abbrev pub next_digit : ℕ → ℕ → ℕ → Result ConvError ℕ
next_digit base n c = elim (digit_value c) [ none ↦ err bad_syntax | some d ↦ push_digit base n d ]

-- The loop of `ParseUint`; underscores are passed over where the base was 0.
unfoldable pub scan_digits : ℕ → Bool → Bytes → ℕ → Result ConvError ℕ
scan_digits base base0 [] n = ok n
scan_digits base base0 (c ∷ s) n =
    let next = next_digit base n c >>= (λ n'. scan_digits base base0 s n') in
    let same = scan_digits base base0 s n in if c == b'_' && base0 then same else next

unfoldable pub has_underscore : Bytes → Bool
has_underscore [] = false
has_underscore (c ∷ s) = c == b'_' || has_underscore s

-- The last byte that `underscoreOK` saw: the start, a digit, an underscore, or anything else.
pub data Seen : Type 0 where
  start digit underscore other : Seen

abbrev is_underscore : Seen → Bool
is_underscore underscore = true
is_underscore _ = false

abbrev is_digit_seen : Seen → Bool
is_digit_seen digit = true
is_digit_seen _ = false

scan_underscores : Bool → Seen → Bytes → Bool
scan_underscores hex i [] = not (is_underscore i)
scan_underscores hex i (c ∷ s) =
    let a = scan_underscores hex digit s in
    let b = scan_underscores hex underscore s in
    let d = scan_underscores hex other s in
    if leb b'0' c && leb c b'9' || hex && leb b'a' (lower c) && leb (lower c) b'f'
    then a
    else if c == b'_'
    then (if is_digit_seen i then b else false)
    else if is_underscore i
    then false
    else d

underscore_prefix : Bytes → Bool
unfolding scan_underscores
underscore_prefix (z ∷ x ∷ s) =
    if z == b'0' && (lower x == b'b' || lower x == b'o' || lower x == b'x')
    then scan_underscores (lower x == b'x') digit s
    else scan_underscores false start (z ∷ x ∷ s)
underscore_prefix s = scan_underscores false start s

-- `underscoreOK`
underscore_ok : Bytes → Bool
unfolding underscore_prefix
underscore_ok [] = underscore_prefix []
underscore_ok (c ∷ s) =
    if c == b'-' || c == b'+' then underscore_prefix s else underscore_prefix (c ∷ s)

-- The base that a prefix sets, and what follows the prefix.
base_prefix : Bytes → ℕ × Bytes
base_prefix (z ∷ x ∷ d ∷ s) =
    if not (z == b'0')
    then (10, z ∷ x ∷ d ∷ s)
    else if lower x == b'b'
    then (2, d ∷ s)
    else if lower x == b'o'
    then (8, d ∷ s)
    else if lower x == b'x'
    then (16, d ∷ s)
    else (8, x ∷ d ∷ s)
base_prefix (z ∷ s) = if z == b'0' then (8, s) else (10, z ∷ s)
base_prefix [] = (10, [])

check_underscores : Bytes → ℕ → Result ConvError ℕ
unfolding underscore_ok has_underscore
check_underscores s n = if has_underscore s && not (underscore_ok s) then err bad_syntax else ok n

-- `strconv.ParseUint(s, 0, 64)`
unfoldable pub parse_uint0 : Bytes → Result ConvError ℕ
unfolding base_prefix scan_digits check_underscores
parse_uint0 [] = err bad_syntax
parse_uint0 (c ∷ s) =
    let (base, body) = base_prefix (c ∷ s) in
    scan_digits base true body 0 >>= λ n. check_underscores (c ∷ s) n

-- `strconv.ParseUint(s, 10, 64)`
unfoldable pub parse_uint10 : Bytes → Result ConvError ℕ
unfolding scan_digits
parse_uint10 [] = err bad_syntax
parse_uint10 (c ∷ s) = scan_digits 10 false (c ∷ s) 0

-- The sign given to what `ParseUint` returned; beyond 2 ^ 63 the value does not fit.
abbrev pub signed : Bool → ℕ → Result ConvError ℤ
signed neg un =
    if not neg && leb (2 ^ 63) un
    then err out_of_range
    else if neg && ltb (2 ^ 63) un
    then err out_of_range
    else ok (if neg then neg_i64 (i64_of_u64 un) else i64_of_u64 un)

-- `strconv.ParseInt(s, 10, 64)`
unfoldable pub parse_int10 : Bytes → Result ConvError ℤ
unfolding parse_uint10
parse_int10 [] = err bad_syntax
parse_int10 (c ∷ s) =
    if c == b'+'
    then parse_uint10 s >>= signed false
    else if c == b'-'
    then parse_uint10 s >>= signed true
    else parse_uint10 (c ∷ s) >>= signed false
