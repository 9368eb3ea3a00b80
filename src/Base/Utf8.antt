-- ===== src/Base/Utf8.antt =====
-- `utf8.DecodeRuneInString`, `utf8.RuneCountInString` and the conversion of a rune to a string.
use Prim.Native.Nat.{ℕ, zero, suc, ◌+◌, ◌-◌, ◌*◌, ◌/◌, ◌%◌, ◌≤◌}
use mathlib.Core.Bool.{Bool, ◌&&◌, ◌||◌}
use mathlib.Core.List.{[], ◌∷◌}
use goyang.Base.Tests.{ltb, leb, ◌==◌, if◌then◌else◌}
use native.Mathlib.Omega.{arith}
use goyang.Base.Lists.{length}
use goyang.Base.Text.{Bytes}

abbrev pub rune_error : ℕ
rune_error = 0xFFFD

abbrev between : ℕ → ℕ → ℕ → Bool
between lo hi c = leb lo c && leb c hi

abbrev continues : ℕ → Bool
continues c = between 0x80 0xBF c

-- The bytes that may follow a leading byte of three, or of four.
abbrev second_of_three : ℕ → ℕ → Bool
second_of_three a b =
    if a == 0xE0
    then between 0xA0 0xBF b
    else if a == 0xED
    then between 0x80 0x9F b
    else continues b

abbrev second_of_four : ℕ → ℕ → Bool
second_of_four a b =
    if a == 0xF0
    then between 0x90 0xBF b
    else if a == 0xF4
    then between 0x80 0x8F b
    else continues b

abbrev invalid : ℕ × ℕ
invalid = (rune_error, 1)

decode_two : ℕ → Bytes → ℕ × ℕ
decode_two a [] = invalid
decode_two a (b ∷ s) = if continues b then ((a - 0xC0) * 64 + (b - 0x80), 2) else invalid

decode_three : ℕ → Bytes → ℕ × ℕ
decode_three a (b ∷ c ∷ s) =
    if second_of_three a b && continues c
    then ((a - 0xE0) * 4096 + (b - 0x80) * 64 + (c - 0x80), 3)
    else invalid
decode_three a _ = invalid

decode_four : ℕ → Bytes → ℕ × ℕ
decode_four a (b ∷ c ∷ d ∷ s) =
    if second_of_four a b && continues c && continues d
    then ((a - 0xF0) * 262144 + (b - 0x80) * 4096 + (c - 0x80) * 64 + (d - 0x80), 4)
    else invalid
decode_four a _ = invalid

-- The first rune and its width in bytes; an invalid encoding counts as `rune_error`, one byte wide.
unfoldable pub decode_rune : Bytes → ℕ × ℕ
unfolding decode_two decode_three decode_four
decode_rune [] = (rune_error, 0)
decode_rune (a ∷ s) =
    if ltb a 0x80
    then (a, 1)
    else if between 0xC2 0xDF a
    then decode_two a s
    else if between 0xE0 0xEF a
    then decode_three a s
    else if between 0xF0 0xF4 a
    then decode_four a s
    else invalid

-- `string(c)` of a rune; one that is out of range or a surrogate is written as `rune_error`.
unfoldable pub encode_rune : ℕ → Bytes
encode_rune r =
    if ltb r 0x80
    then r ∷ []
    else if ltb r 0x800
    then (0xC0 + r / 64) ∷ (0x80 + r % 64) ∷ []
    else if leb 0x110000 r || between 0xD800 0xDFFF r
    then 0xEF ∷ 0xBF ∷ 0xBD ∷ []
    else if ltb r 0x10000
    then (0xE0 + r / 4096) ∷ (0x80 + r / 64 % 64) ∷ (0x80 + r % 64) ∷ []
    else (0xF0 + r / 262144) ∷ (0x80 + r / 4096 % 64) ∷ (0x80 + r / 64 % 64) ∷ (0x80 + r % 64) ∷ []

-- The runes of a text, `skip` bytes of a rune being passed over.
unfoldable pub rune_count_from : ℕ → Bytes → ℕ
unfolding decode_rune
rune_count_from skip [] = 0
rune_count_from (suc skip) (c ∷ s) = rune_count_from skip s
rune_count_from zero (c ∷ s) = suc (rune_count_from ((decode_rune (c ∷ s)).1 - 1) s)

unfoldable pub rune_count : Bytes → ℕ
unfolding rune_count_from
rune_count s = rune_count_from zero s

-- The width of the first rune of a nonempty text is at least one byte, and inside the text.
pub decode_rune-width :
    (c : ℕ) (s : Bytes) → (1 ≤ (decode_rune (c ∷ s)).1) × ((decode_rune (c ∷ s)).1 ≤ suc (length s))
unfolding decode_rune
decode_rune-width c [] = ground arith
decode_rune-width c (x ∷ []) = ground arith
decode_rune-width c (x ∷ y ∷ []) = ground arith
decode_rune-width c (x ∷ y ∷ z ∷ s) = ground arith
