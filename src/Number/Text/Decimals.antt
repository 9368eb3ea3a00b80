-- ===== src/Number/Text/Decimals.antt =====
-- Decimals are read back from their prints: the point goes in `fd` places from the right, and
-- `decimalValueFromString` takes it out again.
pub mod RoundTrip
use goyang.Base.{
  ℕ, zero, suc, ◌+◌, ◌-◌, ◌*◌, ◌%◌, ◌^◌, ◌≤◌, ◌<◌, ◌≡◌, ◌≢◌, refl, ap, ◌∙◌, Bool, true, false, ◌&&◌,
  ◌||◌, List, [], ◌∷◌, ◌++◌, Bool-cases, inl, inr, Option, none, some, ltb, leb, ◌==◌,
  if◌then◌else◌, Bytes, arith, All, All-append, not, length, take, drop, length-append, length-drop,
  take-append-drop, replicate, length-replicate,
}
use native.Mathlib.Numerals.{add-one}
use goyang.Base.Result.{Result, ok, err}
use goyang.Base.Strings.{index, has_prefix}
use goyang.Base.Strconv.{format_uint}
use goyang.Base.Strconv.Digits.{
  IsDigit, format_uint-IsDigit, format_uint-ne-nil, parse_uint10-format_uint,
}
use goyang.Number.{Number, IsCanonical, is_decimal}
use goyang.Number.Text.{
  point, string, without_point, decimal_value_from_string, parse_decimal, zeros,
}

-- The digits with the zeros that `String` puts in front of them: at least one before the point.
abbrev padded : ℕ → Bytes → Bytes
padded fd out = zeros (fd + 1 - length out) ++ out

abbrev split_at : ℕ → Bytes → Bytes
split_at k s = take k s ++ (b'.' ∷ drop k s)

length-padded : (fd : ℕ) (out : Bytes) → fd < length (padded fd out)
length-padded fd out = omega (
  arith,
  length-append (zeros (fd + 1 - length out)) out,
  length-replicate {A = ℕ} (fd + 1 - length out) b'0',
)

point-padded :
    (fd : ℕ) (out : Bytes) → point fd out ≡ split_at (length (padded fd out) - fd) (padded fd out)
unfolding point
point-padded fd out = elim (Bool-cases (leb (length out) fd)) [
  | inl few ↦
      let size : length (padded fd out) - fd ≡ 1 = ground (
        arith,
        length-append (zeros (fd + 1 - length out)) out,
        length-replicate {A = ℕ} (fd + 1 - length out) b'0',
      ) in
      let count : fd - length out + 1 ≡ fd + 1 - length out = ground arith in
      rw few (rw (count, size))
  | inr enough ↦ let count : fd + 1 - length out ≡ 0 = ground arith in rw enough (rw count)
]

index-append :
    (a b : Bytes) → All (λ c. c ≢ b'.') a → index (a ++ (b'.' ∷ b)) (b'.' ∷ []) ≡ some (length a)
unfolding index
index-append [] b h = refl
index-append (c ∷ a) b h = ground (arith, index-append a b h.1)

take-length-append : (a b : Bytes) → take (length a) (a ++ b) ≡ a
take-length-append [] b = refl
take-length-append (c ∷ a) b = rw (take-length-append a b)

drop-length-append : (a b : Bytes) (x : ℕ) → drop (length a + 1) (a ++ (x ∷ b)) ≡ b
drop-length-append a b x = simp add-one (go a)
  where
    go : (a : Bytes) → drop (suc (length a)) (a ++ (x ∷ b)) ≡ b
    go [] = refl
    go (c ∷ a) = go a

-- Taking the first point out gives both parts, and counts the digits behind it.
without_point-append :
    (a b : Bytes)
    → All (λ c. c ≢ b'.') a
    → length b < 256
    → without_point (a ++ (b'.' ∷ b)) ≡ (length b, a ++ b)
without_point-append a b h small =
    let size : (length (a ++ (b'.' ∷ b)) - 1 - length a) % 256 ≡ length b =
      omega (arith, length-append a (b'.' ∷ b)) in
    rw (index-append a b h, without_point) (rw (size, take-length-append, drop-length-append))
