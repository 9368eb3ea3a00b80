-- ===== src/Restrict/Narrowing.antt =====
-- The range and the length of a type in `resolve` of pkg/yang/types.go.
use goyang.Base.{
  ◌≡◌, refl, List, Bool, true, false, Option, Bytes, ℕ, arith, inl, inr, ◌⊎◌, Option-cases,
  Bool-cases, ◌∙◌, subst, sym, ap, codes,
}
use goyang.Base.Result.{Result, ok, err, Result-cases, ◌>>=◌}
use goyang.Base.Strings.{split}
use goyang.Range
use goyang.Range.{YangRange, contains, validate, coalesce, sort}
use goyang.Range.Text.{ParseError, parse_child_ranges, ranges_of_parts, check_within}
use goyang.YangType.{Fields}
use goyang.Restrict.Values.{TypeError}
use goyang.Restrict.{
  TypeStatement, Resolving, resolve_instance, resolve_path, resolve_base, resolve_digits,
  resolve_range, resolve_length, resolve_enum, resolve_bits, restrict, restrict_ind, before_digits,
  after_digits, is_decimal64, parent_length, set_range, set_length, u8_of_int,
}

-- Whether `Validate` finds no fault.
abbrev pub is_fine {ℓ} : {E : Type 0} {A : Type ℓ} → Result E A → Bool
is_fine (ok a) = true
is_fine (err e) = false

-- A list of ranges that is `old`, or that passes `Validate` and lies within `parent`.
abbrev pub IsNarrowed : YangRange → YangRange → YangRange → Type 0
IsNarrowed parent old r = (r ≡ old) ⊎ ((contains parent r ≡ true) × (is_fine (validate r) ≡ true))

check_within-ok :
    (y r : YangRange) {r' : YangRange}
    → check_within y r ≡ ok r'
    → (r ≡ r') × (contains y r ≡ true) × (is_fine (validate r) ≡ true)
unfolding check_within
check_within-ok y r h = elim (Result-cases (validate r)) [
  | inl (u, p) ↦ ground arith
  | inr (x, p) ↦ ground arith
]

parse_child_ranges-ok :
    (y : YangRange) (s : Bytes) (decimal : Bool) (d : ℕ) {r : YangRange}
    → parse_child_ranges y s decimal d ≡ ok r
    → (contains y r ≡ true) × (is_fine (validate r) ≡ true)
unfolding parse_child_ranges
parse_child_ranges-ok y s decimal d {r} h =
    elim (Result-cases (ranges_of_parts y decimal d (split s (codes "|")))) [
      | inl (p, e) ↦
          let (same, c, v) =
            check_within-ok y (coalesce (sort p))
              (sym (ap (λ q. q >>= λ r. check_within y (coalesce (sort r))) e) ∙ h) in
          (subst (λ r. contains y r ≡ true) same c, subst (λ r. is_fine (validate r) ≡ true) same v)
      | inr (x, p) ↦ ground arith
    ]

set_range-IsNarrowed :
    (s : Resolving) (q : Result ParseError YangRange)
    → ((r : YangRange)
        → q ≡ ok r
        → (contains s.fields.range r ≡ true) × (is_fine (validate r) ≡ true))
    → IsNarrowed s.fields.range s.fields.range (set_range s q).fields.range
set_range-IsNarrowed s (err e) f = inl refl
set_range-IsNarrowed s (ok r) f = elim (Bool-cases (Range.equal r s.fields.range)) [
  | inl e ↦ rw (e, set_range) (inl refl)
  | inr e ↦ rw (e, set_range) (inr (f r refl))
]

set_length-IsNarrowed :
    (s : Resolving) (q : Result ParseError YangRange)
    → ((r : YangRange)
        → q ≡ ok r
        → (contains (parent_length s.fields.length) r ≡ true) × (is_fine (validate r) ≡ true))
    → IsNarrowed (parent_length s.fields.length) s.fields.length (set_length s q).fields.length
set_length-IsNarrowed s (err e) f = inl refl
set_length-IsNarrowed s (ok r) f = elim (Bool-cases (Range.equal r s.fields.length)) [
  | inl e ↦ rw (e, set_length) (inl refl)
  | inr e ↦ rw (e, set_length) (inr (f r refl))
]

range_narrows :
    (decimal : Bool) (t : TypeStatement) (s : Resolving)
    → IsNarrowed s.fields.range s.fields.range (resolve_range decimal t s).fields.range
unfolding resolve_range
range_narrows decimal t s = elim (Option-cases t.range) [
  | inl e ↦ rw (e, resolve_range) (inl refl)
  | inr (v, e) ↦
      rw (e, resolve_range)
        (set_range-IsNarrowed s
          (parse_child_ranges s.fields.range v decimal (u8_of_int s.fields.fraction_digits))
          (λ r.
            parse_child_ranges-ok s.fields.range v decimal (u8_of_int s.fields.fraction_digits)))
]

length_narrows :
    (t : TypeStatement) (s : Resolving)
    → IsNarrowed (parent_length s.fields.length) s.fields.length (resolve_length t s).fields.length
unfolding resolve_length
length_narrows t s = elim (Option-cases t.length) [
  | inl e ↦ rw (e, resolve_length) (inl refl)
  | inr (v, e) ↦
      rw (e, resolve_length)
        (set_length-IsNarrowed s (parse_child_ranges (parent_length s.fields.length) v false 0)
          (λ r. parse_child_ranges-ok (parent_length s.fields.length) v false 0))
]

-- Two types with the same range and the same length.
record Agrees (y z : Fields) : Type 0 where
  range : z.range ≡ y.range
  length : z.length ≡ y.length

before-Agrees : (t : TypeStatement) (y : Fields) → Agrees y (before_digits t y).fields
unfolding before_digits resolve_instance resolve_path
before-Agrees t y = record { range = ground arith; length = ground arith }

digits-Agrees :
    (find_base : Bytes → Result (List TypeError) (Option ℕ)) (builtin : Bool) (t : TypeStatement)
    (s : Resolving)
    → is_decimal64 t s.fields ≡ false
    → Agrees s.fields (resolve_digits find_base builtin t s).1.fields
unfolding resolve_digits resolve_base
digits-Agrees find_base builtin t s e = record { range = ground arith; length = ground arith }

is_decimal64-before :
    (t : TypeStatement) (y : Fields) → is_decimal64 t (before_digits t y).fields ≡ is_decimal64 t y
unfolding is_decimal64 before_digits resolve_instance resolve_path
is_decimal64-before t y = ground arith

range_length :
    (decimal : Bool) (t : TypeStatement) (s : Resolving)
    → (resolve_range decimal t s).fields.length ≡ s.fields.length
unfolding resolve_range
range_length decimal t s = ground arith

after_range :
    (decimal : Bool) (t : TypeStatement) (s : Resolving)
    → (after_digits decimal t s).fields.range ≡ (resolve_range decimal t s).fields.range
unfolding after_digits resolve_bits resolve_enum resolve_length
after_range decimal t s = ground arith

after_length :
    (decimal : Bool) (t : TypeStatement) (s : Resolving)
    → (after_digits decimal t s).fields.length
      ≡ (resolve_length t (resolve_range decimal t s)).fields.length
unfolding after_digits resolve_bits resolve_enum
after_length decimal t s = ground arith

-- Whatever errors there are, the range of the type that a statement makes of another is the other's
-- range, or passes `Validate` and lies within it, and its length is the other's, or passes
-- `Validate` and lies within it, or within uint64 if the other has none. A decimal64 is excepted.
pub restrict-IsNarrowed :
    (find_base : Bytes → Result (List TypeError) (Option ℕ)) (builtin : Bool) (t : TypeStatement)
    (y : Fields)
    → is_decimal64 t y ≡ false
    → IsNarrowed y.range y.range (restrict find_base builtin t y).fields.range
      × IsNarrowed (parent_length y.length) y.length (restrict find_base builtin t y).fields.length
restrict-IsNarrowed find_base builtin t y e =
    let s0 = before_digits t y in
    let s = (resolve_digits find_base builtin t s0).1 in
    let b = before-Agrees t y in
    let d = digits-Agrees find_base builtin t s0 (is_decimal64-before t y ∙ e) in
    let at_range = d.range ∙ b.range in
    let at_length = d.length ∙ b.length in
    let dec = is_decimal64 t y in
    restrict_ind find_base
      (λ r.
        IsNarrowed y.range y.range r.fields.range
        × IsNarrowed (parent_length y.length) y.length r.fields.length)
      builtin t y
      (
        (inl at_range, inl at_length),
        rw (after_range dec t s, after_length dec t s)
            (
              subst (λ q. IsNarrowed q q (resolve_range dec t s).fields.range) at_range
                  (range_narrows dec t s),
              subst
                  (λ q.
                    IsNarrowed (parent_length q) q
                      (resolve_length t (resolve_range dec t s)).fields.length)
                  (range_length dec t s ∙ at_length) (length_narrows t (resolve_range dec t s)),
            ),
      )
