-- ===== src/Restrict/Digits.antt =====
-- The fraction digits of a decimal64 in `resolve` of pkg/yang/types.go.
use goyang.Base.{
  ◌≡◌, refl, List, [], ◌∷◌, ◌++◌, Bool, true, Option, none, some, Bytes, ℕ, arith, inl, inr, ◌⊎◌,
  List-cases, ◌∙◌, subst, ap, sym, text_eq, codes,
}
use goyang.Base.Int.{ℤ, pos, ◌≤ℤ◌, beq_ℤ_iff}
use goyang.Base.Result.{Result, ok, err, Result-cases}
use goyang.Enum.{EnumType, new_enum_type, new_bitfield}
use goyang.Kind.{ydecimal64}
use goyang.Number.{int}
use goyang.Number.Text.{parse_int}
use goyang.YangType.{Fields, kind_code}
use goyang.Restrict.Values.{TypeError, as_range_int}
use goyang.Restrict.{
  TypeStatement, Resolving, resolve_instance, resolve_path, resolve_digits, resolve_range,
  resolve_length, resolve_enum, resolve_bits, restrict, is_decimal64, before_digits, after_digits,
  set_member, set_members, restrict_ind,
}

-- A value that asRangeInt accepts is in the range.
pub as_range_int-bounds :
    (v : Option Bytes) (min max : ℤ) {i : ℤ}
    → as_range_int v min max ≡ ok i
    → (min ≤ℤ i) × (i ≤ℤ max)
unfolding as_range_int
as_range_int-bounds none min max h = ground arith
as_range_int-bounds (some s) min max {i} h = elim (Result-cases (parse_int s)) [
  | inl (m, p) ↦ elim (Result-cases (int m)) [
    | inl (j, q) ↦ ground arith
    | inr (x, q) ↦ ground arith
  ]
  | inr (x, p) ↦ ground arith
]

-- A list that an element is added to was not left empty.
concat-nil : {A : Type 0} (xs : List A) (a : A) → xs ++ a ∷ [] ≡ [] → xs ≡ []
concat-nil [] a h = refl
concat-nil (x ∷ xs) a h = ground arith

-- A step that leaves the digits alone, and that reports no fewer errors.
pub record Preserves (s s' : Resolving) : Type 0 where
  digits : s'.fields.fraction_digits ≡ s.fields.fraction_digits
  pub quiet : s'.errors ≡ [] → s.errors ≡ []

range-Preserves :
    (decimal : Bool) (t : TypeStatement) (s : Resolving) → Preserves s (resolve_range decimal t s)
unfolding resolve_range
range-Preserves decimal t s = record {
  digits = ground arith;
  quiet = λ h. ground (arith, concat-nil s.errors);
}

length-Preserves : (t : TypeStatement) (s : Resolving) → Preserves s (resolve_length t s)
unfolding resolve_length
length-Preserves t s = record {
  digits = ground arith;
  quiet = λ h. ground (arith, concat-nil s.errors);
}

module _ (n : Bytes) (v : Option Bytes) (ms : List (Bytes × Option Bytes)) (errors : List TypeError)
    (e : EnumType) where
  pub set_members-ok :
      {e' : EnumType}
      → set_member e n v ≡ ok e'
      → set_members ((n, v) ∷ ms) errors e ≡ set_members ms errors e'
  unfolding set_members
  set_members-ok h = rw (h, set_members) refl

  pub set_members-err :
      {x : TypeError}
      → set_member e n v ≡ err x
      → set_members ((n, v) ∷ ms) errors e ≡ set_members ms (errors ++ x ∷ []) e
  unfolding set_members
  set_members-err h = rw (h, set_members) refl

pub set_members-quiet :
    (ms : List (Bytes × Option Bytes)) (errors : List TypeError) (e : EnumType)
    → (set_members ms errors e).0 ≡ []
    → errors ≡ []
unfolding set_members
set_members-quiet [] errors e h = h
set_members-quiet ((n, v) ∷ ms) errors e h = elim (Result-cases (set_member e n v)) [
  | inl (e', p) ↦
      set_members-quiet ms errors e' (ap (λ r. r.0) (sym (set_members-ok n v ms errors e p)) ∙ h)
  | inr (x, p) ↦ concat-nil errors x (
      set_members-quiet ms (errors ++ x ∷ []) e
        (ap (λ r. r.0) (sym (set_members-err n v ms errors e p)) ∙ h))
]

enum-Preserves : (t : TypeStatement) (s : Resolving) → Preserves s (resolve_enum t s)
unfolding resolve_enum
enum-Preserves t s = elim (List-cases t.enums) [
  | inl e ↦ rw (e, resolve_enum) (record { digits = refl; quiet = λ h. h })
  | inr (m, ms, e) ↦
      rw (e, resolve_enum)
        (record { digits = refl; quiet = set_members-quiet (m ∷ ms) s.errors new_enum_type })
]

pub bits-Preserves : (t : TypeStatement) (s : Resolving) → Preserves s (resolve_bits t s)
unfolding resolve_bits
bits-Preserves t s = elim (List-cases t.bits) [
  | inl e ↦ rw (e, resolve_bits) (record { digits = refl; quiet = λ h. h })
  | inr (m, ms, e) ↦
      rw (e, resolve_bits)
        (record { digits = refl; quiet = set_members-quiet (m ∷ ms) s.errors new_bitfield })
]

after-Preserves :
    (decimal : Bool) (t : TypeStatement) (s : Resolving) → Preserves s (after_digits decimal t s)
unfolding after_digits
after-Preserves decimal t s =
    let s2 = resolve_range decimal t s in
    let s3 = resolve_length t s2 in
    let s4 = resolve_enum t s3 in
    let k1 = range-Preserves decimal t s in
    let k2 = length-Preserves t s2 in
    let k3 = enum-Preserves t s3 in
    let k4 = bits-Preserves t s4 in
    record {
      digits = k4.digits ∙ k3.digits ∙ k2.digits ∙ k1.digits;
      quiet = λ h. k1.quiet (k2.quiet (k3.quiet (k4.quiet h)));
    }

before_same :
    (t : TypeStatement) (y : Fields)
    → ((before_digits t y).fields.kind ≡ y.kind)
      × ((before_digits t y).fields.fraction_digits ≡ y.fraction_digits)
unfolding before_digits resolve_instance resolve_path
before_same t y = (ground arith, ground arith)

-- Digits from 1 to 18.
abbrev pub IsInBounds : ℤ → Type 0
IsInBounds i = (pos 1 ≤ℤ i) × (i ≤ℤ pos 18)

digits_InBounds :
    (find_base : Bytes → Result (List TypeError) (Option ℕ)) (builtin : Bool) (t : TypeStatement)
    (s : Resolving)
    → s.fields.kind ≡ ydecimal64
    → s.fields.fraction_digits ≡ pos 0
    → text_eq t.name (codes "decimal64") ≡ true
    → (resolve_digits find_base builtin t s).1.errors ≡ []
    → IsInBounds (resolve_digits find_base builtin t s).1.fields.fraction_digits
unfolding resolve_digits is_decimal64 kind_code
digits_InBounds find_base builtin t s k z n h =
    elim (Result-cases (as_range_int t.fraction_digits (pos 1) (pos 18))) [
      | inl (i, p) ↦ ground (
        arith,
        as_range_int-bounds t.fraction_digits (pos 1) (pos 18) p,
        beq_ℤ_iff s.fields.fraction_digits (pos 0),
      )
      | inr (x, p) ↦
          ground (arith, concat-nil s.errors x, beq_ℤ_iff s.fields.fraction_digits (pos 0))
    ]

digits_inherited :
    (find_base : Bytes → Result (List TypeError) (Option ℕ)) (builtin : Bool) (t : TypeStatement)
    (s : Resolving)
    → s.fields.kind ≡ ydecimal64
    → IsInBounds s.fields.fraction_digits
    → (resolve_digits find_base builtin t s).1.fields.fraction_digits ≡ s.fields.fraction_digits
unfolding resolve_digits is_decimal64 kind_code
digits_inherited find_base builtin t s k b =
    ground (arith, beq_ℤ_iff s.fields.fraction_digits (pos 0))

-- A decimal64 that is resolved without an error has from 1 to 18 fraction digits, where the type
-- below is the built-in one, without digits, or has from 1 to 18 itself.
pub restrict-InBounds :
    (find_base : Bytes → Result (List TypeError) (Option ℕ)) (builtin : Bool) (t : TypeStatement)
    (y : Fields)
    → y.kind ≡ ydecimal64
    → ((y.fraction_digits ≡ pos 0) × (text_eq t.name (codes "decimal64") ≡ true))
      ⊎ IsInBounds y.fraction_digits
    → (restrict find_base builtin t y).errors ≡ []
    → IsInBounds (restrict find_base builtin t y).fields.fraction_digits
restrict-InBounds find_base builtin t y k b =
    let s = (resolve_digits find_base builtin t (before_digits t y)).1 in
    let a = after-Preserves (is_decimal64 t y) t s in
    restrict_ind find_base (λ r. r.errors ≡ [] → IsInBounds r.fields.fraction_digits) builtin t y
      (digits_hold b, λ h. subst IsInBounds (sym a.digits) (digits_hold b (a.quiet h)))
  where
    digits_hold :
        ((y.fraction_digits ≡ pos 0) × (text_eq t.name (codes "decimal64") ≡ true))
          ⊎ IsInBounds y.fraction_digits
        → (resolve_digits find_base builtin t (before_digits t y)).1.errors ≡ []
        → IsInBounds
            (resolve_digits find_base builtin t (before_digits t y)).1.fields.fraction_digits
    digits_hold (inl (z, n)) h =
        digits_InBounds find_base builtin t (before_digits t y) ((before_same t y).0 ∙ k)
          ((before_same t y).1 ∙ z) n h
    digits_hold (inr d) h =
        let d1 = subst IsInBounds (sym (before_same t y).1) d in
        subst IsInBounds
          (sym
            (digits_inherited find_base builtin t (before_digits t y) ((before_same t y).0 ∙ k) d1))
          d1
