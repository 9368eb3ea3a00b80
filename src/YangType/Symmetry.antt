-- ===== src/YangType/Symmetry.antt =====
-- `Equal` of pkg/yang/yangtype.go does not depend on the order of the two types.
use goyang.Base.{
  ℕ, ◌≡◌, refl, Bool, true, false, List, [], ◌∷◌, Option, none, some, Bytes, text_eq, ◌==◌, arith,
}
use goyang.Base.Int.{ℤ, beq_ℤ}
use goyang.Enum.{EnumType}
use goyang.Number
use goyang.Range
use goyang.Range.{YangRange, yrange_equal}
use goyang.YangType.{
  Fields, YangType, yang_type, Types, nil, absent, cons, kind_code, same_bool, same_address,
  ss_equal, fields_equal, equal, ts_equal,
}

same_number : (a b : ℕ) → (a == b) ≡ (b == a)
same_number a b = ground arith

pub text_eq_comm : (s t : Bytes) → text_eq s t ≡ text_eq t s
unfolding text_eq
text_eq_comm [] [] = refl
text_eq_comm [] (b ∷ t) = refl
text_eq_comm (a ∷ s) [] = refl
text_eq_comm (a ∷ s) (b ∷ t) = rw (same_number a b, text_eq_comm s t)

pub beq_ℤ_comm : (a b : ℤ) → beq_ℤ a b ≡ beq_ℤ b a
beq_ℤ_comm a b = ground arith

pub same_bool_comm : (a b : Bool) → same_bool a b ≡ same_bool b a
same_bool_comm true true = refl
same_bool_comm true false = refl
same_bool_comm false true = refl
same_bool_comm false false = refl

same_address_comm : (a b : Option ℕ) → same_address a b ≡ same_address b a
same_address_comm none none = refl
same_address_comm none (some b) = refl
same_address_comm (some a) none = refl
same_address_comm (some a) (some b) = same_number a b

ss_equal_comm : (s t : List Bytes) → ss_equal s t ≡ ss_equal t s
unfolding ss_equal
ss_equal_comm [] [] = refl
ss_equal_comm [] (b ∷ t) = refl
ss_equal_comm (a ∷ s) [] = refl
ss_equal_comm (a ∷ s) (b ∷ t) = rw (text_eq_comm a b, ss_equal_comm s t)

number_equal_comm : (n m : Number.Number) → Number.equal n m ≡ Number.equal m n
unfolding Number.equal
number_equal_comm n m = ground arith

yrange_equal_comm : (r s : Range.YRange) → yrange_equal r s ≡ yrange_equal s r
unfolding yrange_equal
yrange_equal_comm r s = rw (number_equal_comm r.min s.min, number_equal_comm r.max s.max)

range_equal_comm : (r s : YangRange) → Range.equal r s ≡ Range.equal s r
unfolding Range.equal
range_equal_comm [] [] = refl
range_equal_comm [] (b ∷ s) = refl
range_equal_comm (a ∷ r) [] = refl
range_equal_comm (a ∷ r) (b ∷ s) = rw (yrange_equal_comm a b, range_equal_comm r s)

module _ (cmp_equal : Option EnumType → Option EnumType → Bool)
    (cmp_comm : (d e : Option EnumType) → cmp_equal d e ≡ cmp_equal e d) where
  fields_equal_comm : (y t : Fields) → fields_equal cmp_equal y t ≡ fields_equal cmp_equal t y
  unfolding fields_equal
  fields_equal_comm y t = rw (
    same_number (kind_code y.kind) (kind_code t.kind),
    text_eq_comm y.units t.units,
    text_eq_comm y.default t.default,
    same_bool_comm y.has_default t.has_default,
    beq_ℤ_comm y.fraction_digits t.fraction_digits,
    same_address_comm y.identity_base t.identity_base,
    range_equal_comm y.length t.length,
    same_bool_comm y.optional_instance t.optional_instance,
    text_eq_comm y.path t.path,
    ss_equal_comm y.pattern t.pattern,
    ss_equal_comm y.posix_pattern t.posix_pattern,
    range_equal_comm y.range t.range,
    cmp_comm y.enum t.enum,
  )

  mutual
    unfolding equal

    equal_both : (y t : YangType) → equal cmp_equal y t ≡ equal cmp_equal t y
    equal_both (yang_type f ts) (yang_type g us) = rw (fields_equal_comm f g, ts_equal_both ts us)

    ts_equal_both : (ts us : Types) → ts_equal cmp_equal ts us ≡ ts_equal cmp_equal us ts
    ts_equal_both nil nil = refl
    ts_equal_both nil (absent us) = refl
    ts_equal_both nil (cons u us) = refl
    ts_equal_both (absent ts) nil = refl
    ts_equal_both (absent ts) (absent us) = ts_equal_both ts us
    ts_equal_both (absent ts) (cons u us) = refl
    ts_equal_both (cons t ts) nil = refl
    ts_equal_both (cons t ts) (absent us) = refl
    ts_equal_both (cons t ts) (cons u us) = rw (equal_both t u, ts_equal_both ts us)

  -- Equal gives the same result with its two types exchanged, where the comparison of enumerations
  -- does.
  pub equal_comm : (y t : YangType) → equal cmp_equal y t ≡ equal cmp_equal t y
  equal_comm y t = equal_both y t
