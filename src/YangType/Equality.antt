-- ===== src/YangType/Equality.antt =====
-- `Equal` of pkg/yang/yangtype.go as a relation on types.
use goyang.Base.{
  ℕ, ◌≡◌, refl, Bool, true, false, List, [], ◌∷◌, Option, none, some, Bytes, text_eq, text_eq_iff,
  arith,
}
use goyang.Base.Int.{ℤ, beq_ℤ, beq_ℤ_iff}
use goyang.Enum.{EnumType}
use goyang.Number
use goyang.Range
use goyang.Range.{YangRange, yrange_equal}
use goyang.YangType.{
  Fields, YangType, yang_type, Types, nil, absent, cons, same_bool, same_address, ss_equal,
  fields_equal, equal, ts_equal,
}

pub text_eq_refl : (s : Bytes) → text_eq s s ≡ true
text_eq_refl s = (text_eq_iff s s).1 refl

pub beq_ℤ_refl : (a : ℤ) → beq_ℤ a a ≡ true
beq_ℤ_refl a = (beq_ℤ_iff a a).1 refl

pub same_bool_refl : (b : Bool) → same_bool b b ≡ true
same_bool_refl true = refl
same_bool_refl false = refl

same_address_refl : (a : Option ℕ) → same_address a a ≡ true
same_address_refl none = refl
same_address_refl (some a) = ground arith

ss_equal_refl : (s : List Bytes) → ss_equal s s ≡ true
unfolding ss_equal
ss_equal_refl [] = refl
ss_equal_refl (a ∷ s) = rw (text_eq_refl a, ss_equal_refl s)

less_irrefl : (n : Number.Number) → Number.less n n ≡ false
unfolding Number.less
less_irrefl n = ground arith

yrange_equal_refl : (r : Range.YRange) → yrange_equal r r ≡ true
unfolding yrange_equal Number.equal
yrange_equal_refl r = rw (less_irrefl r.min, less_irrefl r.max)

range_equal_refl : (r : YangRange) → Range.equal r r ≡ true
unfolding Range.equal
range_equal_refl [] = refl
range_equal_refl (a ∷ r) = rw (yrange_equal_refl a, range_equal_refl r)

module _ (cmp_equal : Option EnumType → Option EnumType → Bool)
    (cmp_refl : (e : Option EnumType) → cmp_equal e e ≡ true) where
  fields_equal_refl : (y : Fields) → fields_equal cmp_equal y y ≡ true
  unfolding fields_equal
  fields_equal_refl y =
      rw
        (
          text_eq_refl y.units,
          text_eq_refl y.default,
          same_bool_refl y.has_default,
          beq_ℤ_refl y.fraction_digits,
          same_address_refl y.identity_base,
          range_equal_refl y.length,
          same_bool_refl y.optional_instance,
          text_eq_refl y.path,
          ss_equal_refl y.pattern,
          ss_equal_refl y.posix_pattern,
          range_equal_refl y.range,
          cmp_refl y.enum,
        )
        (ground arith)

  mutual
    unfolding equal

    equal_self : (y : YangType) → equal cmp_equal y y ≡ true
    equal_self (yang_type f ts) = rw (fields_equal_refl f, ts_equal_self ts)

    ts_equal_self : (ts : Types) → ts_equal cmp_equal ts ts ≡ true
    ts_equal_self nil = refl
    ts_equal_self (absent ts) = ts_equal_self ts
    ts_equal_self (cons y ts) = rw (equal_self y, ts_equal_self ts)

  -- A type is Equal to itself, where the comparison of enumerations finds each equal to itself.
  pub equal_refl : (y : YangType) → equal cmp_equal y y ≡ true
  equal_refl y = equal_self y
