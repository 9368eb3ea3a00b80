-- ===== src/YangType.antt =====
-- `YangType` of pkg/yang/yangtype.go, its `Equal`, and the table of base types.
--
-- A pointer to a syntax node, an identity or the root type is its address. `Equal` follows no other
-- pointers than those of `Type`, which may be nil, so the test `y == t` is a shortcut for equal
-- values. The comparison of enumerations by the package `cmp` is a parameter.
pub mod Equality
pub mod Symmetry
pub mod Bases
use goyang.Base.{
  ℕ, Bool, true, false, not, ◌&&◌, List, [], ◌∷◌, Option, none, some, Bytes, codes, text_eq, length,
  ◌==◌,
}
use goyang.Base.Int.{ℤ, pos, beq_ℤ}
use goyang.Base.Options.{◌>>=◌}
use goyang.Base.Result.{ok, err}
use goyang.Enum.{EnumType}
use goyang.Kind.{
  TypeKind, ynone, yint8, yint16, yint32, yint64, yuint8, yuint16, yuint32, yuint64, ybinary, ybits,
  ybool, ydecimal64, yempty, yenum, yidentityref, yinstance_identifier, yleafref, ystring, yunion,
  unknown,
}
use goyang.Range
use goyang.Range.{YangRange}
use goyang.Range.Text.{parse_ranges_int}

-- The fields of a `YangType` but the types of a union.
pub record Fields : Type 0 where
  pub name : Bytes
  pub kind : TypeKind
  pub base : Option ℕ
  pub identity_base : Option ℕ
  pub root : Option ℕ
  pub bit : Option EnumType
  pub enum : Option EnumType
  pub units : Bytes
  pub default : Bytes
  pub has_default : Bool
  pub fraction_digits : ℤ
  pub length : YangRange
  pub optional_instance : Bool
  pub path : Bytes
  pub pattern : List Bytes
  pub posix_pattern : List Bytes
  pub range : YangRange

mutual
  pub data YangType : Type 0 where
    yang_type : Fields → Types → YangType

  -- A slice of pointers to types; `absent` puts a nil pointer in front.
  pub data Types : Type 0 where
    nil : Types
    absent : Types → Types
    cons : YangType → Types → Types

-- The unsigned value of a kind
unfoldable pub kind_code : TypeKind → ℕ
kind_code ynone = 0
kind_code yint8 = 1
kind_code yint16 = 2
kind_code yint32 = 3
kind_code yint64 = 4
kind_code yuint8 = 5
kind_code yuint16 = 6
kind_code yuint32 = 7
kind_code yuint64 = 8
kind_code ybinary = 9
kind_code ybits = 10
kind_code ybool = 11
kind_code ydecimal64 = 12
kind_code yempty = 13
kind_code yenum = 14
kind_code yidentityref = 15
kind_code yinstance_identifier = 16
kind_code yleafref = 17
kind_code ystring = 18
kind_code yunion = 19
kind_code (unknown d) = d

abbrev pub same_bool : Bool → Bool → Bool
same_bool true b = b
same_bool false b = not b

abbrev pub same_address : Option ℕ → Option ℕ → Bool
same_address none none = true
same_address (some a) (some b) = a == b
same_address _ _ = false

-- `ssEqual`
unfoldable pub ss_equal : List Bytes → List Bytes → Bool
ss_equal [] [] = true
ss_equal (a ∷ s) (b ∷ t) = text_eq a b && ss_equal s t
ss_equal _ _ = false

module _ (cmp_equal : Option EnumType → Option EnumType → Bool) where
  -- The cases of `Equal` but the types of unions
  unfoldable pub fields_equal : Fields → Fields → Bool
  unfolding kind_code ss_equal
  fields_equal y t =
      kind_code y.kind == kind_code t.kind
      && text_eq y.units t.units
      && text_eq y.default t.default
      && same_bool y.has_default t.has_default
      && beq_ℤ y.fraction_digits t.fraction_digits
      && same_address y.identity_base t.identity_base
      && Range.equal y.length t.length
      && same_bool y.optional_instance t.optional_instance
      && text_eq y.path t.path
      && ss_equal y.pattern t.pattern
      && ss_equal y.posix_pattern t.posix_pattern
      && Range.equal y.range t.range
      && cmp_equal y.enum t.enum

  unfoldable mutual
    unfolding fields_equal

    -- `Equal` on pointers that are not nil
    pub equal : YangType → YangType → Bool
    equal (yang_type y ys) (yang_type t ts) = fields_equal y t && ts_equal ys ts

    -- `tsEqual`
    pub ts_equal : Types → Types → Bool
    ts_equal nil nil = true
    ts_equal (absent ys) (absent ts) = ts_equal ys ts
    ts_equal (cons y ys) (cons t ts) = equal y t && ts_equal ys ts
    ts_equal nil (absent ts) = false
    ts_equal nil (cons t ts) = false
    ts_equal (absent ys) nil = false
    ts_equal (absent ys) (cons t ts) = false
    ts_equal (cons y ys) nil = false
    ts_equal (cons y ys) (absent ts) = false

abbrev pub plain : Bytes → TypeKind → YangRange → YangType
plain n k r =
    yang_type
      (record {
        name = n;
        kind = k;
        base = none;
        identity_base = none;
        root = none;
        bit = none;
        enum = none;
        units = [];
        default = [];
        has_default = false;
        fraction_digits = pos 0;
        length = [];
        optional_instance = false;
        path = [];
        pattern = [];
        posix_pattern = [];
        range = r;
      })
      nil

-- `mustParseRangesInt`: a text that is refused makes the program stop.
unfoldable pub must_parse_ranges_int : Bytes → Option YangRange
must_parse_ranges_int s = elim (parse_ranges_int s) [ ok r ↦ some r | err e ↦ none ]

-- `baseTypes`, none if one of the ranges makes the program stop.
unfoldable pub base_types : Option (List (Bytes × YangType))
unfolding must_parse_ranges_int
base_types = do
  int8_range ← must_parse_ranges_int (codes "-128..127")
  int16_range ← must_parse_ranges_int (codes "-32768..32767")
  int32_range ← must_parse_ranges_int (codes "-2147483648..2147483647")
  int64_range ← must_parse_ranges_int (codes "-9223372036854775808..9223372036854775807")
  uint8_range ← must_parse_ranges_int (codes "0..255")
  uint16_range ← must_parse_ranges_int (codes "0..65535")
  uint32_range ← must_parse_ranges_int (codes "0..4294967295")
  uint64_range ← must_parse_ranges_int (codes "0..18446744073709551615")
  some (
      (codes "int8", plain (codes "int8") yint8 int8_range)
      ∷ (codes "int16", plain (codes "int16") yint16 int16_range)
      ∷ (codes "int32", plain (codes "int32") yint32 int32_range)
      ∷ (codes "int64", plain (codes "int64") yint64 int64_range)
      ∷ (codes "uint8", plain (codes "uint8") yuint8 uint8_range)
      ∷ (codes "uint16", plain (codes "uint16") yuint16 uint16_range)
      ∷ (codes "uint32", plain (codes "uint32") yuint32 uint32_range)
      ∷ (codes "uint64", plain (codes "uint64") yuint64 uint64_range)
      ∷ (codes "decimal64", plain (codes "decimal64") ydecimal64 [])
      ∷ (codes "string", plain (codes "string") ystring [])
      ∷ (codes "boolean", plain (codes "boolean") ybool [])
      ∷ (codes "enumeration", plain (codes "enumeration") yenum [])
      ∷ (codes "bits", plain (codes "bits") ybits [])
      ∷ (codes "binary", plain (codes "binary") ybinary [])
      ∷ (codes "leafref", plain (codes "leafref") yleafref [])
      ∷ (codes "identityref", plain (codes "identityref") yidentityref [])
      ∷ (codes "empty", plain (codes "empty") yempty [])
      ∷ (codes "union", plain (codes "union") yunion [])
      ∷ (codes "instance-identifier", plain (codes "instance-identifier") yinstance_identifier [])
      ∷ [])
