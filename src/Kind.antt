-- ===== src/Kind.antt =====
-- `TypeKind` of pkg/yang/yangtype.go, and the two maps between kinds and their names in YANG.
pub mod Names
use goyang.Base.{
  ℕ, ◌≡◌, refl, ap, ◌∙◌, Bool, true, false, List, [], ◌∷◌, ◌++◌, Option, none, some, Bytes, codes,
  text_eq, text_eq_iff, ◌==◌, if◌then◌else◌, arith, All,
}
use goyang.Base.Maps.{Keys, lookup}
use goyang.Base.Strconv.{format_uint}
use goyang.Enum.{text_keys}

-- `unknown d` is the unsigned value `d` that no constant has.
pub data TypeKind : Type 0 where
  ynone yint8 yint16 yint32 yint64 : TypeKind
  yuint8 yuint16 yuint32 yuint64 ybinary : TypeKind
  ybits ybool ydecimal64 yempty yenum : TypeKind
  yidentityref yinstance_identifier yleafref ystring yunion : TypeKind
  unknown : ℕ → TypeKind

unfoldable pub type_kind_from_name : List (Bytes × TypeKind)
type_kind_from_name =
    (codes "none", ynone)
    ∷ (codes "int8", yint8)
    ∷ (codes "int16", yint16)
    ∷ (codes "int32", yint32)
    ∷ (codes "int64", yint64)
    ∷ (codes "uint8", yuint8)
    ∷ (codes "uint16", yuint16)
    ∷ (codes "uint32", yuint32)
    ∷ (codes "uint64", yuint64)
    ∷ (codes "binary", ybinary)
    ∷ (codes "bits", ybits)
    ∷ (codes "boolean", ybool)
    ∷ (codes "decimal64", ydecimal64)
    ∷ (codes "empty", yempty)
    ∷ (codes "enumeration", yenum)
    ∷ (codes "identityref", yidentityref)
    ∷ (codes "instance-identifier", yinstance_identifier)
    ∷ (codes "leafref", yleafref)
    ∷ (codes "string", ystring)
    ∷ (codes "union", yunion)
    ∷ []

-- The map's value, empty where it has none.
unfoldable pub type_kind_to_name : TypeKind → Bytes
type_kind_to_name ynone = codes "none"
type_kind_to_name yint8 = codes "int8"
type_kind_to_name yint16 = codes "int16"
type_kind_to_name yint32 = codes "int32"
type_kind_to_name yint64 = codes "int64"
type_kind_to_name yuint8 = codes "uint8"
type_kind_to_name yuint16 = codes "uint16"
type_kind_to_name yuint32 = codes "uint32"
type_kind_to_name yuint64 = codes "uint64"
type_kind_to_name ybinary = codes "binary"
type_kind_to_name ybits = codes "bits"
type_kind_to_name ybool = codes "boolean"
type_kind_to_name ydecimal64 = codes "decimal64"
type_kind_to_name yempty = codes "empty"
type_kind_to_name yenum = codes "enumeration"
type_kind_to_name yidentityref = codes "identityref"
type_kind_to_name yinstance_identifier = codes "instance-identifier"
type_kind_to_name yleafref = codes "leafref"
type_kind_to_name ystring = codes "string"
type_kind_to_name yunion = codes "union"
type_kind_to_name (unknown d) = []

kind_string_of : Bytes → TypeKind → Bytes
kind_string_of [] (unknown d) = codes "unknown-type-" ++ format_uint d
kind_string_of s k = s

-- `TypeKind.String`
unfoldable pub kind_string : TypeKind → Bytes
unfolding kind_string_of type_kind_to_name
kind_string k = kind_string_of (type_kind_to_name k) k

unfoldable pub kind_of_name : Bytes → Option TypeKind
unfolding type_kind_from_name
kind_of_name s = lookup s type_kind_from_name
