-- ===== src/YangType/Bases.antt =====
-- The table of base types of pkg/yang/yangtype.go against the names of kinds.
use goyang.Base.{
  ℕ, ◌≡◌, refl, Bool, true, false, ◌&&◌, List, [], ◌∷◌, Option, none, some, Bytes, text_eq, ◌==◌,
}
use goyang.Kind.{kind_of_name}
use goyang.YangType.{YangType, yang_type, kind_code, base_types}

-- A base type has the name under which it is listed, and the kind of that name.
abbrev is_listed : Bytes → YangType → Bool
is_listed n (yang_type f ts) =
    text_eq f.name n
    && elim (kind_of_name n) [ none ↦ false | some k ↦ kind_code k == kind_code f.kind ]

abbrev are_listed : List (Bytes × YangType) → Bool
are_listed [] = true
are_listed ((n, y) ∷ ts) = is_listed n y && are_listed ts

-- Whether the table is made and each of its types is listed so.
abbrev pub is_table : Option (List (Bytes × YangType)) → Bool
is_table none = false
is_table (some ts) = are_listed ts

-- No range of a base type stops the program, and every base type has the name under which it is
-- listed, and the kind of that name.
pub base_types-is_table : is_table base_types ≡ true
unfolding base_types goyang.Range.Text.parse_ranges_int goyang.Base.Strings.split text_eq
    goyang.Base.Strings.trim_space goyang.Number.Text.parse_int goyang.Base.Strconv.parse_uint0
    goyang.Number.less goyang.Range.contains goyang.Range.validate goyang.Range.is_sorted
    goyang.Range.coalesce goyang.Range.sort goyang.Range.valid goyang.Range.overlaps
    goyang.Number.trunc goyang.Number.pow10 goyang.Number.frac goyang.Number.add_quantum
    goyang.Range.range_less kind_of_name kind_code goyang.Base.Maps.lookup
    goyang.Kind.type_kind_from_name
base_types-is_table = refl
