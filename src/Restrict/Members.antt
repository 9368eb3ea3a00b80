-- ===== src/Restrict/Members.antt =====
-- The enumeration and the bit field that `resolve` of pkg/yang/types.go makes from a statement.
use goyang.Base.{
  ◌≡◌, List, [], ◌∷◌, Bool, false, ◌||◌, Option, none, some, Bytes, text_eq, if◌then◌else◌,
}
use goyang.Base.Int.{ℤ, pos, ◌+ℤ◌, ltb_ℤ}
use goyang.Base.Maps.{lookup}
use goyang.Base.Result.{Result, ok}
use goyang.Enum.{text_keys, int_keys, EnumType, new_enum_type, new_bitfield, is_defined}
use goyang.Enum.Valid.{IsValid}
use goyang.Number.{Number, int}
use goyang.Number.Text.{parse_int}
use goyang.Restrict.{TypeStatement, Resolving}

abbrev Members : Type 0
Members = List (Bytes × Option Bytes)

-- The value of a member behind members of which the greatest value is `last`: its own, or the next.
abbrev pub HasValue : ℤ → Option Bytes → ℤ → Type 0
HasValue last none i = i ≡ last +ℤ pos 1
HasValue last (some v) i = (m : Number) × (parse_int v ≡ ok m) × (int m ≡ ok i)

-- The table has all members with their values, in order.
abbrev pub HoldsFrom : EnumType → ℤ → Members → Type 0
HoldsFrom e last [] = Unit
HoldsFrom e last ((n, v) ∷ ms) =
    (i : ℤ) × HasValue last v i
    × (lookup n e.to_int ≡ some i)
    × HoldsFrom e (if ltb_ℤ i last then last else i) ms

abbrev pub is_named : Bytes → Members → Bool
is_named n [] = false
is_named n ((m, v) ∷ ms) = text_eq m n || is_named n ms

-- What the members make of a table `e`.
pub record Built (e : EnumType) (ms : Members) (e' : EnumType) : Type 0 where
  pub keeps : (n : Bytes) (i : ℤ) → lookup n e.to_int ≡ some i → lookup n e'.to_int ≡ some i
  pub holds : HoldsFrom e' e.last ms
  pub only : (n : Bytes) → is_defined e' n ≡ (is_defined e n || is_named n ms)
  pub same_unique : e'.unique ≡ e.unique
  pub same_min : e'.min ≡ e.min
  pub same_max : e'.max ≡ e.max
  pub valid : IsValid e'

-- What a statement makes of a table: the members alone, on a fresh table, if it has any.
abbrev pub Table : EnumType → Members → Option EnumType → Option EnumType → Type 0
Table fresh [] below o = o ≡ below
Table fresh (m ∷ ms) below o = (e : EnumType) × (o ≡ some e) × Built fresh (m ∷ ms) e

-- A step that leaves the tables alone.
record Leaves (s s' : Resolving) : Type 0 where
  enum : s'.fields.enum ≡ s.fields.enum
  bit : s'.fields.bit ≡ s.fields.bit

-- The tables of a type whose tables below are `enum` and `bit`.
abbrev pub HasTables : TypeStatement → Option EnumType → Option EnumType → Resolving → Type 0
HasTables t enum bit s =
    Table new_enum_type t.enums enum s.fields.enum × Table new_bitfield t.bits bit s.fields.bit
