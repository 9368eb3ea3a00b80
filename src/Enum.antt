-- ===== src/Enum.antt =====
-- `EnumType` of pkg/yang/types_builtin.go: names and the integers they stand for, for enumerations,
-- where the integers are unique, and for bit fields, where they are not.
--
-- The two Go maps are association lists. `Set` and `SetNext` return the new state or an error.
pub mod Valid
pub mod Lookups
use goyang.Base.{
  ℕ, ◌+◌, ◌-◌, ◌^◌, ◌≡◌, Bool, true, false, not, ◌&&◌, List, [], ◌∷◌, map, Option, none, some,
  if◌then◌else◌, Bytes, codes, text_eq, text_eq_iff, text_lt, ◌==◌, leb, ltb,
}
use goyang.Base.Int.{ℤ, pos, negsuc, ◌+ℤ◌, ltb_ℤ, beq_ℤ, beq_ℤ_iff, pos_part, neg_part}
use goyang.Base.Maps.{Keys, lookup, insert}
use goyang.Base.Result.{Result, ok, err}

instance abbrev pub text_keys : Keys Bytes
text_keys = record { same = text_eq; same_iff = text_eq_iff }

instance abbrev pub int_keys : Keys ℤ
int_keys = record { same = beq_ℤ; same_iff = beq_ℤ_iff }

abbrev pub max_enum : ℤ
max_enum = pos (2 ^ 31 - 1)

abbrev pub min_enum : ℤ
min_enum = negsuc (2 ^ 31 - 1)

abbrev pub max_bitfield_size : ℕ
max_bitfield_size = 2 ^ 32

pub record EnumType : Type 0 where
  pub last : ℤ
  pub min : ℤ
  pub max : ℤ
  pub unique : Bool
  pub to_string : List (ℤ × Bytes)
  pub to_int : List (Bytes × ℤ)

pub data EnumError : Type 0 where
  already_assigned too_small too_large must_specify : EnumError
  conflict : Bytes → EnumError

unfoldable pub new_enum_type : EnumType
new_enum_type = record {
  last = negsuc 0;
  min = min_enum;
  max = max_enum;
  unique = true;
  to_string = [];
  to_int = [];
}

unfoldable pub new_bitfield : EnumType
new_bitfield = record {
  last = negsuc 0;
  min = pos 0;
  max = pos (max_bitfield_size - 1);
  unique = false;
  to_string = [];
  to_int = [];
}

-- The tests of `Set` behind the one on the value's other name.
set_in_range : EnumType → Bytes → ℤ → Result EnumError EnumType
set_in_range e name value =
    if ltb_ℤ value e.min
    then err too_small
    else if ltb_ℤ e.max value
    then err too_large
    else ok (record e {
      to_string = insert value name e.to_string;
      to_int = insert name value e.to_int;
      last = if ltb_ℤ value e.last then e.last else value;
    })

set_new_name : EnumType → Bytes → ℤ → Result EnumError EnumType
unfolding set_in_range
set_new_name e name value = elim (lookup value e.to_string) [
  | none ↦ set_in_range e name value
  | some other ↦ if e.unique then err (conflict other) else set_in_range e name value
]

unfoldable pub set : EnumType → Bytes → ℤ → Result EnumError EnumType
unfolding set_new_name
set e name value = elim (lookup name e.to_int) [
  | some v ↦ err already_assigned
  | none ↦ set_new_name e name value
]

-- `e.last+1` stays within int64: `last` is at most 2 ^ 32 - 1.
unfoldable pub set_next : EnumType → Bytes → Result EnumError EnumType
unfolding set
set_next e name = if beq_ℤ e.last max_enum then err must_specify else set e name (e.last +ℤ pos 1)

-- The value read from a Go map where the key is missing.
abbrev or_zero {ℓ} : {A : Type ℓ} → A → Option A → A
or_zero z none = z
or_zero z (some a) = a

unfoldable pub name : EnumType → ℤ → Bytes
name e value = or_zero [] (lookup value e.to_string)

unfoldable pub value : EnumType → Bytes → ℤ
value e name = or_zero (pos 0) (lookup name e.to_int)

unfoldable pub is_defined : EnumType → Bytes → Bool
is_defined e name = elim (lookup name e.to_int) [ none ↦ false | some _ ↦ true ]

-- `sort.Strings` and `sort.Sort` of integers: an insertion sort under the test `less`.
module _ {ℓ} {A : Type ℓ} (less : A → A → Bool) where
  unfoldable pub insert_by : A → List A → List A
  insert_by a [] = a ∷ []
  insert_by a (b ∷ bs) = if less a b then a ∷ b ∷ bs else b ∷ insert_by a bs

  unfoldable pub sort_by : List A → List A
  unfolding insert_by
  sort_by [] = []
  sort_by (a ∷ as_) = insert_by a (sort_by as_)

unfoldable pub names : EnumType → List Bytes
unfolding sort_by text_lt
names e = sort_by text_lt (map (λ (p : Bytes × ℤ). p.0) e.to_int)

unfoldable pub values : EnumType → List ℤ
unfolding sort_by
values e = sort_by ltb_ℤ (map (λ (p : Bytes × ℤ). p.1) e.to_int)

-- The maps that `NameMap` and `ValueMap` copy.
copy_map : {K V : Type 0} ⦃e : Keys K⦄ → List (K × V) → List (K × V)
copy_map [] = []
copy_map ((k, v) ∷ m) = insert k v (copy_map m)

unfoldable pub name_map : EnumType → List (Bytes × ℤ)
unfolding copy_map
name_map e = copy_map e.to_int

unfoldable pub value_map : EnumType → List (ℤ × Bytes)
unfolding copy_map
value_map e = copy_map e.to_string
