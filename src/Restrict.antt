-- ===== src/Restrict.antt =====
-- What a `Type` statement adds to the type it is based on: `(*Type).resolve` of pkg/yang/types.go
-- behind the lookup of the typedef.
--
-- An error is the value that its message shows. findIdentityBase is an argument: Identity.antt has
-- it, on the store of modules. Patterns are in Restrict/Patterns.antt, on a heap of arrays.
pub mod Values
pub mod Digits
pub mod Members
pub mod Narrowing
pub mod Patterns
use goyang.Base.{
  ℕ, ◌-◌, ◌%◌, ◌^◌, Bool, true, false, not, ◌&&◌, ◌||◌, List, [], ◌∷◌, ◌++◌, Option, none, some,
  if◌then◌else◌, Bytes, codes, text_eq, ◌==◌, Bool-cases, inl, inr, ◌≡◌,
}
use goyang.Base.Int.{ℤ, pos, ltb_ℤ, beq_ℤ}
use goyang.Base.Result.{Result, ok, err, ◌>>=◌}
use goyang.Base.Word.{u64_of_i64}
use goyang.Enum.{EnumType, EnumError, new_enum_type, new_bitfield, set, set_next}
use goyang.Kind.{ydecimal64, yidentityref}
use goyang.Number.{Number, NumError, int}
use goyang.Number.Text.{parse_int}
use goyang.Range
use goyang.Range.{YangRange, YRange}
use goyang.Range.Text.{ParseError, parse_child_ranges}
use goyang.Restrict.Values.{
  TypeError, bad_number, bad_member, overriding, only_decimal64, no_base, null_base,
  negative_length, bad_range, bad_length, as_range_int, as_bool, as_string, number_error,
}
use goyang.YangType.{Fields, kind_code}

-- The substatements of a `Type` that `resolve` reads, as the names of their values; members of an
-- enumeration or of a bit field come with their value or position.
pub record TypeStatement : Type 0 where
  pub name : Bytes
  pub require_instance : Option Bytes
  pub path : Option Bytes
  pub fraction_digits : Option Bytes
  pub identity_base : Option Bytes
  pub range : Option Bytes
  pub length : Option Bytes
  pub enums : List (Bytes × Option Bytes)
  pub bits : List (Bytes × Option Bytes)

-- The errors so far, and the copy `y` of the type below.
pub record Resolving : Type 0 where
  pub errors : List TypeError
  pub fields : Fields

abbrev pub fail : TypeError → Resolving → Resolving
fail e s = record { errors = s.errors ++ e ∷ []; fields = s.fields }

abbrev pub put : Fields → Resolving → Resolving
put y s = record { errors = s.errors; fields = y }

abbrev optional : Resolving → Result TypeError Bool → Resolving
optional s (ok b) = put (record s.fields { optional_instance = not b }) s
optional s (err e) = fail e (put (record s.fields { optional_instance = true }) s)

unfoldable pub resolve_instance : TypeStatement → Resolving → Resolving
unfolding as_bool
resolve_instance t s = elim t.require_instance [ none ↦ s | some v ↦ optional s (as_bool (some v)) ]

unfoldable pub resolve_path : TypeStatement → Resolving → Resolving
unfolding as_string
resolve_path t s = elim t.path [
  | none ↦ s
  | some v ↦ put (record s.fields { path = as_string (some v) }) s
]

-- `isDecimal64`
unfoldable pub is_decimal64 : TypeStatement → Fields → Bool
unfolding kind_code
is_decimal64 t y =
    kind_code y.kind == kind_code ydecimal64
    && (text_eq t.name (codes "decimal64") || not (beq_ℤ y.fraction_digits (pos 0)))

-- `uint8` of an int
abbrev pub u8_of_int : ℤ → ℕ
u8_of_int i = u64_of_i64 i % 256

-- The range of all int64 values at the digits.
abbrev pub decimal_range : ℤ → YangRange
decimal_range i =
    record {
      min = record { value = 2 ^ 63; fraction_digits = u8_of_int i; negative = true };
      max = record { value = 2 ^ 63 - 1; fraction_digits = u8_of_int i; negative = false };
    }
    ∷ []

abbrev put_digits : ℤ → Resolving → Resolving
put_digits i s = put (record s.fields { fraction_digits = i; range = decimal_range i }) s

abbrev pub set_digits : Resolving → Result TypeError ℤ → Resolving
set_digits s (ok i) = put_digits i s
set_digits s (err e) = put_digits (pos 0) (fail e s)

module _ (find_base : Bytes → Result (List TypeError) (Option ℕ)) where
  abbrev set_base : Resolving → Result (List TypeError) (Option ℕ) → Resolving
  set_base s (err es) = record { errors = s.errors ++ es; fields = s.fields }
  set_base s (ok none) = fail null_base s
  set_base s (ok (some a)) = put (record s.fields { identity_base = some a }) s

  -- The case of an identityref: only the built-in type takes its base from the statement.
  unfoldable pub resolve_base : Bool → TypeStatement → Resolving → Resolving
  unfolding kind_code
  resolve_base builtin t s =
      if kind_code s.fields.kind == kind_code yidentityref && builtin
      then elim t.identity_base [ none ↦ fail no_base s | some n ↦ set_base s (find_base n) ]
      else s

  -- The switch on the digits, and whether `resolve` goes on behind it.
  unfoldable pub resolve_digits : Bool → TypeStatement → Resolving → Bool × Resolving
  unfolding as_range_int is_decimal64 resolve_base
  resolve_digits builtin t s =
      if is_decimal64 t s.fields && not (beq_ℤ s.fields.fraction_digits (pos 0))
      then elim t.fraction_digits [ none ↦ (true, s) | some v ↦ (false, fail overriding s) ]
      else if is_decimal64 t s.fields
      then (true, set_digits s (as_range_int t.fraction_digits (pos 1) (pos 18)))
      else elim t.fraction_digits [
        | none ↦ (true, resolve_base builtin t s)
        | some v ↦ (true, fail only_decimal64 s)
      ]

abbrev pub set_range : Resolving → Result ParseError YangRange → Resolving
set_range s (err e) = fail (bad_range e) s
set_range s (ok yr) =
    if Range.equal yr s.fields.range then s else put (record s.fields { range = yr }) s

unfoldable pub resolve_range : Bool → TypeStatement → Resolving → Resolving
unfolding parse_child_ranges
resolve_range decimal t s = elim t.range [
  | none ↦ s
  | some v ↦
      set_range s (parse_child_ranges s.fields.range v decimal (u8_of_int s.fields.fraction_digits))
]

-- `Uint64Range`
abbrev pub uint64_range : YangRange
uint64_range =
    record {
      min = record { value = 0; fraction_digits = 0; negative = false };
      max = record { value = 2 ^ 64 - 1; fraction_digits = 0; negative = false };
    }
    ∷ []

abbrev pub parent_length : YangRange → YangRange
parent_length [] = uint64_range
parent_length (r ∷ rs) = r ∷ rs

abbrev pub has_negative : YangRange → Bool
has_negative [] = false
has_negative (r ∷ rs) = r.min.negative || has_negative rs

abbrev pub set_length : Resolving → Result ParseError YangRange → Resolving
set_length s (err e) = fail (bad_length e) s
set_length s (ok yr) =
    if Range.equal yr s.fields.length
    then s
    else put (record s.fields { length = yr })
        (if has_negative yr then fail negative_length s else s)

unfoldable pub resolve_length : TypeStatement → Resolving → Resolving
unfolding parse_child_ranges
resolve_length t s = elim t.length [
  | none ↦ s
  | some v ↦ set_length s (parse_child_ranges (parent_length s.fields.length) v false 0)
]

abbrev pub member_error : Result EnumError EnumType → Result TypeError EnumType
member_error (ok e) = ok e
member_error (err x) = err (bad_member x)

-- The function `set` in `resolve`
unfoldable pub set_member : EnumType → Bytes → Option Bytes → Result TypeError EnumType
set_member e name none = member_error (set_next e name)
set_member e name (some v) = do
  n ← number_error (parse_int v)
  i ← number_error (int n)
  member_error (set e name i)

-- The loop over the members; a member that is refused is left out.
unfoldable pub set_members :
    List (Bytes × Option Bytes) → List TypeError → EnumType → List TypeError × EnumType
unfolding set_member
set_members [] errors e = (errors, e)
set_members ((n, v) ∷ ms) errors e = elim (set_member e n v) [
  | ok e' ↦ set_members ms errors e'
  | err x ↦ set_members ms (errors ++ x ∷ []) e
]

unfoldable pub resolve_enum : TypeStatement → Resolving → Resolving
unfolding set_members
resolve_enum t s = elim t.enums [
  | [] ↦ s
  | m ∷ ms ↦
      let (es, e) = set_members (m ∷ ms) s.errors new_enum_type in
      record { errors = es; fields = record s.fields { enum = some e } }
]

unfoldable pub resolve_bits : TypeStatement → Resolving → Resolving
unfolding set_members
resolve_bits t s = elim t.bits [
  | [] ↦ s
  | m ∷ ms ↦
      let (es, e) = set_members (m ∷ ms) s.errors new_bitfield in
      record { errors = es; fields = record s.fields { bit = some e } }
]

-- What comes before the switch on the digits, and what comes behind it.
unfoldable pub before_digits : TypeStatement → Fields → Resolving
unfolding resolve_instance resolve_path
before_digits t y = resolve_path t (resolve_instance t (record { errors = []; fields = y }))

unfoldable pub after_digits : Bool → TypeStatement → Resolving → Resolving
unfolding resolve_range resolve_length resolve_enum resolve_bits
after_digits decimal t s =
    resolve_bits t (resolve_enum t (resolve_length t (resolve_range decimal t s)))

module _ (find_base : Bytes → Result (List TypeError) (Option ℕ)) where
  -- The restrictions of a statement on a copy of the type below, but the patterns and the types of a
  -- union; `builtin` says that the statement names a base type.
  unfoldable pub restrict : Bool → TypeStatement → Fields → Resolving
  unfolding before_digits is_decimal64 resolve_digits after_digits
  restrict builtin t y =
      let (goes_on, s) = resolve_digits find_base builtin t (before_digits t y) in
      if goes_on then after_digits (is_decimal64 t y) t s else s

  -- What holds at the digits and behind the last step holds of the result.
  pub restrict_ind :
      (P : Resolving → Type 0) (builtin : Bool) (t : TypeStatement) (y : Fields)
      → (let s = (resolve_digits find_base builtin t (before_digits t y)).1 in
          P s × P (after_digits (is_decimal64 t y) t s))
      → P (restrict builtin t y)
  unfolding restrict
  restrict_ind P builtin t y (h, k) =
      elim (Bool-cases (resolve_digits find_base builtin t (before_digits t y)).0) [
        | inl e ↦ rw (e, restrict) k
        | inr e ↦ rw (e, restrict) h
      ]
