-- ===== src/Tests/Types.antt =====
-- Witnesses for types.go: statements on small types, and slices with three patterns.
use goyang.Base.{
  ◌≡◌, refl, List, [], ◌∷◌, ◌++◌, Bool, true, false, Option, none, some, Bytes, ℕ, arith, inl, inr,
  codes, ◌+◌, text_eq, ltb, length, if◌then◌else◌,
}
use goyang.Base.Int.{ℤ, pos}
use goyang.Base.Result.{Result, ok, err}
use goyang.Kind.{TypeKind, yenum, yuint8, ydecimal64}
use goyang.Number.{Number}
use goyang.Range.{YangRange}
use goyang.Modules.{Reader, new_modules}
use goyang.Typedefs.{node_at, module_at, add, find, look_up, local}
use goyang.Typedefs.Scopes.{look_up-add}
use goyang.YangType.{Fields}
use goyang.Restrict.{TypeStatement, restrict, is_decimal64, parent_length}
use goyang.Restrict.Values.{TypeError, base_error}
use goyang.Restrict.Digits.{IsInBounds, restrict-InBounds}
use goyang.Restrict.Narrowing.{IsNarrowed, restrict-IsNarrowed}
use goyang.Restrict.Patterns.{Slice, contents, array, resolve_patterns, has}
use goyang.Restrict.Patterns.Appending.{Added, resolve_patterns-Added}
use goyang.Restrict.Patterns.Sharing.{resolve_patterns-shared}

abbrev no_identity : Bytes → Result (List TypeError) (Option ℕ)
no_identity n = err (base_error n ∷ [])

abbrev below : TypeKind → ℤ → YangRange → Fields
below k d r = record {
  name = [];
  kind = k;
  base = none;
  identity_base = none;
  root = none;
  bit = none;
  enum = none;
  units = [];
  default = [];
  has_default = false;
  fraction_digits = d;
  length = [];
  optional_instance = false;
  path = [];
  pattern = [];
  posix_pattern = [];
  range = r;
}

abbrev statement : Bytes → Option Bytes → Option Bytes → List (Bytes × Option Bytes) → TypeStatement
statement n d r ms = record {
  name = n;
  require_instance = none;
  path = none;
  fraction_digits = d;
  identity_base = none;
  range = r;
  length = none;
  enums = ms;
  bits = [];
}

abbrev colours : TypeStatement
colours =
    statement (codes "enumeration") none none
      ((codes "red", some (codes "3")) ∷ (codes "green", none) ∷ (codes "red", none) ∷ [])

abbrev sizes : TypeStatement
sizes =
    statement (codes "enumeration") none none
      ((codes "big", some (codes "3")) ∷ (codes "huge", none) ∷ [])

-- All that a run of `restrict` on members computes through.
members_opened : Unit {0}
unfolding restrict goyang.Number.int text_eq goyang.Base.Strings.trim_space
    goyang.Number.Text.parse_int goyang.Base.Strconv.parse_uint0 goyang.Enum.set
    goyang.Base.Maps.lookup goyang.Enum.new_enum_type goyang.Enum.set_next goyang.Base.Maps.insert
members_opened = tt

-- A name that is there twice is an error.
colours_fail : length (restrict no_identity true colours (below yenum (pos 0) [])).errors ≡ 1
unfolding members_opened
colours_fail = refl

abbrev two_digits : TypeStatement
two_digits = statement (codes "decimal64") (some (codes "2")) none []

restrict-InBounds_example :
    IsInBounds
      (restrict no_identity true two_digits (below ydecimal64 (pos 0) [])).fields.fraction_digits
unfolding restrict goyang.Number.int text_eq goyang.Base.Strings.trim_space
    goyang.Number.Text.parse_int goyang.Base.Strconv.parse_uint0
restrict-InBounds_example =
    restrict-InBounds no_identity true two_digits (below ydecimal64 (pos 0) []) refl
      (inl (refl, refl)) refl

abbrev whole : ℕ → ℕ → YangRange
whole a b =
    record {
      min = record { value = a; fraction_digits = 0; negative = false };
      max = record { value = b; fraction_digits = 0; negative = false };
    }
    ∷ []

abbrev small : TypeStatement
small = statement (codes "uint8") none (some (codes "1..10")) []

restrict-IsNarrowed_example :
    IsNarrowed
      (whole 0 255)
      (whole 0 255)
      (restrict no_identity true small (below yuint8 (pos 0) (whole 0 255))).fields.range
    × IsNarrowed
        (parent_length [])
        []
        (restrict no_identity true small (below yuint8 (pos 0) (whole 0 255))).fields.length
unfolding is_decimal64 text_eq
restrict-IsNarrowed_example =
    restrict-IsNarrowed no_identity true small (below yuint8 (pos 0) (whole 0 255)) refl

abbrev double : ℕ → ℕ
double n = n + n

-- Three patterns in an array of four.
abbrev heap : List (List Bytes)
heap = (codes "a" ∷ codes "b" ∷ codes "c" ∷ [] ∷ []) ∷ []

abbrev three : Slice
three = record { addr = some 0; len = 3 }

resolve_patterns-Added_example : Added (contents heap three) (codes "b" ∷ codes "d" ∷ []) (
    contents
      (resolve_patterns double (codes "b" ∷ codes "d" ∷ []) heap three).0
      (resolve_patterns double (codes "b" ∷ codes "d" ∷ []) heap three).1)
unfolding array contents has text_eq
resolve_patterns-Added_example =
    resolve_patterns-Added double (codes "b" ∷ codes "d" ∷ []) heap three (omega arith)
      (refl, (refl, (refl, tt)))

resolve_patterns-shared_example :
    contents
      (resolve_patterns double
        (codes "e" ∷ [])
        (resolve_patterns double (codes "d" ∷ []) heap three).0
        three).0
      (resolve_patterns double (codes "d" ∷ []) heap three).1
    ≡ codes "a" ∷ codes "b" ∷ codes "c" ∷ codes "e" ∷ []
unfolding array contents has text_eq
resolve_patterns-shared_example =
    resolve_patterns-shared double (codes "d") (codes "e") heap three (omega arith) (omega arith)
      refl refl

abbrev no_files : Reader
no_files name = ok []

-- A module with a typedef at its top, above a node that has none.
look_up-add_example :
    look_up no_files []
      (add [] (module_at 0) (codes "t") 7)
      new_modules
      0
      (node_at 1 ∷ module_at 0 ∷ [])
      (codes "t")
    ≡ (some (ok (local, 7)), new_modules)
unfolding find goyang.Modules.Prefix.split_prefix
look_up-add_example =
    look_up-add no_files [] [] new_modules 0 (node_at 1 ∷ []) [] (module_at 0) (codes "t") 7 refl
      refl (refl, tt)
