-- ===== src/Typedefs/Steps.antt =====
-- What `(*Typedef).resolve` and `(*Type).resolve` of pkg/yang/types.go make of the `YangType` below.
--
-- The root of a `YangType` stays as it was, and the patterns, on a heap of arrays, are in
-- Restrict/Patterns.antt.
use goyang.Base.{ℕ, Bool, true, false, ◌||◌, List, map, Option, none, some, if◌then◌else◌, Bytes}
use goyang.Base.Result.{Result, ok, err}
use goyang.Enum.{EnumType}
use goyang.Restrict.{TypeStatement, resolve_digits, before_digits, restrict}
use goyang.Restrict.Values.{TypeError}
use goyang.Typedefs.{LookupError, Source, builtin, local, imported}
use goyang.Typedefs.Resolve.{ResolveError, refused, Parts}
use goyang.YangType.{Fields, YangType, yang_type, Types, nil, absent, cons, equal}

-- The substatements of a typedef that `resolve` reads, and its type.
pub record TypedefStatement : Type 0 where
  pub name : Bytes
  pub has_parent : Bool
  pub type : ℕ
  pub units : Option Bytes
  pub default : Option Bytes

unfoldable pub rename : TypedefStatement → Fields → Fields
rename t y = record y { name = t.name; base = some t.type }

unfoldable pub set_units : TypedefStatement → Fields → Fields
set_units t y = elim t.units [ none ↦ y | some u ↦ record y { units = u } ]

unfoldable pub set_default : TypedefStatement → Fields → Fields
set_default t y = elim t.default [
  | none ↦ y
  | some d ↦ record y { default = d; has_default = true }
]

unfoldable pub is_builtin : Source → Bool
is_builtin builtin = true
is_builtin local = false
is_builtin imported = false

module _ (cmp_equal : Option EnumType → Option EnumType → Bool) where
  -- whether `y.Type` has a type that is Equal
  unfoldable pub has_member : YangType → Types → Bool
  unfolding equal
  has_member u nil = false
  has_member u (absent ts) = has_member u ts
  has_member u (cons t ts) = equal cmp_equal u t || has_member u ts

  unfoldable pub put_member : YangType → Types → Types
  put_member u nil = cons u nil
  put_member u (absent ts) = absent (put_member u ts)
  put_member u (cons t ts) = cons t (put_member u ts)

  unfoldable pub add_member : YangType → YangType → YangType
  unfolding has_member put_member
  add_member (yang_type f ts) u = yang_type f (if has_member u ts then ts else put_member u ts)

module _ (cmp_equal : Option EnumType → Option EnumType → Bool)
    (find_base : Bytes → Result (List TypeError) (Option ℕ)) (typedef_at : ℕ → TypedefStatement)
    (type_at : ℕ → TypeStatement) (members : ℕ → List ℕ)
    (look : ℕ → Result LookupError (Source × ℕ)) where
  -- The base of an identityref is looked up again in the module of the typedef.
  unfoldable pub derive_base : TypeStatement → Fields → Result (ResolveError TypeError) Fields
  derive_base t y = elim t.identity_base [
    | none ↦ ok y
    | some n ↦ elim (find_base n) [
      | ok a ↦ ok (record y { identity_base = a })
      | err es ↦ err (refused (TypeError.base_error n))
    ]
  ]

  unfoldable pub derive_fields : ℕ → YangType → Result (ResolveError TypeError) YangType
  unfolding derive_base rename set_units set_default
  derive_fields td (yang_type f ts) =
      let t = typedef_at td in
      elim (derive_base (type_at t.type) (set_default t (set_units t (rename t f)))) [
        | ok y ↦ ok (yang_type y ts)
        | err e ↦ err e
      ]

  unfoldable pub refine_fields :
      ℕ → Source → ℕ → YangType → Bool × (List (ResolveError TypeError) × YangType)
  unfolding restrict resolve_digits before_digits is_builtin
  refine_fields a source td (yang_type f ts) =
      let t = type_at a in
      let below = record f { base = some ((typedef_at td).type) } in
      let r = restrict find_base (is_builtin source) t below in
      let goes_on = (resolve_digits find_base (is_builtin source) t (before_digits t below)).0 in
      (goes_on, (map refused r.errors, yang_type r.fields ts))

  unfoldable pub program_parts : Parts YangType TypeError
  unfolding derive_fields refine_fields add_member
  program_parts = record {
    typedef_at =
        λ td. record { has_parent = (typedef_at td).has_parent; type = (typedef_at td).type };
    members = members;
    look = look;
    derive = derive_fields;
    refine = refine_fields;
    add_type = add_member cmp_equal;
  }
