-- ===== src/Typedefs/Resolve.antt =====
-- The recursion of `(*Typedef).resolve` and `(*Type).resolve` of pkg/yang/types.go, through typedefs,
-- their types and the types of unions.
--
-- Types and typedefs are addresses, and the two maps of a state say which of them have a `YangType`.
-- What a typedef or a type makes of the `YangType` below it is an argument; Typedefs/Steps.antt has
-- the program's. So is the lookup of a type's name, look_up of Typedefs.antt: the dictionary is
-- complete by then. IgnoreModuleResolveErrors is not set.
pub mod Circles
pub mod Growth
pub mod Ends
use goyang.Base.{
  ℕ, zero, suc, Bool, true, false, List, [], ◌∷◌, ◌++◌, Option, none, some, ◌==◌, if◌then◌else◌,
  ◌≡◌, ◌↔◌, arith,
}
use goyang.Base.Maps.{Keys, lookup, insert}
use goyang.Base.Options.{◌>>=◌}
use goyang.Base.Result.{Result, ok, err}
use goyang.Typedefs.{LookupError, Source}

pub same_address_iff : (a b : ℕ) → ((a == b) ≡ true) ↔ (a ≡ b)
same_address_iff a b = (λ h. ground (arith, h), λ h. ground (arith, h))

instance abbrev pub address_keys : Keys ℕ
address_keys = record { same = ◌==◌; same_iff = same_address_iff }

-- What the recursion reads of a typedef; base types have no parent.
pub record Typedef : Type 0 where
  pub has_parent : Bool
  pub type : ℕ

-- The addresses that have a `YangType`, with it.
pub record Resolution (Y : Type 0) : Type 0 where
  pub typedefs : List (ℕ × Y)
  pub types : List (ℕ × Y)

pub data ResolveError (E : Type 0) : Type 0 where
  not_found : LookupError → ResolveError E
  no_yang_type : ℕ → ResolveError E
  refused : E → ResolveError E

abbrev pub Outcome : Type 0 → Type 0 → Type 0
Outcome Y E = Option (List (ResolveError E) × Resolution Y)

abbrev pub set_type : {Y : Type 0} → ℕ → Y → Resolution Y → Resolution Y
set_type a y s = record { typedefs = s.typedefs; types = insert a y s.types }

abbrev pub set_typedef : {Y : Type 0} → ℕ → Y → Resolution Y → Resolution Y
set_typedef a y s = record { typedefs = insert a y s.typedefs; types = s.types }

-- With no errors the program goes on in the state that is left.
abbrev pub if_none : {Y E : Type 0} → Outcome Y E → (Resolution Y → Outcome Y E) → Outcome Y E
if_none none k = none
if_none (some (e ∷ es, s)) k = some (e ∷ es, s)
if_none (some ([], s)) k = k s

-- What the recursion needs of the program's parts.
pub record Parts (Y E : Type 0) : Type 0 where
  pub typedef_at : ℕ → Typedef
  -- the types of a union, below a type
  pub members : ℕ → List ℕ
  pub look : ℕ → Result LookupError (Source × ℕ)
  -- the copy that a typedef makes of the `YangType` of its type
  pub derive : ℕ → Y → Result (ResolveError E) Y
  -- what a type adds to that of a typedef, its errors, and whether its members are resolved
  pub refine : ℕ → Source → ℕ → Y → Bool × (List (ResolveError E) × Y)
  -- a union with another type
  pub add_type : Y → Y → Y

module _ {Y E : Type 0} (p : Parts Y E) where
  -- A member that has a `YangType` is added to that of the union.
  abbrev pub join_member : ℕ → ℕ → Resolution Y → Resolution Y
  join_member a m s = elim (lookup m s.types) [
    | none ↦ s
    | some u ↦ elim (lookup a s.types) [ none ↦ s | some y ↦ set_type a (p.add_type y u) s ]
  ]

  -- the loop `looking`, with the call of `resolve` for a member
  unfoldable pub resolve_members :
      (ℕ → Resolution Y → Outcome Y E)
      → ℕ
      → List ℕ
      → List (ResolveError E)
      → Resolution Y
      → Outcome Y E
  unfolding lookup insert
  resolve_members resolve a [] errors s = some (errors, s)
  resolve_members resolve a (m ∷ ms) errors s =
      resolve m s >>= λ r. resolve_members resolve a ms (errors ++ r.0) (join_member a m r.1)

  -- `resolve` of a type behind the typedef's, in the state that this one leaves
  unfoldable pub refine_type :
      (ℕ → Resolution Y → Outcome Y E) → ℕ → Source → ℕ → Resolution Y → Outcome Y E
  unfolding resolve_members
  refine_type resolve a source td s = elim (lookup td s.typedefs) [
    | none ↦ some (no_yang_type td ∷ [], s)
    | some below ↦
        let (goes_on, (errors, y)) = p.refine a source td below in
        let s1 = set_type a y s in
        if goes_on then resolve_members resolve a (p.members a) errors s1 else some (errors, s1)
  ]

  -- `resolve` of a typedef behind its type's
  unfoldable pub derive_typedef : ℕ → Resolution Y → Outcome Y E
  unfolding lookup insert
  derive_typedef td s = elim (lookup ((p.typedef_at td).type) s.types) [
    | none ↦ some ([], s)
    | some y ↦ elim (p.derive td y) [
      | err e ↦ some (e ∷ [], s)
      | ok z ↦ some ([], set_typedef td z s)
    ]
  ]

  -- Without fuel there is no outcome.
  unfoldable mutual
    unfolding refine_type derive_typedef

    pub resolve_typedef : ℕ → ℕ → Resolution Y → Outcome Y E
    resolve_typedef zero td s = none
    resolve_typedef (suc fuel) td s = elim (p.typedef_at td).has_parent [
      | false ↦ some ([], s)
      | true ↦ elim (lookup td s.typedefs) [
        | some y ↦ some ([], s)
        | none ↦ if_none (resolve_type fuel (p.typedef_at td).type s) (derive_typedef td)
      ]
    ]

    pub resolve_type : ℕ → ℕ → Resolution Y → Outcome Y E
    resolve_type zero a s = none
    resolve_type (suc fuel) a s = elim (lookup a s.types) [
      | some y ↦ some ([], s)
      | none ↦ elim (p.look a) [
        | err e ↦ some (not_found e ∷ [], s)
        | ok (source, td) ↦
            if_none (resolve_typedef fuel td s) (refine_type (resolve_type fuel) a source td)
      ]
    ]

-- `resolveTypedefs`, for the typedefs of the dictionary in some order
module _ {Y E : Type 0} (p : Parts Y E) (fuel : ℕ) where
  unfoldable pub resolve_typedefs : List ℕ → List (ResolveError E) → Resolution Y → Outcome Y E
  unfolding resolve_typedef
  resolve_typedefs [] errors s = some (errors, s)
  resolve_typedefs (td ∷ tds) errors s =
      resolve_typedef p fuel td s >>= λ r. resolve_typedefs tds (errors ++ r.0) r.1
