-- ===== src/Typedefs.antt =====
-- The dictionary of typedefs, and how the name of a type is looked up: `typeDictionary` and the
-- first part of `(*Type).resolve` of pkg/yang/types.go.
--
-- A node is the address of a module or of another node, a typedef is its address, and the nodes
-- above a type are a list from the type itself to its module. The mutex is left out: one goroutine
-- runs.
pub mod Scopes
pub mod Resolve
pub mod Steps
use goyang.Base.{
  ℕ, Bool, true, false, ◌&&◌, ◌||◌, List, [], ◌∷◌, ◌++◌, Option, none, some, if◌then◌else◌, Bytes,
  text_eq, ◌==◌, get_elem?, ◌≡◌, ◌↔◌, ap, arith, refl,
}
use goyang.Base.Maps.{Keys, lookup, insert}
use goyang.Base.Options.{◌>>=◌}
use goyang.Base.Result.{Result, ok, err}
use goyang.Enum.{text_keys}
use goyang.Modules.{Modules, Reader, Include}
use goyang.Modules.Prefix.{find_module_by_prefix, prefix_at, split_prefix}

pub data ScopeNode : Type 0 where
  module_at node_at : ℕ → ScopeNode

abbrev same_node : ScopeNode → ScopeNode → Bool
same_node (module_at a) (module_at b) = a == b
same_node (node_at a) (node_at b) = a == b
same_node (module_at a) (node_at b) = false
same_node (node_at a) (module_at b) = false

pub same_node_iff : (a b : ScopeNode) → (same_node a b ≡ true) ↔ (a ≡ b)
same_node_iff (module_at a) (module_at b) =
    (λ h. ap module_at (ground (arith, h)), λ h. ground (arith, h))
same_node_iff (node_at a) (node_at b) =
    (λ h. ap node_at (ground (arith, h)), λ h. ground (arith, h))
same_node_iff (module_at a) (node_at b) = (λ h. ground arith, λ h. ground arith)
same_node_iff (node_at a) (module_at b) = (λ h. ground arith, λ h. ground arith)

instance abbrev pub node_keys : Keys ScopeNode
node_keys = record { same = same_node; same_iff = same_node_iff }

abbrev pub Dictionary : Type 0
Dictionary = List (ScopeNode × List (Bytes × ℕ))

abbrev or_empty : Option (List (Bytes × ℕ)) → List (Bytes × ℕ)
or_empty none = []
or_empty (some m) = m

unfoldable pub add : Dictionary → ScopeNode → Bytes → ℕ → Dictionary
unfolding insert lookup
add d n name td = insert n (insert name td (or_empty (lookup n d))) d

unfoldable pub find : Dictionary → ScopeNode → Bytes → Option ℕ
unfolding lookup
find d n name = lookup name (or_empty (lookup n d))

-- `addTypedefs` of a node with the names and addresses of its typedefs
unfoldable pub add_typedefs : Dictionary → ScopeNode → List (Bytes × ℕ) → Dictionary
unfolding add
add_typedefs d t [] = d
add_typedefs d t ((name, td) ∷ tds) = add_typedefs (add d t name td) t tds

-- The loop over the nodes from the type up to its module
unfoldable pub find_above : Dictionary → List ScopeNode → Bytes → Option ℕ
unfolding find
find_above d [] name = none
find_above d (n ∷ ns) name = elim (find d n name) [
  | some td ↦ some td
  | none ↦ find_above d ns name
]

-- The loop over the submodules; one that was not linked is a nil pointer, with no typedefs.
unfoldable pub find_included : Dictionary → List Include → Bytes → Option ℕ
unfolding find
find_included d [] name = none
find_included d (i ∷ is) name =
    let here : Option ℕ = i.linked >>= λ a. find d (module_at a) name in
    elim here [ some td ↦ some td | none ↦ find_included d is name ]

pub data LookupError : Type 0 where
  unknown_prefix : Bytes → Bytes → LookupError
  unknown_type : Bytes → LookupError

abbrev with_prefix : Bytes → Bytes → Bytes
with_prefix prefix name = if text_eq prefix [] then name else prefix ++ (b':' ∷ name)

-- `findExternal` from the module at `root`
unfoldable pub find_external :
    Reader → Dictionary → Modules → ℕ → Bytes → Bytes → Result LookupError ℕ × Modules
unfolding find_module_by_prefix find
find_external reader d ms root prefix name =
    let (found, ms1) = find_module_by_prefix reader ms root prefix in
    elim found [
      | none ↦ (err (unknown_prefix prefix name), ms1)
      | some a ↦ elim (find d (module_at a) name) [
        | some td ↦ (ok td, ms1)
        | none ↦ (err (unknown_type (with_prefix prefix name)), ms1)
      ]
    ]

-- Where a typedef was found.
pub data Source : Type 0 where
  builtin local imported : Source

-- The name in the message on an unknown local type, none for the read of the prefix of a module
-- that has no prefix statement, such as a submodule: a nil pointer.
local_name : Option Bytes → Bytes → Bytes → Option Bytes
local_name none prefix full = none
local_name (some own) prefix full =
    if text_eq prefix [] || text_eq prefix own
    then some (own ++ (b':' ∷ full))
    else some (prefix ++ (b'[' ∷ own) ++ (b']' ∷ b':' ∷ full))

abbrev found_local : Option ℕ → Option Bytes → Option (Result LookupError (Source × ℕ))
found_local (some td) name = some (ok (local, td))
found_local none name = name >>= λ n. some (err (unknown_type n))

abbrev or_else {ℓ} : {A : Type ℓ} → Option A → Option A → Option A
or_else (some a) o = some a
or_else none o = o

abbrev found_external :
    Result LookupError ℕ × Modules → Option (Result LookupError (Source × ℕ)) × Modules
found_external (ok td, ms) = (some (ok (imported, td)), ms)
found_external (err e, ms) = (some (err e), ms)

-- The switch in `resolve`, for a type of that full name in the module at `root`; none in place of
-- the result is the read through a nil pointer. What `IgnoreModuleResolveErrors` does to an error is
-- left out.
unfoldable pub look_up :
    Reader
    → List (Bytes × ℕ)
    → Dictionary
    → Modules
    → ℕ
    → List ScopeNode
    → Bytes
    → Option (Result LookupError (Source × ℕ)) × Modules
unfolding lookup split_prefix prefix_at find_above find_included find_external local_name text_eq
look_up reader base d ms root above full =
    let (prefix, name) = split_prefix full in
    let includes : List Include = elim (get_elem? ms.store root) [
      | none ↦ []
      | some m ↦ m.includes
    ] in
    let own : Option Bytes = get_elem? ms.store root >>= λ m. m.prefix in
    let is_local = text_eq prefix [] || text_eq (prefix_at ms root) prefix in
    let near = or_else (find_above d above name) (find_included d includes name) in
    let there = found_external (find_external reader d ms root prefix name) in
    elim (lookup full base) [
      | some td ↦ (some (ok (builtin, td)), ms)
      | none ↦ if is_local then (found_local near (local_name own prefix full), ms) else there
    ]
