-- ===== src/Modules.antt =====
-- `Modules` of pkg/yang/modules.go, `Module` of pkg/yang/yang.go and the lookups of pkg/yang/node.go
-- that end in a module.
--
-- A `*Module` is an address of the store, where the Go program allocates it: `add` puts the module
-- that it accepts at the end. A module that `add` rejects is not referred to again. Reading a source
-- into nodes is a parameter: it stands for the reader of files, the parser and the AST builder.
pub mod Names
pub mod Catalog
pub mod Tables
pub mod Adding
pub mod Finding
pub mod Prefix
pub mod Inclusion
pub mod Namespace
use goyang.Base.{
  ℕ, zero, suc, ◌+◌, Bool, true, false, ◌&&◌, List, [], ◌∷◌, ◌++◌, Option, none, some, Bytes, codes,
  text_eq, text_lt, length, get_elem?, ◌==◌, if◌then◌else◌,
}
use goyang.Base.Maps.{lookup, insert}
use goyang.Base.Result.{Result, ok, err}
use goyang.Enum.{text_keys}

pub record Import : Type 0 where
  pub name : Bytes
  pub prefix : Bytes
  pub revision_date : Option Bytes
  pub linked : Option ℕ

pub record Include : Type 0 where
  pub name : Bytes
  pub revision_date : Option Bytes
  pub linked : Option ℕ

pub record BelongsTo : Type 0 where
  pub name : Bytes
  pub prefix : Option Bytes

-- The fields that the operations below read.
pub record Module : Type 0 where
  pub name : Bytes
  pub belongs_to : Option BelongsTo
  pub namespace : Bytes
  pub prefix : Option Bytes
  pub revision : List Bytes
  pub includes : List Include
  pub imports : List Import
  -- the identities that the module defines, by address
  pub identity : List ℕ

pub data ModuleKind : Type 0 where
  module_kind submodule_kind : ModuleKind

-- `(*Module).Kind`
unfoldable pub kind : Module → ModuleKind
kind m = elim m.belongs_to [ none ↦ module_kind | some _ ↦ submodule_kind ]

-- the loop of `(*Module).Current`
unfoldable pub latest : Bytes → List Bytes → Bytes
latest rev [] = rev
latest rev (r ∷ rs) = latest (if text_lt rev r then r else rev) rs

unfoldable pub current : Module → Bytes
unfolding latest
current m = latest [] m.revision

unfoldable pub full_name : Module → Bytes
unfolding current
full_name m = elim (current m) [ [] ↦ m.name | c ∷ cs ↦ m.name ++ (b'@' ∷ c ∷ cs) ]

-- `(*Module).getPrefix`
unfoldable pub local_prefix : Module → Option Bytes
local_prefix m = elim m.belongs_to [ none ↦ m.prefix | some b ↦ b.prefix ]

unfoldable pub get_prefix : Module → Bytes
unfolding local_prefix
get_prefix m = elim (local_prefix m) [ none ↦ [] | some p ↦ p ]

pub data ModuleError : Type 0 where
  not_a_module : Bytes → Bytes → ModuleError
  duplicate : ModuleKind → Bytes → ModuleError
  no_such_submodule no_such_module unreadable : Bytes → ModuleError
  ambiguous_namespace no_such_namespace : Bytes → ModuleError

pub record Modules : Type 0 where
  pub store : List Module
  pub modules : List (Bytes × ℕ)
  pub sub_modules : List (Bytes × ℕ)
  -- the modules that were included, by address
  pub included : List ℕ
  pub by_ns : List (Bytes × ℕ)

unfoldable pub new_modules : Modules
new_modules = record { store = []; modules = []; sub_modules = []; included = []; by_ns = [] }

-- the map that `add` and `FindModule` choose
unfoldable pub table : ModuleKind → Modules → List (Bytes × ℕ)
table module_kind ms = ms.modules
table submodule_kind ms = ms.sub_modules

unfoldable pub set_table : ModuleKind → List (Bytes × ℕ) → Modules → Modules
set_table module_kind t ms = record ms { modules = t }
set_table submodule_kind t ms = record ms { sub_modules = t }

unfoldable pub full_name_at : List Module → ℕ → Bytes
unfolding full_name
full_name_at store a = elim (get_elem? store a) [ none ↦ [] | some m ↦ full_name m ]

-- A `Node` as `add` sees it: a module, or another node by its name and kind.
pub data Node : Type 0 where
  module_node : Module → Node
  other_node : Bytes → Bytes → Node

-- the end of `add`: the bare name goes to the latest revision
unfoldable pub add_bare : List Module → Bytes → Bytes → ℕ → List (Bytes × ℕ) → List (Bytes × ℕ)
unfolding full_name_at lookup insert
add_bare store name full a t = elim (lookup name t) [
  | none ↦ insert name a t
  | some o ↦ if text_lt (full_name_at store o) full then insert name a t else t
]

-- the map after `add` accepted the module at `a`
unfoldable pub add_names : List Module → Bytes → Bytes → ℕ → List (Bytes × ℕ) → List (Bytes × ℕ)
unfolding add_bare insert text_eq
add_names store name full a t =
    let t1 = insert full a t in if text_eq full name then t1 else add_bare store name full a t1

unfoldable pub add_module : Modules → Module → Modules
unfolding add_names set_table table full_name kind
add_module ms m =
    let t =
      add_names (ms.store ++ m ∷ []) m.name (full_name m) (length ms.store) (table (kind m) ms) in
    set_table (kind m) t (record ms { store = ms.store ++ m ∷ [] })

unfoldable pub add : Modules → Node → Modules × Option ModuleError
unfolding add_module table full_name kind lookup
add ms (other_node name k) = (ms, some (not_a_module name k))
add ms (module_node m) = elim (lookup (full_name m) (table (kind m) ms)) [
  | some o ↦ (ms, some (duplicate (kind m) (full_name m)))
  | none ↦ (add_module ms m, none)
]

-- the loop of `Parse` over the statements: those that were built are added up to the first error
unfoldable pub add_nodes : Modules → List (Result ModuleError Node) → Modules × Option ModuleError
unfolding add
add_nodes ms [] = (ms, none)
add_nodes ms (err e ∷ ns) = (ms, some e)
add_nodes ms (ok n ∷ ns) =
    let rest = add_nodes (add ms n).0 ns in
    elim (add ms n).1 [ none ↦ rest | some e ↦ ((add ms n).0, some e) ]

-- What a name reads: the nodes of the file that is found, or an error.
abbrev pub Reader : Type 0
Reader = Bytes → Result ModuleError (List (Result ModuleError Node))

unfoldable pub read : Reader → Modules → Bytes → Modules × Option ModuleError
unfolding add_nodes
read reader ms name = elim (reader name) [ err e ↦ (ms, some e) | ok ns ↦ add_nodes ms ns ]

-- `name + "@" + i.RevisionDate.Name`, or the bare name
unfoldable pub revision_name : Bytes → Option Bytes → Bytes
revision_name name none = name
revision_name name (some d) = name ++ (b'@' ∷ d)

unfoldable pub find_named : ModuleKind → Bytes → Bytes → Modules → Option ℕ
unfolding table lookup
find_named k rev name ms = elim (lookup rev (table k ms)) [
  | some a ↦ some a
  | none ↦ lookup name (table k ms)
]

-- The files that `FindModule` reads: that of the revision, else that of the bare name. The second
-- result says whether one of them was read without an error.
unfoldable pub read_named : Reader → Bytes → Bytes → Modules → Modules × Bool
unfolding read
read_named reader rev name ms =
    let first = read reader ms rev in
    let second = read reader first.0 name in
    elim first.1 [
      | none ↦ (first.0, true)
      | some _ ↦ elim second.1 [ none ↦ (second.0, true) | some _ ↦ (second.0, false) ]
    ]

-- `FindModule` of an include (submodules) or an import (modules)
unfoldable pub find_module :
    Reader → ModuleKind → Bytes → Option Bytes → Modules → Option ℕ × Modules
unfolding find_named read_named revision_name
find_module reader k name date ms =
    let rev = revision_name name date in
    let r = read_named reader rev name ms in
    elim (find_named k rev name ms) [
      | some a ↦ (some a, ms)
      | none ↦ (if r.1 then find_named k rev name r.0 else none, r.0)
    ]
