-- ===== src/Modules/Prefix.antt =====
-- The lookups of modules by prefix in pkg/yang/node.go.
use goyang.Base.{
  ℕ, ◌||◌, List, [], ◌∷◌, Option, none, some, Bytes, text_eq, get_elem?, ◌==◌, if◌then◌else◌,
}
use goyang.Base.Maps.{lookup}
use goyang.Enum.{text_keys}
use goyang.Modules.{Modules, Import, module_kind, Reader, get_prefix, find_module, module_kind}

-- `strings.SplitN(s, ":", 2)` of `getPrefix`: the bytes before and behind the first colon.
unfoldable pub cut_colon : Bytes → Option (Bytes × Bytes)
cut_colon [] = none
cut_colon (c ∷ s) =
    let rest : Option (Bytes × Bytes) = elim (cut_colon s) [
      | none ↦ none
      | some p ↦ some (c ∷ p.0, p.1)
    ] in
    if c == b':' then some ([], s) else rest

-- `getPrefix`
unfoldable pub split_prefix : Bytes → Bytes × Bytes
unfolding cut_colon
split_prefix s = elim (cut_colon s) [ none ↦ ([], s) | some p ↦ p ]

unfoldable pub prefix_at : Modules → ℕ → Bytes
unfolding get_prefix
prefix_at ms a = elim (get_elem? ms.store a) [ none ↦ [] | some m ↦ get_prefix m ]

-- `module` of a node whose root is the module at `a`: none is nil
unfoldable pub module_of : Modules → ℕ → Option ℕ
unfolding lookup
module_of ms a = elim (get_elem? ms.store a) [
  | none ↦ none
  | some m ↦ elim m.belongs_to [ none ↦ some a | some b ↦ lookup b.name ms.modules ]
]

-- `module(n).Name`, where none is the read through a nil pointer
unfoldable pub module_name : Modules → ℕ → Option Bytes
unfolding module_of
module_name ms a = elim (module_of ms a) [
  | none ↦ none
  | some b ↦ elim (get_elem? ms.store b) [ none ↦ none | some m ↦ some m.name ]
]

-- the loop of `FindModuleByPrefix` over the imports
unfoldable pub find_import : Reader → Bytes → List Import → Modules → Option ℕ × Modules
unfolding find_module text_eq
find_import reader prefix [] ms = (none, ms)
find_import reader prefix (i ∷ is) ms =
    let rest = find_import reader prefix is ms in
    if text_eq prefix i.prefix
    then find_module reader module_kind i.name i.revision_date ms
    else rest

-- `FindModuleByPrefix` of a node whose root is the module at `a`
unfoldable pub find_module_by_prefix : Reader → Modules → ℕ → Bytes → Option ℕ × Modules
unfolding prefix_at find_import
find_module_by_prefix reader ms a prefix =
    let imports : List Import = elim (get_elem? ms.store a) [ none ↦ [] | some m ↦ m.imports ] in
    let found = find_import reader prefix imports ms in
    if text_eq prefix [] || text_eq prefix (prefix_at ms a) then (some a, ms) else found
