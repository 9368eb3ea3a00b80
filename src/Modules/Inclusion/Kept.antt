-- ===== src/Modules/Inclusion/Kept.antt =====
-- What `FindModule` of pkg/yang/modules.go keeps: the modules that were visited and the bound
-- on the store.
use goyang.Base.{ℕ, ◌≡◌, refl, ◌∙◌, List, [], ◌∷◌, Option, Bytes, Option-cases, inl, inr}
use goyang.Base.Maps.{lookup}
use goyang.Base.Result.{Result, ok, err, Result-cases}
use goyang.Enum.{text_keys}
use goyang.Modules.{
  Modules, ModuleKind, module_kind, submodule_kind, ModuleError, Node, module_node, other_node,
  Reader, kind, full_name, table, set_table, add_module, add, add_nodes, read, find_named,
  read_named, revision_name, find_module,
}
use goyang.Modules.Inclusion.Room.{Fits, IsNamedReader, read-Fits}

set_table_included :
    (k : ModuleKind) (t : List (Bytes × ℕ)) (ms : Modules)
    → (set_table k t ms).included ≡ ms.included
unfolding set_table
set_table_included module_kind t ms = refl
set_table_included submodule_kind t ms = refl

add_included : (ms : Modules) (n : Node) → (add ms n).0.included ≡ ms.included
unfolding add
add_included ms (other_node name k) = refl
add_included ms (module_node m) = elim (Option-cases (lookup (full_name m) (table (kind m) ms))) [
  | inl e ↦ rw (add, e, add_module) (set_table_included (kind m) _ _)
  | inr (a, e) ↦ rw (add, e) refl
]

add_nodes_included :
    (ns : List (Result ModuleError Node)) (ms : Modules)
    → (add_nodes ms ns).0.included ≡ ms.included
unfolding add_nodes
add_nodes_included [] ms = refl
add_nodes_included (err e ∷ ns) ms = refl
add_nodes_included (ok n ∷ ns) ms = elim (Option-cases (add ms n).1) [
  | inl e ↦ rw (add_nodes, e) (add_nodes_included ns (add ms n).0 ∙ add_included ms n)
  | inr (a, e) ↦ rw (add_nodes, e) (add_included ms n)
]

-- What one read keeps, what `FindModule` keeps.
module _ (reader : Reader) (Keeps : Modules → Type 0)
    (keep : (ms : Modules) (name : Bytes) → Keeps ms → Keeps (read reader ms name).0)
    (k : ModuleKind) (name : Bytes) (date : Option Bytes) (ms : Modules) (h : Keeps ms) where
  read_named_keeps : (rev : Bytes) → Keeps (read_named reader rev name ms).0
  unfolding read_named
  read_named_keeps rev =
      let h1 = keep ms rev h in
      let h2 = keep (read reader ms rev).0 name h1 in
      elim (Option-cases (read reader ms rev).1) [
        | inl e ↦ rw (read_named, e) h1
        | inr (x, e) ↦ elim (Option-cases (read reader (read reader ms rev).0 name).1) [
          | inl f ↦ rw (read_named, e, f) h2
          | inr (y, f) ↦ rw (read_named, e, f) h2
        ]
      ]

  pub find_module_keeps : Keeps (find_module reader k name date ms).1
  unfolding find_module
  find_module_keeps = elim (Option-cases (find_named k (revision_name name date) name ms)) [
    | inl e ↦ rw (find_module, e) (read_named_keeps (revision_name name date))
    | inr (a, e) ↦ rw (find_module, e) h
  ]

read_included :
    (reader : Reader) (ms : Modules) (name : Bytes) → (read reader ms name).0.included ≡ ms.included
unfolding read
read_included reader ms name = elim (Result-cases (reader name)) [
  | inl (ns, e) ↦ rw (read, e) (add_nodes_included ns ms)
  | inr (x, e) ↦ rw (read, e) refl
]

pub find_module_included :
    (reader : Reader) (k : ModuleKind) (name : Bytes) (date : Option Bytes) (ms : Modules)
    → (find_module reader k name date ms).1.included ≡ ms.included
find_module_included reader k name date ms =
    find_module_keeps reader (λ s. s.included ≡ ms.included) (λ s n e. read_included reader s n ∙ e)
      k name date ms refl

pub find_module-Fits :
    (us : List Bytes) (reader : Reader)
    → IsNamedReader us reader
    → (k : ModuleKind) (name : Bytes) (date : Option Bytes) (ms : Modules) → Fits us ms
    → Fits us (find_module reader k name date ms).1
find_module-Fits us reader p = find_module_keeps reader (Fits us) (read-Fits us reader p)
