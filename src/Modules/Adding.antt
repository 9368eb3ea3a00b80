-- ===== src/Modules/Adding.antt =====
-- The maps of `Modules` stay right through `add`, `Parse` and `Read` of pkg/yang/modules.go.
use goyang.Base.{
  ℕ, ◌≡◌, ◌≢◌, inl, inr, refl, false, List, [], ◌∷◌, none, some, Bytes, arith, length, get_elem?,
  Option-cases, sym, subst, All, ⊎_elim, get_elem?_cases,
}
use goyang.Base.Maps.{lookup}
use goyang.Base.Result.{Result, ok, err, Result-cases}
use goyang.Enum.{text_keys}
use goyang.Modules.{
  Module, Modules, ModuleKind, module_kind, submodule_kind, ModuleError, Node, module_node,
  other_node, Reader, kind, full_name, full_name_at, table, set_table, add_names, add_module, add,
  add_nodes, read, new_modules,
}
use goyang.Modules.Names.{has_at}
use goyang.Modules.Tables.{IsIndexed, In, IsPlain, more, IsCatalog-add_names, IsCatalog-other}
use goyang.Modules.Catalog.{IsCatalog, name_at}

-- Both maps, when that of kind `k` is replaced and the other module kind keeps its map.
set_table-catalog :
    (Holds : ModuleKind → List (Bytes × ℕ) → Type 0) (k : ModuleKind) (t : List (Bytes × ℕ))
    (ms : Modules)
    → Holds k t
    → ((j : ModuleKind) → k ≢ j → Holds j (table j ms))
    → (j : ModuleKind) → Holds j (table j (set_table k t ms))
unfolding set_table table
set_table-catalog Holds module_kind t ms h o module_kind = h
set_table-catalog Holds submodule_kind t ms h o submodule_kind = h
set_table-catalog Holds module_kind t ms h o submodule_kind = o submodule_kind (λ e. cc)
set_table-catalog Holds submodule_kind t ms h o module_kind = o module_kind (λ e. cc)

table_same :
    (k : ModuleKind) (ms : Modules) (s : List Module)
    → table k (record ms { store = s }) ≡ table k ms
unfolding table
table_same module_kind ms s = refl
table_same submodule_kind ms s = refl

store_same :
    (k : ModuleKind) (t : List (Bytes × ℕ)) (ms : Modules) → (set_table k t ms).store ≡ ms.store
unfolding set_table
store_same module_kind t ms = refl
store_same submodule_kind t ms = refl

add_module-IsIndexed :
    (ms : Modules) (m : Module)
    → IsIndexed ms
    → has_at m.name ≡ false
    → lookup (full_name m) (table (kind m) ms) ≡ none
    → IsIndexed (add_module ms m)
unfolding add_module
add_module-IsIndexed ms m h p new =
    let more_ms = record ms { store = more ms.store m } in
    let t = add_names more_ms.store m.name (full_name m) (length ms.store) (table (kind m) ms) in
    let plain : (b : ℕ) (x : Module) → get_elem? more_ms.store b ≡ some x → has_at x.name ≡ false =
      λ b x e. ⊎_elim (h.plain b x) (λ q. rw q.1 p) (get_elem?_cases ms.store m b x e) in
    let Holds : ModuleKind → List (Bytes × ℕ) → Type 0 = λ k u.
      IsCatalog (name_at more_ms.store) (full_name_at more_ms.store) (In more_ms.store k) u in
    let both =
      set_table-catalog Holds (kind m) t more_ms
        (IsCatalog-add_names ms.store m (table (kind m) ms) (h.catalog (kind m)) plain new)
        (λ j d.
          rw (table_same j ms more_ms.store)
            (IsCatalog-other ms.store m j (table j ms) d (h.catalog j))) in
    let s = sym (store_same (kind m) t more_ms) in
    record {
      catalog = λ k.
          subst
            (λ (z : List Module).
              IsCatalog (name_at z) (full_name_at z) (In z k)
                (table k (set_table (kind m) t more_ms)))
            s (both k);
      plain =
          subst
            (λ (z : List Module).
              (b : ℕ) (x : Module) → get_elem? z b ≡ some x → has_at x.name ≡ false)
            s plain;
    }

-- `add` keeps the two maps as they should be, whether it accepts the node or not: a full name finds
-- its module, a bare name the module of that name whose full name is the greatest.
pub add-IsIndexed : (ms : Modules) (n : Node) → IsPlain n → IsIndexed ms → IsIndexed (add ms n).0
unfolding add
add-IsIndexed ms (other_node name k) p h = h
add-IsIndexed ms (module_node m) p h =
    elim (Option-cases (lookup (full_name m) (table (kind m) ms))) [
      | inl e ↦ rw (add, e) (add_module-IsIndexed ms m h p e)
      | inr (a, e) ↦ rw (add, e) h
    ]

abbrev pub IsPlainResult : Result ModuleError Node → Type 0
IsPlainResult (ok n) = IsPlain n
IsPlainResult (err e) = Unit

add_nodes-IsIndexed :
    (ns : List (Result ModuleError Node)) (ms : Modules)
    → All IsPlainResult ns
    → IsIndexed ms
    → IsIndexed (add_nodes ms ns).0
unfolding add_nodes
add_nodes-IsIndexed [] ms p h = h
add_nodes-IsIndexed (err e ∷ ns) ms p h = h
add_nodes-IsIndexed (ok n ∷ ns) ms p h =
    let h1 = add-IsIndexed ms n p.0 h in
    elim (Option-cases (add ms n).1) [
      | inl e ↦ rw (add_nodes, e) (add_nodes-IsIndexed ns (add ms n).0 p.1 h1)
      | inr (a, e) ↦ rw (add_nodes, e) h1
    ]

-- No file has a module whose bare name has an at sign.
abbrev pub IsPlainReader : Reader → Type 0
IsPlainReader reader =
    (name : Bytes) (ns : List (Result ModuleError Node))
    → reader name ≡ ok ns
    → All IsPlainResult ns

pub read-IsIndexed :
    (reader : Reader)
    → IsPlainReader reader
    → (ms : Modules) (name : Bytes) → IsIndexed ms
    → IsIndexed (read reader ms name).0
unfolding read
read-IsIndexed reader p ms name h = elim (Result-cases (reader name)) [
  | inl (ns, e) ↦ rw (read, e) (add_nodes-IsIndexed ns ms (p name ns e) h)
  | inr (x, e) ↦ rw (read, e) h
]

table-new_modules : (k : ModuleKind) → table k new_modules ≡ []
unfolding table new_modules
table-new_modules module_kind = refl
table-new_modules submodule_kind = refl

pub new_modules-IsIndexed : IsIndexed new_modules
unfolding new_modules lookup
new_modules-IsIndexed = record {
  catalog = λ k. rw table-new_modules (record {
    known = λ j a l. absurd (ground arith);
    bare = λ b (m, e, i). absurd (ground arith);
    exact = λ b (m, e, i). absurd (ground arith);
  });
  plain = λ b m e. ground arith;
}
