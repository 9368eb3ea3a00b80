-- ===== src/Identity.antt =====
-- pkg/yang/identity.go: the dictionary of identities, their bases and their values.
--
-- An `*Identity` is an address of a heap of identities.
pub mod Walk
pub mod Sweep
use goyang.Base.{
  ℕ, zero, suc, Bool, true, false, ◌||◌, ◌==◌, List, [], ◌∷◌, ◌++◌, map, Option, none, some, Bytes,
  is_in, if◌then◌else◌, text_eq, get_elem?,
}
use goyang.Base.Maps.{lookup, insert}
use goyang.Base.Options.{◌>>=◌}
use goyang.Base.Result.{Result, ok, err}
use goyang.Enum.{text_keys}
use goyang.Modules.{Module, Modules, Reader}
use goyang.Modules.Prefix.{split_prefix, module_name, find_module_by_prefix, prefix_at}

pub record Identity : Type 0 where
  pub name : Bytes
  pub base : List Bytes
  -- the module or submodule in which it stands (`RootNode`)
  pub root : ℕ
  pub values : List ℕ

abbrev pub Heap : Type 0
Heap = ℕ → Identity

-- the heap with the object at `a` changed
unfoldable pub modify : ℕ → (Identity → Identity) → Heap → Heap
modify a f heap b = if b == a then f (heap b) else heap b

unfoldable pub values_of : Heap → ℕ → List ℕ
values_of heap a = (heap a).values

-- `resolvedIdentity`: the module and the identity
abbrev pub Resolved : Type 0
Resolved = ℕ × ℕ

unfoldable pub append_if_not_in : List ℕ → ℕ → List ℕ
append_if_not_in ids chk = if is_in chk ids then ids else ids ++ chk ∷ []

-- the loop of `addChildren` over the values, `f` is the recursive call
unfoldable pub add_each : (ℕ → List ℕ → Option (List ℕ)) → List ℕ → List ℕ → Option (List ℕ)
add_each f [] ids = some ids
add_each f (c ∷ cs) ids = f c ids >>= add_each f cs

-- `addChildren(r, ids)` where `g` gives the values of an identity; `none` is a run that has not ended
-- within its fuel.
unfoldable pub add_children : ℕ → (ℕ → List ℕ) → ℕ → List ℕ → Option (List ℕ)
unfolding add_each append_if_not_in
add_children zero g r ids = none
add_children (suc fuel) g r ids = add_each (add_children fuel g) (g r) (append_if_not_in ids r)

-- `modulePrefixedName`; `none` where the program stops at a nil module.
unfoldable pub module_prefixed_name : Modules → Identity → Option Bytes
unfolding module_name
module_prefixed_name ms i = do n ← module_name ms i.root; some (n ++ (b':' ∷ i.name))

-- the loops of `resolveIdentities` over the identities of one module
unfoldable pub enter :
    Modules → Heap → ℕ → List ℕ → List (Bytes × Resolved) → Option (List (Bytes × Resolved))
unfolding module_prefixed_name insert
enter ms heap m [] dict = some dict
enter ms heap m (i ∷ is) dict = do
  key ← module_prefixed_name ms (heap i)
  enter ms heap m is (insert key (m, i) dict)

-- those of the linked submodules that it includes
unfoldable pub enter_included :
    Modules → Heap → List (Option ℕ) → List (Bytes × Resolved) → Option (List (Bytes × Resolved))
unfolding enter
enter_included ms heap [] dict = some dict
enter_included ms heap (none ∷ ls) dict = enter_included ms heap ls dict
enter_included ms heap (some b ∷ ls) dict = do
  m ← get_elem? ms.store b
  dict1 ← enter ms heap b m.identity dict
  enter_included ms heap ls dict1

unfoldable pub enter_all :
    Modules → Heap → List (Bytes × ℕ) → List (Bytes × Resolved) → Option (List (Bytes × Resolved))
unfolding enter enter_included
enter_all ms heap [] dict = some dict
enter_all ms heap ((k, a) ∷ t) dict = do
  m ← get_elem? ms.store a
  dict1 ← enter ms heap a m.identity dict
  dict2 ← enter_included ms heap (map (λ i. i.linked) m.includes) dict1
  enter_all ms heap t dict2

pub data IdentityError : Type 0 where
  no_local_base no_module no_remote_base : Bytes → IdentityError

-- `(*Module).findIdentityBase` in the module at `mod`; looking a prefix up may read a module.
unfoldable pub find_identity_base :
    Reader
    → Modules
    → List (Bytes × Resolved)
    → ℕ
    → Bytes
    → Option (Result IdentityError ℕ × Modules)
unfolding split_prefix module_name find_module_by_prefix prefix_at lookup text_eq
find_identity_base reader ms dict at base_str =
    let (prefix, base_name) = split_prefix base_str in
    let is_local = text_eq prefix [] || text_eq prefix (prefix_at ms at) in
    let here : Option (Result IdentityError ℕ × Modules) = module_name ms at >>= λ n.
    elim (lookup (n ++ (b':' ∷ base_name)) dict) [
      | some r ↦ some (ok r.1, ms)
      | none ↦ some (err (no_local_base base_str), ms)
    ] in
    let found = find_module_by_prefix reader ms at prefix in
    let there : Option (Result IdentityError ℕ × Modules) = elim found.0 [
      | none ↦ some (err (no_module prefix), found.1)
      | some e ↦ module_name found.1 e >>= λ n. elim (lookup (n ++ (b':' ∷ base_name)) dict) [
        | some r ↦ some (ok r.1, found.1)
        | none ↦ some (err (no_remote_base base_str), found.1)
      ]
    ] in
    if is_local then here else there

-- The heap, the modules and the errors so far of the second pass.
pub record Linking : Type 0 where
  pub heap : Heap
  pub modules : Modules
  pub errors : List IdentityError

unfoldable pub link_bases :
    Reader → List (Bytes × Resolved) → ℕ → List Bytes → Linking → Option Linking
unfolding find_identity_base modify
link_bases reader dict i [] s = some s
link_bases reader dict i (b ∷ bs) s = do
  (r, ms) ← find_identity_base reader s.modules dict (s.heap i).root b
  elim r [
    | err e ↦
        link_bases reader dict i bs
          (record { heap = s.heap; modules = ms; errors = s.errors ++ e ∷ [] })
    | ok a ↦ link_bases reader dict i bs (record {
      heap = modify a (λ o. record o { values = o.values ++ i ∷ [] }) s.heap;
      modules = ms;
      errors = s.errors;
    })
  ]

unfoldable pub link_all : Reader → List (Bytes × Resolved) → List ℕ → Linking → Option Linking
unfolding link_bases
link_all reader dict [] s = some s
link_all reader dict (i ∷ is) s = do
  s1 ← link_bases reader dict i (s.heap i).base s
  link_all reader dict is s1

-- the last pass: the values of each identity of the dictionary are collected
unfoldable pub sweep : ℕ → List ℕ → Heap → Option Heap
unfolding add_children add_each values_of modify
sweep fuel [] heap = some heap
sweep fuel (i ∷ is) heap = do
  vs ← add_each (add_children fuel (values_of heap)) (values_of heap i) []
  sweep fuel is (modify i (λ o. record o { values = vs }) heap)

-- `resolveIdentities`: the dictionary grows from that of an earlier call.
unfoldable pub resolve_identities :
    Reader
    → ℕ
    → Modules
    → Heap
    → List (Bytes × Resolved)
    → Option (Linking × List (Bytes × Resolved))
unfolding enter_all link_all sweep
resolve_identities reader fuel ms heap dict0 = do
  dict ← enter_all ms heap ms.modules dict0
  let todo = map (λ (k, r). r.1) dict
  s ← link_all reader dict todo (record { heap = heap; modules = ms; errors = [] })
  heap1 ← sweep fuel todo s.heap
  some (record s { heap = heap1 }, dict)
